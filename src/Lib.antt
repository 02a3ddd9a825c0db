-- ===== src/Lib.antt =====
-- Mesh Lab: the rules of the Rust engine.
--
-- The engine (crates/) decides what phones of a field group accept, forward and keep. Bytes come in
-- from a native transport as frames (mesh-link), hold records that are routed between phones
-- (mesh-replication) and framed for the durable store (mesh-protocol); structured contents are
-- canonical CBOR (mesh-codec). Two phones exchange them as datagrams of an authenticated session
-- (mesh-session), which rests on signed proofs (mesh-crypto) and a certified roster (mesh-protocol),
-- and which a session link (mesh-runtime) carries over one link of the transport. A separate
-- diagnostic bridge (mesh-types, mesh-codec, mesh-runtime) answers requests of the host application
-- with snapshots of a bounded event history.
--
-- Which file models what:
--   Durable.antt                 crates/mesh-types/src/durable.rs: bounds, identifiers, errors
--   Codec.antt                   crates/mesh-codec/src/canonical.rs: Writer and Reader
--   Bridge.antt                  crates/mesh-types/src/lib.rs, crates/mesh-codec/src/lib.rs and
--                                crates/mesh-runtime/src/lib.rs: the diagnostic bridge
--   Link.antt                    crates/mesh-link/src/lib.rs: Frame
--   Object.antt                  crates/mesh-object/src/lib.rs: Manifest, PreparedObject
--   Protocol/Record.antt         crates/mesh-protocol/src/lib.rs: DurableRecord
--   Replication/Relay.antt       crates/mesh-replication/src/lib.rs: RelayFrame, RoutedRecord
--   Replication/Relay/Cache.antt crates/mesh-replication/src/lib.rs: RelayCache
--   Replication/Presence.antt    crates/mesh-replication/src/lib.rs: PresenceTable
--   Replication/Audience.antt    crates/mesh-replication/src/lib.rs: broadcast_audiences
--   Replication/Neighbors.antt   crates/mesh-replication/src/lib.rs: neighbor_plan
--   Replication/Transport.antt   crates/mesh-replication/src/lib.rs: select_transport
--   Replication/Transfer.antt    crates/mesh-replication/src/lib.rs: plan
--   Runtime/Receiver.antt        crates/mesh-runtime/src/reception.rs: DurableReceiver
--   Runtime/Sender.antt          crates/mesh-runtime/src/durable.rs: DurableSender
--   Runtime/SessionLink.antt     crates/mesh-runtime/src/link.rs: SessionLink
--   Crypto.antt                  crates/mesh-crypto/src/lib.rs: Scope, signature_input, verify
--   Protocol/Signed.antt         crates/mesh-protocol/src/lib.rs: signed, signed_parts
--   Protocol/Enrollment.antt     crates/mesh-protocol/src/lib.rs: EnrollmentRequest
--   Protocol/Presence.antt       crates/mesh-protocol/src/lib.rs: PresenceRecord
--   Protocol/Handoff.antt        crates/mesh-protocol/src/lib.rs: AuthorityHandoff
--   Protocol/Policy.antt         crates/mesh-protocol/src/lib.rs: PolicyBundle
--   Protocol/ReceiptAck.antt     crates/mesh-protocol/src/lib.rs: receipt acknowledgements
--   Protocol/Announcement.antt   crates/mesh-protocol/src/lib.rs: AuthenticatedAnnouncement
--   Protocol/Receipt.antt        crates/mesh-protocol/src/lib.rs: receipt_body, receipt_route
--   Protocol/Certificate.antt    crates/mesh-protocol/src/lib.rs: CertificateClaims
--   Protocol/Roster.antt         crates/mesh-protocol/src/lib.rs: VerifiedRoster
--   Session.antt                 crates/mesh-session/src/lib.rs: Session
--   Session/Handshake.antt       crates/mesh-session/src/lib.rs: Handshake
--   Session/Packets.antt         crates/mesh-session/src/lib.rs: Replay
--   Session/Noise.antt           crates/mesh-session/src/lib.rs: the prologue and the proof
-- The modules below each of these hold its theorems and, in Tests, runs on concrete inputs. Prelude
-- holds what they share: lists and Boolean tests over the native numbers, results with `>>=`, words
-- of bits, the derived orders and the ordered map that stands for BTreeMap.
--
-- Correspondence. A struct is a record, an enum a data type, and a function keeps its name, except
-- that Reader::bytes is byte_string, the Writer's methods are write_array, write_uint, write_bytes
-- and write_text, and a constructor is named after its type where the bare name is taken (new_frame,
-- new_reader). A method with a mutable receiver takes the state and gives back the result with the
-- state it leaves; Reader's methods give back the reader with a success only, since no caller reads
-- on after an error. A byte string is the list of its bytes, an array [u8; N] a list whose length
-- the theorems ask for where it matters. Machine words are natural numbers; a shift that drops high
-- bits is written out with its modulus, and usize has 64 bits. An index behind a check of the length
-- has the default 0, which is not read. BTreeMap is a list of pairs in the order of the keys.
--
-- Loops. Every loop of the modelled code runs over a list or a fixed number of bytes, and is
-- structural recursion. Only the cutting of a list into chunks (broadcast_audiences and
-- PreparedObject::from_opaque) counts its steps: as many as the list has elements are enough, which
-- is part of the theorems on the audiences and on the chunks of an object.
--
-- Third-party code is a parameter: SHA-256 is a function on byte lists, Ed25519 a record of its calls,
-- the Noise library a record of what it does with the two states that it keeps, and a native transport
-- a record of the two methods of TransportPort. A theorem that relies on one of these says on what.
--
-- Not modelled: the SQLCipher store; the sealing of contents and the wrapping of their keys, which are
-- calls of third-party libraries, with the verification of the receipts of what was opened; the
-- foreign interfaces; encode_info, which prints build-time strings; the wiping of secrets from
-- memory; and the applications in Dart, Kotlin and Swift.
pub mod Prelude
pub mod Durable
pub mod Codec
pub mod Bridge
pub mod Link
pub mod Protocol
pub mod Replication
pub mod Runtime
pub mod Object
pub mod Session
pub mod Crypto
