-- ===== src/Lib.antt =====
-- Baston is a FiveM-compatible game server in Rust. A gateway speaks the game's HTTP and UDP
-- protocols to the clients, zones hold the authoritative world and hand players over to each
-- other, a voice server speaks Mumble, and a scripting runtime runs the server's resources. This
-- library models the parts of it that are pure logic on data, from their sources under crates/,
-- and proves what makes them correct.
--
-- Files and what they model:
-- * Prelude and its children: tests on numbers, lists, bits, bytes, maps in key order, readers with
--   failure. Only `xor` of Prelude.Xor models code of the repository, `xor` and `xor_into` of
--   crates/baston-voice/src/crypto.rs.
-- * Udp (crates/baston-protocol/src/udp/mod.rs, route.rs, time_sync.rs): the hash of message
--   names, the message type in front of a packet, and the route, clock and session-host packets.
-- * Rage.Buffer (crates/baston-protocol/src/rage/buffer.rs): `MessageBuffer`, the bit stream that
--   every OneSync packet is written to and read from. The record has the struct's fields, `bytes`
--   for `data`; each method is the function of its name. Rage.Buffer.Signed has the signed and the
--   64-bit codecs.
-- * Rage.Reliability (crates/baston-protocol/src/rage/reliability.rs): `gameStateNAck` and
--   `gameStateAck`.
-- * Rage.ObjectIds (crates/baston-protocol/src/rage/object_ids.rs): the run-length coded grants of
--   object ids, whose message type is a hash of Udp.
-- * Rage.Clone (crates/baston-protocol/src/rage/clone.rs): the records of the clone streams, on the
--   bit buffer; Rage.Packet (packet.rs in the same directory): the frame index, the decoders of both
--   directions and `PackedWriter`, which spreads a client's records over fragments. Rage.Buffer.Fields
--   says when a sequence of reads takes back a sequence of writes.
-- * Rage.SyncTrees (crates/baston-protocol/src/rage/sync_trees.rs): the tables of the nodes of every
--   entity type; Rage.SyncWrite (sync_write.rs in the same directory): `write_sync_tree` and
--   `AuthoredNodes`; Rage.SyncParse (sync_parse.rs): the walk of `parse_sync_tree`, which hands the
--   payload of each node to the node's decoder. The cursor into a table is the list of the nodes
--   behind it.
-- * Rage.WorldGrid (crates/baston-protocol/src/rage/session.rs): `WorldGrid`, which client owns each
--   sector; Rage.Slots (the same file): `SlotAllocator`.
-- * Voice (crates/baston-voice/src): Voice.Pds models pds.rs, the variable-length integers;
--   Voice.Channel models channel.rs, Voice.Session session.rs and target.rs, Voice.Router
--   router.rs, Voice.Packet voice.rs with the header codes of lib.rs, Voice.Crypto crypto.rs, and
--   Voice.Framing framing.rs, the frames of the control channel.
--   A datagram is decrypted by Voice.Crypto, taken apart by Voice.Packet and sent to those that
--   Voice.Router names, from the channels, the sessions and their whisper targets.
-- * Gateway.ConnectionRouter (crates/baston-gateway/src/connection_router.rs): which zone each player
--   is routed to.
-- * Zone.Bucket (crates/baston-zone/src/routing_bucket.rs): the registry of routing buckets.
-- * Zone.Handoff (crates/baston-zone/src/handoff_manager.rs): `HandoffManager`, whose methods that
--   await the gateway are two functions each, begin_ and end_. Zone.Handoff.Reach says how they
--   interleave with the scan of boundary_loop.rs, what that file does behind an accepted crossing, and
--   the releases of mesh.rs in the same directory.
--
-- How code is read: an unsigned integer is a number with its range stated where it matters, and
-- its wrap-around written out; an `i32` is its bit pattern. A method on `&mut self` returns the new
-- state beside its result. `Option` is `Option`, and `?` is the bind of a monad. A `HashMap` or
-- `BTreeMap` is a list in key order. Cursors and lengths are `usize` and are taken as unbounded.
-- Every index into a byte array of the buffer is in range by the invariant of Rage.Buffer.Bounds.
--
-- Bounds and fuel: `compress` of Rage.ObjectIds takes the length of the list as fuel, which its
-- round trip shows to be enough; the loop over the frames of Voice.Packet takes the number of unread
-- bytes and one more, since each round consumes a byte; the loops of Voice.Crypto take the number of
-- bytes, since each round consumes a block. The loop of the packet decoders takes the number of bits
-- of the buffer, which is proved to be enough. The recursion over a sync tree takes two steps for
-- each node of its table, one for the node and one for its place among the children of its parent.
-- It and the loop over the frames are proved to end before their fuel does: what they would answer
-- without fuel, the argument `spent` of their definitions, does not matter.
--
-- Parameters: LZ4 in Rage.Packet, which gives back what it compressed; the decoders of single nodes
-- in Rage.SyncParse, and the arithmetic on coordinates in Rage.WorldGrid, both on floats; the AES
-- block cipher of Voice.Crypto (the crate `aes`), of which the theorems use that it maps 16-byte
-- blocks to such blocks and that decryption undoes encryption; the area-of-interest oracle of
-- Voice.Router; the gateway's replies and the clock in Zone.Handoff; protobuf in Voice.Framing, which
-- decodes what it encoded.
--
-- Not modelled: floats (the quantised codecs of the buffer, positions, quadtrees), protobuf, TLS,
-- sockets, tokio tasks, gRPC, V8 and the HTTP servers, which are input and output or third-party
-- code.
pub mod Prelude
pub mod Udp
pub mod Rage
pub mod Voice
pub mod Zone
pub mod Gateway
