-- ===== src/Lib.antt =====
-- Clipse: a model of the core of the clipboard history and its synchronisation.
--
-- Clipse is a daemon that records what is copied, keeps it in a local SQLite database and
-- synchronises it with the user's other devices without a server. The program's parts that are
-- modelled here, and the files that model them:
--
--   * crates/clipse-core (Core.antt): identifiers, the hybrid logical clock, content hashes and clips.
--     Core/Hlc.antt is `Hlc` and `HlcClock` of hlc.rs, with the reading of the system clock as an
--     argument of `now` and `observe`; Core/Hash.antt is hash.rs; Core/Clip.antt and
--     Core/Clip/Format.antt are clip.rs.
--   * crates/clipse-sync (Sync.antt): Sync/Merge.antt is `merge` of merge.rs, Sync/Guard.antt is
--     `LoopGuard` of loop_guard.rs, and Sync/Chunk/Source.antt and Sync/Chunk/Receiver.antt are
--     `ChunkSource` and `ChunkReceiver` of chunk.rs.
--   * crates/clipse-store (Store.antt): Store/Tables.antt holds the tables and the statements of
--     store.rs that write them, Store/Queries.antt those that read, with row.rs, and Store/Blobs.antt is
--     blob.rs.
--   * crates/clipsed (Daemon.antt): Daemon/Session.antt is `apply` and the greeting of sync.rs, with the
--     message types of crates/clipse-sync/src/message.rs that it reads, and Daemon/Session/History.antt the
--     exchange of histories.
--   * crates/clipse-clipboard (Clipboard.antt): Clipboard/OwnWrites.antt is own_write_guard.rs,
--     Clipboard/Apps.antt is sensitive/apps.rs,
--     Clipboard/Secrets.antt is sensitive/secrets.rs and Clipboard/Watch.antt is `classify` of watch.rs
--     with the hash of capture.rs.
--   * crates/clipse-net (Net.antt): Net/Candidates.antt is candidate.rs and Net/Framing.antt is
--     framing.rs.
--   * crates/clipse-crypto (Crypto.antt): Crypto/Trust.antt is rotation.rs; Crypto/Code.antt,
--     Crypto/Wire.antt and Crypto/Ceremony.antt are pairing.rs: the six digits, the messages and the two
--     sides. Crypto/Sessions.antt is session.rs, the handshake of paired devices and the use of its keys.
--   * crates/clipsed, continued: Daemon/Capture.antt is capture.rs, the way of a capture into the store.
--     Daemon/Pairing.antt is pairing.rs, Daemon/Pairing/Serving.antt one connection at the device that shows
--     the digits, with its timeout, from peers.rs, and Daemon/Pairing/Together.antt the ceremony between
--     two daemons, from daemon.rs. Daemon/Peers.antt is the table of peers of peers.rs, with
--     the delays of crates/clipse-net/src/transport.rs in Net/Backoff.antt.
--   * crates/clipse-ipc (Ipc.antt): Ipc/Codec.antt is codec.rs, the frames between the daemon and its
--     clients.
--   * crates/clipse-store, continued: Store/Search.antt is `escape_query` of fts.rs.
--
-- How they interact: a capture that the own-write guard and the blocklist let through becomes a `Clip`
-- by `new_clip`, stamped by the clock's `now`, and `insert` stores it. What a peer sends goes through
-- `apply`, which asks `merge` about it and the copy that `lookup_by_hash` finds, writes the store and
-- records the clip in the loop guard. A payload above `inline_max_bytes` is a blob: it is kept in the blob
-- directory under the quota, and a session asks for the blobs that it lacks. The receiver of chunk.rs
-- takes a blob in pieces that may be resumed; the session of the daemon does not use it.
--
-- The folder of a module holds its proofs, in files named for what they prove; Prelude.antt and its
-- folder hold what the components share, and the files named Examples run the definitions and apply
-- the theorems to concrete inputs.
--
-- Conventions. Numbers are natural numbers; the arithmetic of `u8`, `u32` and `u64` is written out where
-- it can wrap or saturate. A method that changes its object takes the state and returns the new one,
-- and an error is a value of the result. Identifiers and hashes are numbers, standing for their bytes;
-- strings are lists of bytes. What is not in the repository is a parameter: the digest function
-- (BLAKE3), random identifiers, the system clock, the Noise library and the serialiser, the regular
-- expressions of the detection of secrets. Loops
-- are structural recursion on lists. Only `chunks` of Net/Framing.antt, which cuts a list, runs on fuel:
-- it is given the length of the list, and each turn takes at least one element off.
--
-- Not modelled: threads and locks (an operation that holds a lock is one step), serialisation by
-- serde, the text of previews and of log lines, the platform clipboards, the user interface and the
-- site.

pub mod Prelude
pub mod Core
pub mod Sync
pub mod Store
pub mod Clipboard
pub mod Net
pub mod Ipc
pub mod Crypto
pub mod Daemon
