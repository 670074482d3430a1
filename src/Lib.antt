-- ===== src/Lib.antt =====
-- Nisaba, a self-hosted editor for writing Typst documents together: the verification library.
--
-- The program. A document is a Typst source with marks: ranges of characters that are inserted,
-- deleted, commented on or secret (crates/nisaba-core). From these the program projects the views
-- that readers see, resolves changes by accepting or rejecting them, validates the marks, and
-- writes a redline that typesets the changes. The sync service (services/sync) carries the updates
-- of a document between peers in binary frames, keeps them in an append-only log for replay after
-- a restart, and tracks who is present.
--
-- The files, with the sources they model.
--   Core/Position, Core/Range: crates/nisaba-core/src/position.rs. A text is the list of its
--     Unicode scalar values, so that a character index is a list index; the conversions to and
--     from byte and UTF-16 offsets are loops over the text with the accumulators of the source as
--     arguments.
--   Core/Mark, Core/MarkSet: crates/nisaba-core/src/mark.rs. The set is the ordered map of OrdMap,
--     keyed by id.
--   Core/Flags, Core/Projection: crates/nisaba-core/src/projection.rs. The flag vector is a list
--     of bytes with the bits of the source; a view filters the characters by their flags.
--   Core/Delimiters, Core/RedlineStyle, Core/Redline: crates/nisaba-core/src/redline.rs. The scan
--     of a span is a step on its stack and its mode; the emitter goes from run to run.
--   Core/Resolution: crates/nisaba-core/src/resolution.rs. resolve is split where the source
--     branches: the mark is dropped, or its characters are removed and the other marks remapped.
--   Core/Deleted, Core/Validation: crates/nisaba-core/src/validation.rs, with one function for
--     each loop of validate and for the sweep of is_range_fully_deleted.
--   Core/Review, Core/Milestone: crates/nisaba-core/src/review.rs. Bulk and Threads are the bulk
--     resolution and the comment threads, Diff the linear-space diff of two sequences, Tiers its
--     use on lines, words and characters, Milestone the captured projects and their comparison.
--   Core/Document: crates/nisaba-core/src/document.rs. A method that changes the document returns
--     it.
--   Core/Project, Core/DocumentPath: crates/nisaba-core/src/project.rs, a project as an ordered
--     map and the construction of a DocumentPath. document_mut takes the change that its caller
--     makes.
--   Sync/Protocol: services/sync/src/protocol.rs. A write is an option, with none for the panic on
--     a blob whose length is no u32; a read takes the bytes from the cursor on and returns those
--     after.
--   Sync/OpLog: services/sync/src/op_log.rs, on the contents of a document's file.
--   Sync/Presence: services/sync/src/presence.rs. The hash map of peers is kept in id order; the
--     time of the clock is an argument of the operations that read it.
--   Sync/Config, Sync/Error: services/sync/src/config.rs and error.rs, the errors without the
--     texts of their messages.
--   Sync/Roles: services/sync/src/auth.rs and crates/nisaba-auth/src/lib.rs.
--   Sync/Authority: services/sync/src/authority.rs, over the operations of the Loro CRDT as a
--     record of parameters.
--   Sync/Room: services/sync/src/room.rs. A room is a record, and an operation takes the room and
--     returns it with its result. Room holds the sending and evicting, Admission join and leave,
--     Updates the path of an update, Upkeep opening, presence and sweeps. The outbound channel and
--     the two stores are records of parameters; a close signal is a cell of a store that the
--     session shares. Steps is the relation of the operations, each run under its lock, in any
--     order; handle_update is two steps, since other tasks may run between its import and its
--     relay, and a flush of the roster is two. An operation reads the clock once. Locks are never poisoned.
--   Sync/Registry: services/sync/src/registry.rs. The rooms stand in the ordered map in place of a
--     hash map; the state of the stores when a room opens is an argument. Registry has the operations
--     where no other task runs, Registry/Tasks the accesses of get_or_open to the shared map one by
--     one, with those of other tasks in between. A room's own changes, evictions of idle rooms and
--     tasks that are dropped are steps of their own.
--   Sync/Session: services/sync/src/session.rs. A handshake returns the registry with a close code
--     or the session; a message (Sync/Session/Inbound) returns the limiter, the room, the replies
--     and whether to go on.
--   Prelude, OrdMap, Sync/Bytes, Sync/Utf8: the parts of the standard library that the sources
--     use, namely lists, u32 conversions, the stable sort, BTreeMap, big-endian integers and
--     UTF-8.
--   Core/Examples, Core/Samples, Sync/Examples, Sync/Fixtures, Sync/Samples, Sync/SessionSamples:
--     runs on small inputs and the theorems at concrete inputs.
--
-- Numbers. usize and u64 are natural numbers, and u32 is one with its conversions written out
-- (u32_or_max is try_from with the maximum as fallback, add_u32 wraps). Where a theorem depends on
-- a field of type u32 being one, it says so (InU32).
--
-- Fuel. The redline loop and the replay loop run on fuel. Each round of the first emits at least
-- one character, and each round of the second takes at least a header of four bytes from the file,
-- so that the length of the text and that of the file are enough. The recursion of the diff is on
-- shorter sequences, and each round of its replacement loop takes at least one run. Each round of
-- the eviction of empty rooms removes one. A task that opens a room alone takes two steps for each
-- room that it evicts and at most five more.
--
-- Not modelled. Accessors, Display and Debug are left out of nisaba-core. Of the sync service
-- sockets, timeouts, token checks, the snapshot store and the HTTP server are left out; the Loro
-- CRDT and the object store are third-party code and I/O. The app and compile services, the
-- WebAssembly bindings, references, export and the web client are not modelled. File handles,
-- locks and fsync have no counterpart: an append is the bytes it adds.
pub mod Prelude
pub mod OrdMap
pub mod Core
pub mod Sync
