-- ===== src/Lib.antt =====
-- corsa-bind: clients, transports and worker orchestration for the Corsa TypeScript server
-- (src/core). This library models the core of the Rust crates and proves what makes it correct.
--
-- The program. A client talks to a server process over a byte stream: either JSON-RPC
-- (src/core/corsa_jsonrpc), whose messages are framed by a Content-Length header, or a msgpack
-- transport (src/core/corsa_client/src/api/msgpack_codec.rs), whose messages are three-element
-- tuples; filesystem callbacks run the other way. A connection has a reader thread and a writer
-- thread, which share a table of pending requests and an outbound queue. An orchestrator
-- (src/core/corsa_orchestrator) keeps fleets of clients for profiles, leases them to callers, and
-- caches snapshots and results. An overlay keeps virtual documents and tells an LSP server of their
-- edits.
--
-- The files.
--   Common: names of the libraries, Boolean tests, lists over native numbers, equality by instance,
--     association lists for hash maps, stores and binary searches on arrays (Arrays), and a stable
--     sort (Sorting).
--   Core: src/core/corsa_core/src/error.rs (Core/Error), rpc.rs and the message and id types of
--     src/core/corsa_jsonrpc/src/jsonrpc (Core/Wire), JSON values, and texts made by format strings.
--   Io/Stream: the standard library's readers and writers. A reader is the chunks that its source
--     will deliver and how the source ends; a writer is what was written and the outcomes of its
--     next calls.
--   Rpc/Frame: src/core/corsa_jsonrpc/src/jsonrpc/frame.rs, `read_frame` and `write_frame`, with its
--     decimal numbers (Decimal) and its header block (Header).
--   Rpc/Message: message.rs there, the constructors of `RawMessage` and `into_kind`.
--   Rpc/Broadcast: src/core/corsa_runtime/src/broadcast.rs.
--   Rpc/Connection: connection.rs, the state `Inner` and the operations of callers; Loops has the
--     reader's and the writer's loop, Steps the interleavings of the threads as a step relation.
--   Client: src/core/corsa_client/src/api. Msgpack is msgpack_codec.rs, Release the `ReleaseProgress`
--     of snapshot_release_drain.rs, Callbacks the table and the encodings of callbacks.rs.
--     ContentMapper is content_mapper.rs: ranges, features and segments, the map from virtual to
--     original text (Virtual), the index of original positions, a tree of greatest ends in an array
--     (Original), and the map back (Projections, Images). SourceFile is source_file.rs and
--     source_file/header.rs: the header, the cursor over msgpack data, and the fields of a file.
--     Handles is the node handles of handles.rs, FileMemo the memo of descriptors in
--     symbol_identity.rs, SymbolIdentity the handles of symbols there and the references sent for
--     them.
--   TypeText: src/core/corsa_core/src/utils. Split is split.rs, Kinds type_text.rs, Parse and Flow
--     unsafe_flow.rs. A text is the list of its code points.
--   Lsp: src/core/corsa_lsp/src/lsp. Document is virtual_document.rs, with texts as lists of code
--     points and byte offsets counted by their UTF-8 lengths, and Document/Standard has the positions
--     of the LSP standard; Overlay is overlay.rs, whose Server is one that builds its documents from
--     the notifications.
--   Orchestrator: src/core/corsa_orchestrator/src/orchestrator/api.rs. Bounded is the map with an
--     eviction order that stands three times in the source, Fleet a `ClientFleet`, State the
--     `ApiOrchestrator` with prewarming, leases and shutdown, Caches the two caches, Batch
--     the gathering of results at the end of `execute_all`.
--   The files named Tests run the definitions on small inputs.
--
-- Numbers. `usize` has 64 bits, and counters that wrap are written with `% 2 ^ 64`; an `i64` is its
-- 64-bit pattern. Durations and instants are milliseconds. A write past the digit array of
-- `append_usize` is `none`, and an index out of range in a fleet is `panicked`, so that theorems
-- which give a result show that neither happens. The reader's loop runs on fuel; one unit for each
-- byte of the stream and one more is enough, since a frame takes at least one byte. The walk down
-- the tree of greatest ends has the number of its leaves and one as fuel, a loop over groups of
-- segments their number and one, and the parsing of a type text its length and one, since what it
-- parses inside is shorter; a result of `none` in these files is a panic or the end of the fuel.
--
-- What is a parameter. The searches of the memchr crate (the record `Search`, with their documented
-- laws); the JSON library's encoding and decoding (for the handles of symbols the record `JsonTexts`,
-- and what is documented of it the record `Documented`); handlers and tasks that callers give, and
-- the outcomes of spawns that the orchestrator awaits, with what others do to the fleet meanwhile;
-- the client's filesystem, and the outcome of each notification that the overlay sends. The two
-- loops of a connection are related by what the JSON library reads back from what it wrote, which
-- is not assumed to be the same message.
--
-- What is not modelled. Failed reservations of memory, observers and logs, the spawning and joining
-- of threads and the polling of futures, which belong to the operating system and the runtime; the
-- lossy decoding of UTF-8, so that the strings of a source file are their bytes, and the texts of the
-- errors for unknown codes; the msgpack worker thread, the walk through JSON messages that finds the
-- symbols in them, and the lint rules, which are parts of their own beside the transports and the
-- orchestrator; and process management, the reference tool, the language bindings and the typed
-- request and response data, which are I/O or data without logic.
pub mod Common
pub mod Core
pub mod Io
pub mod Rpc
pub mod Client
pub mod Orchestrator
pub mod Lsp
pub mod TypeText
