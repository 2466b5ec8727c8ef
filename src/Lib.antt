-- ===== src/Lib.antt =====
-- torrnado is a BitTorrent daemon with a terminal client. Its core is internal/engine: the table of
-- the torrents that the daemon tracks, over the library anacrolix/torrent, with every operation that
-- the client's calls reach (cmd/torrnado and internal/ipc pass them on), a tick once a second, and a
-- session file from which the daemon comes back after a restart. Clients reach it by the requests of
-- internal/ipc; the daemon also searches indexers for them (internal/indexer), and internal/tui shows
-- what it reports.
--
-- The parts and their files:
-- - Common: native numbers, lists, texts as byte lists, their runes (Common/Utf8), Go's int64 as a bit pattern below 2 ^ 64 with
--   its wrap-around (Common/Int64), and Go maps as association lists (Common/Keys).
-- - Engine/Library: what the package calls and does not implement, as parameters: IEEE doubles
--   (Float64) and the library's torrent (TorrentLib), with its documented laws (TorrentLaws).
-- - Engine/Types, Engine/State: internal/engine/types.go and the structs of engine.go and session.go.
-- - Engine/Flow, Engine/Snapshot: snapshot.go (dataFlow, applyFlow, snapshotLocked) and engine.go's
--   eventLocked, broadcast and Subscribe. A call of flowDecision and applyFlow is one step (turn).
-- - Engine/Guard: refreshVPN and refreshDisk of engine.go.
-- - Engine/Check: beginCheck, verifyPieces and cancelCheckLocked of ops.go as a step relation; a
--   check's goroutine is a Run, named by its context.
-- - Engine/Session, Engine/Restore: session.go (SaveSession, persist, recordLocked, RestoreSession).
-- - Engine/Ops, Engine/Relocate, Engine/Label, Engine/Seed: the operations of ops.go, label.go and
--   seedlimit.go, each a function from an engine to its result and the engine afterwards.
-- - Engine/Tick: tick of engine.go.
-- - Engine/Metadata: the goroutine of addSpec that waits for the metadata, and selectfiles.go; Go's
--   package path is a parameter (PathLib).
-- - Engine/Stream: lookupFile, PrepareStream and the caps over all torrents, of ops.go.
-- - Engine/Calls: the calls of the package as data, run in any order (run_all); the modules below it
--   prove what holds after every history of calls.
-- - Engine/Sample: a small concrete library, in which the theorems are tried.
-- - Indexer/Token, Indexer/Multi: token.go and multi.go of internal/indexer. A source is the answers
--   that it gives (Indexer/Result), and so are strings.ToLower and strings.TrimSpace (Strings, with
--   the laws used); a panic is the result none.
-- - Indexer/Cache, Indexer/Client: cache.go, errors.go and indexer.go. The network is what it answers
--   to each attempt, and do returns what it did on the way beside its outcome. The loop runs over the
--   attempts that are left.
-- - Ipc/Protocol, Ipc/Server: protocol.go and the switch of dispatch in server.go of internal/ipc,
--   over the engine, its two limiters and a searcher; what the library and the system answer to the
--   calls of one request is a World. Ipc/Histories, Ipc/Previews and Ipc/Refinement lead each request
--   back to the calls of Engine/Calls that its method stands for.
-- - Ipc/Client: client.go of internal/ipc. A caller's channel is named by its number, and the sections
--   of the client that its lock guards, and its receives, are steps taken in any order.
-- - Tui/Pieces, Tui/Layout: pieces.go, layout.go and the widths and windows of list.go, of
--   internal/tui.
-- - Tui/Model, Tui/Update: model.go, msg.go and the Update of update.go: the terminal client's state,
--   its messages, and what a message does to the state and asks for in return (Cmd). What handling a
--   message reads of the machine (the clock, the disk, the themes) is its World. An index that Go
--   would panic on gives the result none.
-- - Tui/Visible, Tui/Sidebar, Tui/Targets: visibleTorrents, sidebar.go and label.go, and what a key
--   acts on. Tui/Bindings says what a key means, Tui/Keys what it does, and Tui/Prompt what it does at
--   a prompt, all of update.go, keymap.go and detail.go.
-- - Tui/Find, Tui/Details, Tui/Themes, Tui/Palette, Tui/Mouse: find.go, the keys of detail.go,
--   themepicker.go and themewatch.go, palette.go, and mouse.go.
-- - Tui/Complete: complete.go, and ExpandHome of config/paths.go. The state machine takes the
--   completion as a parameter of its World, and Tui/Complete is what stands there.
-- - Batch: batch/expand.go. The expander has the temporary files on disk beside its own list. Its
--   recursion on what a glob matches takes fuel; two calls are enough where the matches are there.
-- - Disk: what these two ask of the disk, the network and the functions on paths.
-- - The modules below Tui/Update go through the handlers one by one; Tui/Update/Carries says what each
--   of them keeps.
-- - The modules called Tests apply the theorems to concrete inputs.
--
-- An operation is one step on the engine's state: the lock that the code takes is what makes it one,
-- and an operation that drops the lock in its middle (a move, a purge) is modelled from its start to
-- its end, with what the library and the file system answer on the way as arguments. The goroutines
-- that outlive a call (the end of a verification) are calls of their own. SetPaused, addSpec and tick
-- drop the lock between flowDecision and applyFlow as well, and so two of them at once may turn the
-- switches in the other order than they decided in; histories of whole calls do not cover that.
-- A time is in nanoseconds, with 0 for Go's zero time. But for Batch every loop runs over a list or
-- over what is left of a number, so no other fuel is needed.
--
-- Not modelled: the files on disk, the log, per-peer rates, the peers, trackers and pieces of a
-- torrent's details, the readers of a stream, sockets and gob, the HTTP requests and the parsing of
-- what indexers answer, the interleavings inside an engine operation, the terminal client's drawing
-- and the running of its commands, the configuration but for ExpandHome, and the command line: input
-- and output, or glue over the parts above. The VPN check and the free space are answers of the
-- machine.
pub mod Common
pub mod Engine
pub mod Batch
pub mod Disk
pub mod Indexer
pub mod Ipc
pub mod Tui
