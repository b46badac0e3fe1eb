-- ===== src/Lib.antt =====
-- hermes-hey, the platform plugin that connects the Hermes gateway with HEY mail: a verification
-- library of its Python code.
--
-- The program. A sidecar process watches a HEY account and sends one JSON frame for each event. The
-- adapter parses the frame, stores the event of an authorized sender in a durable queue, one file of
-- JSON, and acknowledges it to the sidecar. It then hands the pending events to the gateway, one for
-- each thread at a time, and answers the thread with the gateway's final response. The event is
-- completed, that is removed from the queue and remembered, once the response is confirmed.
--
-- The files:
-- * Core is hey_platform/core.py: Core/Event has `HeyEvent` with `from_dict` and `to_dict`, Core/Frames
--   the frames of the watch, Core/Identity the texts of threads and entries with `parse_context_id`.
--   Core/RoundTrip, Core/Watched and Core/Contexts hold their theorems.
-- * Queue is `DurableQueue` of hey_platform/engine.py. Queue/Persisted and Queue/State are the file's
--   format: `_parse_persisted_event`, `_load` from the bytes on (`load_state`), `_trim`, and `_save` up
--   to the bytes (`encode_state`). Queue/Transaction has `ingest`, `pending` and `complete`, with one
--   frame (`transact`) for what the code writes out for POSIX and for Windows. Queue/Spec is the
--   ledger, what the queue promises with no file; Queue/Sets, Queue/Format, Queue/Loaded,
--   Queue/Stored, Queue/Refinement, Queue/Atomic, Queue/Memory, Queue/Returns and Queue/Handles hold the
--   theorems.
-- * Posix is the storage of the state file in hey_platform/engine.py under POSIX: Posix/Api the calls of
--   the operating system, Posix/Parent `_assert_posix_parent_identity` and `_open_posix_parent`,
--   Posix/Reading `_read_secure_state`, Posix/Saving `_save_posix`, and Posix/Storing the storage that
--   they make up for the queue. Posix/Files and Posix/Descriptors say what the code relies on of files
--   and of descriptors; Posix/Writing, Posix/Filling, Posix/Replacing, Posix/Opening, Posix/Found,
--   Posix/Private, Posix/Released, Posix/Kept, Posix/Refinement and Posix/Transactions hold the
--   theorems.
-- * Adapter is `HeyAdapter` of hey_platform/adapter.py: Adapter/Access who may write, Adapter/Claims the
--   claims of threads, Adapter/Drain `_drain_pending` with `_dispatch`, Adapter/Delivery `send` and
--   `_send_with_retry`, Adapter/Completed `on_processing_start` and `on_processing_complete`,
--   Adapter/Watching `process_watch_line` and the decisions of `_watch_supervisor`, Adapter/Stream the
--   frames of one connection, Adapter/Ready `_drain_when_gateway_ready`, and Adapter/Lifecycle
--   `connect` and `disconnect`. Adapter/World is the
--   state that they change, and `Session` of Adapter/Lifecycle adds what a connection keeps.
--   Adapter/Safety, Adapter/Replies, Adapter/Retries, Adapter/Connections, Adapter/Acknowledged,
--   Adapter/Unconfirmed, Adapter/Completed, Adapter/Locking, Adapter/Connecting and Adapter/Sessions hold the theorems.
-- * Client is hey_platform/client.py: Client/Account `canonical_account`, Client/Command the end of
--   `make_sidecar_runner` and `HeySDKClient`, Client/Run the run of a started command, Client/Watch the
--   start, the lines, the end and the acknowledgements of `HeySDKWatch`; Client/Range, Client/Output,
--   Client/Answers and Client/Lines hold the theorems.
-- * Plugin is hey_platform/plugin.py: Plugin/Config has `validate_config` and `apply_yaml_config`,
--   Plugin/Settings the theorems.
-- * Windows/Transaction is `WindowsStateTransaction` of hey_platform/windows_state.py, Windows/Privacy the
--   tests of hey_platform/engine.py for a private path, Windows/Operations
--   `_windows_state_transaction` of hey_platform/engine.py around the operations of the queue, and
--   Windows/Handles and Windows/Released what they leave open.
-- * Prelude, Exec, Dict, Json, Strings and Decimal are what the program uses of Python: exceptions as
--   values, code that changes a state and may raise, dictionaries, the values of JSON, and the
--   methods of texts. Tests has the examples.
--
-- What is a parameter. The JSON codec with its bytes (`Codec`, `CodecLaws`), the storage of one file
-- (`Storage`, `StorageLaws`), the gateway (`handle_message` and `gateway_authorized` of `Adapter`), the
-- client's mutations (`Client`), the runner of the sidecar's commands, `str.lower`, the sleep between
-- two attempts, the acknowledgement channel of the watch, the calls of Windows (`WindowsApi`), those of
-- POSIX (`PosixApi`, with `FileLaws` and `DescriptorLaws`), what `connect` calls of the gateway and of
-- asyncio (`Platform`, with `LockLaws` for the lock), and the processes of the watch (`WatchApi`) and of a command (`RunApi`).
--
-- Where the code awaits, other tasks run: the gateway, the client and the pauses are given the whole
-- world to change, and `meanwhile` of `Platform` is what other tasks do to a session.
--
-- Bounds and fuel. The digits of n are computed on the fuel n + 1, which is enough since a division
-- by 10 makes a positive number smaller. The segments of a poll interval are read on the length of
-- the text as fuel, since each takes a character at least. The loop of `_save_posix` that writes the
-- bytes has as many rounds as there are bytes, since each round writes one at least. The loops that
-- wait for the gateway and for the end of a command have a number of rounds, and say whether they have
-- ended within them. Attempts are
-- counted down from `max_retries`, and the supervisor runs over the list of the endings of its
-- connections. Python's integers have no bound, and the identifiers are natural numbers after
-- `_positive_int`. `parse_context_id` refuses more digits than Python's default limit for `int`; the
-- other numbers that are read from texts have no such limit here.
--
-- What is not modelled: `_ensure_secure_parent`, the native calls of Windows, process trees and pipes,
-- the race of the watch's pipe with the end of its process, the waiting for an idle session, time
-- stamps, logging, the locks of threads (an operation of the queue runs alone), and the Go sidecar.
pub mod Prelude
pub mod Json
pub mod Decimal
pub mod Strings
pub mod Core
pub mod Exec
pub mod Queue
pub mod Dict
pub mod Adapter
pub mod Client
pub mod Windows
pub mod Plugin
pub mod Tests
pub mod Posix
