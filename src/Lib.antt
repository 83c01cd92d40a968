-- ===== src/Lib.antt =====
-- Verification of the Compukter VM: a shallow embedding of the parts of its Rust core that keep
-- state and make decisions on their own.
--
-- The program runs guest programs on a virtual computer. The host (a Minecraft mod, over JNI or a C
-- interface, `ffi/`) drives one `Computer` (`src/computer.rs`), which owns an execution session
-- (`src/execution/session.rs`) over an interpreter (`src/execution/machine.rs`), a terminal, the
-- standard streams, the redstone device and a filesystem. Guest code suspends on host requests, on
-- channels and on joins; the task scheduler says which task runs next, the request table holds what
-- the host has to answer, and the devices say which waiting task an input wakes.
--
-- Which file models which part, and how:
--   Prelude: shared types and lemmas. `Result` is Rust's `Result` with `panic` as a third case (an index
--     out of bounds, a failed `expect`, a subtraction below 0); `Method S E A` is a method on
--     `&mut self`, which keeps what was written before an error. `Word` has the checked
--     arithmetic, `Bits` `&` and `|`, `Ring` the cells of a ring buffer.
--   Execution.Task: `src/execution/task.rs`, the type `TaskScheduler` with all its methods; `wake`
--     is what `complete_host` and `complete_channel` share, `dequeue` and `run_slot` are the two
--     halves of `activate_next`. Children: Calls (the methods), Invariant (what holds between calls), Steps, Activation,
--     Operations and Joins (each method keeps it), Runs (histories of calls), Behaviour.
--   Execution.Requests: `src/execution/requests.rs`, the type `PendingRequestTable` and the reduction of
--     last-write-wins requests. Children: Reduction (the reduction's definitions), Admission (the checks of
--     insertion), Table, Cancel, Writes, Sorting and Merge (the reduction's laws).
--   Execution.Channel: `src/execution/channel.rs`, the type `ChannelArena` with all its methods but the
--     sizes in memory. Children: Post (the abstract mailboxes), Line (linked queues of waiters),
--     Shows (when an arena shows mailboxes), Storage, Queues, Joining, Entering and Moves (what the
--     steps of the methods do to it), Creating, Sending and Receiving (the methods), Histories,
--     Delivery, Turns, Passage and Service (histories of calls).
--   Execution.Heap: the part of `src/execution/heap.rs`, `value.rs` and `layout.rs` that finds a live
--     block and moves bytes of its payload. Child: Frame (what the lookup reads).
--   Execution.ArrayCopy: `src/execution/array_copy.rs`, the type `PendingArrayCopy`. Children: Moves (of
--     bytes in a memory), Chunks, Progress (the chunks of a copy one after the other), Slices, Accepting, Copies.
--   Filesystem: `src/filesystem/`, with Limits (`limits.rs`, `error.rs`), Path (`path.rs`), Handle
--     (`handle.rs`), Quota (`quota.rs`), Capability (`capability.rs`) and Codec
--     (`persistence/codec.rs`).
--   Redstone: `src/redstone.rs`. Children: Sorting, Submit (packets), Waits (registrations), Runs.
--   Terminal.Input: `src/terminal/input.rs`. Children: Keys, Queue.
--   Terminal.Replication: `src/terminal/replication.rs`, with `record` as `record_change`; cells and
--     positions are in Terminal.Cells. Children: Gathering and Journal (what a viewer is sent),
--     Recording (what it makes of it).
--   Stdio: `src/stdio.rs`, over a terminal that is a parameter with the two operations that the
--     streams call. Children: Editing, Lines, Owners.
--   Ffi.HandleTable: `ffi/src/handle_table.rs`, with `with` as `with_value`. Children: Handles, Cells, Events,
--     Stale (histories of calls of any threads).
-- A function of the source has its name here; a definition that models a loop or the rest of a
-- function after an early return says so above it. The modules named Tests hold concrete runs.
--
-- Numbers: integers are natural numbers, a `usize` and a `u64` below 2^64, a `u32` below 2^32, with the
-- checks of the source written out. A `str` is its UTF-8 bytes, in the terminal its characters.
-- Fuel: the loop of `cancel_task` runs on the number of requests at hand, and each round either
-- removes a request or goes past one; the walk of `join` has the source's own bound, a round for each
-- slot; the loop of `advance` runs on the number of elements to copy, and each chunk has at least one. All other loops are recursion on the list that they go through.
--
-- Parameters: SHA-256 (`sha2`) is a function on bytes whose results have 32 of them. Whether the
-- allocator serves a request is an argument of `Execution.Task.new` and `Execution.Channel.new`. The
-- actions that `with_value` and `consume_if` are given are functions, which may panic. A viewer of the terminal is a
-- record with the laws on patches and resets that the joining of changes relies on.
--
-- Not modelled: the interpreter, the heap's allocator and collector, the decoder and the verifier of artifacts, the
-- computer that joins the parts, the state of the terminal's screen, the filesystem's
-- tree, store and worker, the checkpoints, the interfaces to the host, and the capacity of vectors,
-- which no caller observes.
mod Prelude
pub mod Execution
pub mod Filesystem
pub mod Redstone
pub mod Terminal
pub mod Stdio
pub mod Ffi
