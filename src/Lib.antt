-- ===== src/Lib.antt =====
-- zincio: an asynchronous runtime whose tasks run on one thread.
--
-- The runtime polls tasks from its ready queues. When it has none, it waits in its I/O driver until
-- the first timer is due or another thread interrupts it. Wakers put tasks back into the queues;
-- timers are entries of a hierarchical timing wheel that keep a waker; sleeps, intervals and timeouts
-- are futures over those timers; the reading and writing futures move bytes through buffers that they
-- take and give back.
--
-- The files, and what they model (paths from the root of the repository):
--   Prelude: names passed on from the libraries, Boolean tests, lists measured by native numbers, and
--     64-bit addition that wraps around.
--   Timer (zincio/src/timer.rs). Timer/Slab: what the wheel uses of the `slab` crate, as an interface;
--     Timer/Tests/VecSlab is one that keeps it. Timer/Heap: the `BinaryHeap` as a list in order.
--     Timer/Levels: `calculate_level_and_slot`. Timer/Wheel: `TimingWheel` with `new`, `insert`,
--     `remove`, `nearest_wakeup` and `refresh_min_expiration`; Timer/Wheel/Advance: `advance` with
--     `cascade_all_levels`, `cascade_level` and `process_slot_at_level_0`. The other modules below it
--     are proofs: where timers stand (Placement, Sweeps, Insertion, Removal), what happens to them
--     (Outcome, Completeness, Lateness, Firing), the minimum (Nearest, Tracking), and runs of calls
--     (History). Timer/Clock: `Timer` with `submit`, `cancel` and `spin_and_get_deadline`; its proofs
--     are in Clock/Pace and Clock/Wakeups.
--   Executor (zincio/src/executor.rs and zincio/src/task.rs). Executor/Queues: `RuntimeInner` with
--     `spawn`, `enqueue`, `drain_ready`, `stop_waiting` and `should_skip_wait`, and
--     `Task::enqueue_if_needed`. Executor/Join: `JoinState`, `SpawnFuture` and `JoinHandle`.
--     Executor/Waiting: the end of a round of `Runtime::block_on` against the threads that wake it, as
--     a step relation with one step for each access of a shared flag.
--   Time (zincio/src/time). Time/Sleep: `Sleep`, over Timer/Clock, with its contract in
--     Sleep/Contract. Time/Interval: `Interval`, with its proofs in Interval/Cadence. Time/Timeout:
--     `Timeout` over a future that is a parameter.
--   Io (zincio/src/io/buf.rs, zincio/src/io/util.rs). Io/Buf: a vector with a cursor. Io/Stream: the
--     traits `AsyncRead` and `AsyncWrite`, as interfaces with the laws that `copy` relies on. Io/Copy:
--     `copy`, with its proofs in Copy/Transfer and Copy/Whole.
--   Handles (zincio/src/fd_inner.rs): `InnerRawHandle` over a driver that is an interface, with its
--     proofs in Handles/Binding and Handles/Creation. Handles/AnyDriver (zincio/src/driver/mod.rs):
--     the drivers over io_uring and mio as that interface, in AnyDriver/Uring and AnyDriver/Mio.
--   Fs (zincio/src/fs). Fs/OpenOptions (zincio/src/fs/open_options.rs): the bitfield of the options,
--     `validate` and `build_open_op`, with proofs in OpenOptions/Flags. Fs/File (zincio/src/fs/file.rs): `read_at`,
--     `write_at` and the loops over them, with proofs in File/Exact.
--   Drivers (zincio/src/driver). Drivers/Slab: what the driver uses of the `slab` crate, as an
--     interface. Drivers/Uring (zincio/src/driver/uring.rs): the keys of entries, the submission queue, and the completions of
--     `UringDriver`; Uring/Polls: its registrations; Uring/Queue: `drain_cq`; Uring/Collect:
--     `collect_completions`, `flush` and `wait`. Uring/Runs: the states that these calls reach, with
--     the proofs in Runs/Pushes, Runs/Drains and Runs/Waking, over Polls/Armed, Collect/Noted and
--     Uring/Pushing; Uring/Keys: the keys. Drivers/Mio (zincio/src/driver/mio.rs): `MioDriver` over a
--     selector, with its states in Mio/Watched, whose proofs stand on Mio/Served.
--   Ops (zincio/src/op) over that driver. Ops: the first half of each `poll_completion`, which is the
--     same in all operations, and `Drop`. Ops/Entries: the entries of io_uring and what they point to.
--     Ops/Buffers: op/io_util.rs. Ops/Paths and Ops/Transfers: one module for each operation, with its
--     `new`, `poll_completion`, `poll_poll`, `build_completion_entry`, `take_bufs` and `drop`.
--     Ops/Memory: operations, the driver and the kernel as one system, by the regions of memory that
--     entries point to; Memory/Transfer: the operations with one buffer as one type, with proofs in
--     Memory/Refines and Memory/Modes; the other modules below it are the proofs on the system.
-- Each part has its tests and its theorems at concrete inputs in a module Tests.
--
-- How the code is read. State that the source shares by `Rc`, `RefCell` or atomics is passed along, as
-- one value for each runtime. An instant and a duration are numbers of nanoseconds; what
-- `Instant::now()` returns is an argument. A waker is a number that says what it wakes, and a call
-- that wakes returns the wakers in the order of the calls. A future that is polled from outside (the
-- one spawned, the one under a timeout) is a parameter. An `expect` that can fail is `none`. Sums of
-- 64-bit ticks wrap around, as in a release build; instants do not overflow.
--
-- Fuel. The loops of the wheel run over fixed ranges or over lists, and need none. The loop of
-- `Interval::tick` counts its rounds itself, up to 2 ^ 64 - 1. The inner loop of `copy` takes the
-- length of its buffer as fuel, which is always enough; the outer one takes any fuel. The loop of
-- `write_exact_at` needs one more than the length of its buffer; that of `read_exact_at` takes any.
--
-- The steps of Executor/Waiting interleave in one order of all the threads: reorderings that weaker
-- memory allows are not modelled. What the kernel does with the ring is an argument of each call: how
-- many entries it takes, with which error, which entries it has not completed, and the completion
-- queue. An operation's buffer is there until it is dropped or taken. What the selector of mio
-- answers, and its events, are arguments too. Of the kinds of an error of the system, only that of
-- `EAGAIN` is told apart, which operations test for. The branches for Windows and the driver over IOCP
-- (zincio/src/driver/iocp.rs), the operations on addresses, files that are opened or handed to the
-- blocking pool, sockets, processes, signals and the blocking pool are not modelled, since they call
-- the operating system or other crates; nor are the reference counts of the raw wakers; the branches
-- of `Task::enqueue_if_needed` for a runtime that is gone; and a `Sleep` outside of a runtime.
pub mod Prelude
pub mod Timer
pub mod Executor
pub mod Time
pub mod Io
pub mod Fs
pub mod Handles
pub mod Drivers
pub mod Ops
