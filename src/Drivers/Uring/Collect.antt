-- ===== src/Drivers/Uring/Collect.antt =====
-- `collect_completions` of `UringDriver` and what the runtime calls of it: `flush`, `should_flush`
-- and `wait`.
pub mod Noted
use zincio.Prelude.{
  ℕ, Bool, true, false, not, ◌&&◌, ◌||◌, Option, none, some, List, [], ◌∷◌, ◌==◌, if◌then◌else◌,
}
use zincio.Io.Stream.{IoError, other, IoResult, ok, err}
use zincio.Drivers.Slab.{Slab}
use zincio.Drivers.Uring.{
  Ring, Entry, Submitted, submit, is_full, push, push_entry, interrupt_key, timeout_key, Completion,
  HandleRegistration, UringDriver,
}
use zincio.Drivers.Uring.Queue.{CompletionEntry, Drained, drain_cq}

-- What the kernel does in one run: at the call that makes room for the timeout, at the call that
-- submits (and may wait), and at the call that makes room for the interrupt; which entries it has
-- not completed, and the completion queue.
pub record Calls : Type 0 where
  pub room : Submitted
  pub main : Submitted
  pub interrupt_room : Submitted
  pub outstanding : List Entry
  pub completed : List CompletionEntry

-- The driver's own entries; the memory that they point to is the driver's.
abbrev pub timeout_entry : Entry
timeout_entry = record { user_data = timeout_key; memory = [] }

abbrev pub interrupt_entry : Entry
interrupt_entry = record { user_data = interrupt_key; memory = [] }

-- Room for the timeout is made where the queue is full.
unfoldable pub make_room : Ring → Submitted → Ring × IoResult (Unit {0})
make_room r s = if is_full r then submit r s else (r, ok tt)

-- A wait with a timeout, on a kernel that takes the timeout as an entry (before 5.11).
unfoldable pub submit_timeout : Ring → Calls → Ring × IoResult (Unit {0})
submit_timeout r calls =
    let (r1, made) = make_room r calls.room in
    elim made [
      | err e ↦ (r1, err e)
      | ok u ↦
          let (r2, pushed) = push r1 timeout_entry in
          elim pushed [ err e ↦ (r2, err e) | ok v ↦ submit r2 calls.main ]
    ]

-- `timeout`: whether there is one.
unfoldable pub submit_ring : Ring → Bool → Bool → Bool → Calls → Ring × IoResult (Unit {0})
submit_ring r ext_arg wait_for_one timeout calls =
    if wait_for_one && timeout && not ext_arg then submit_timeout r calls else submit r calls.main

-- The submission, and the note that it leaves.
unfoldable pub submit_pending : Ring → Bool → Bool → Bool → Calls → Ring × IoResult (Unit {0})
submit_pending r ext_arg wait_for_one timeout calls =
    if wait_for_one || not (r.unsubmitted == 0)
    then (let (r', submitted) = submit_ring r ext_arg wait_for_one timeout calls in
        elim submitted [
          | err e ↦ (r', err e)
          | ok u ↦ (record r' { pending_submissions = not (r'.unsubmitted == 0) }, ok tt)
        ])
    else (record r { pending_submissions = false }, ok tt)

-- `none` is a panic.
unfoldable pub submit_interrupt : Ring → Submitted → Option Ring
submit_interrupt r s =
    let (r', pushed) = push_entry r s interrupt_entry in
    elim pushed [ ok u ↦ some r' | err e ↦ none ]

-- The driver after a run, the wakers that it called, and its result.
pub record Collected (R C : Type 0) : Type 0 where
  pub driver : UringDriver R C
  pub wakers : List ℕ
  pub result : IoResult (Unit {0})

-- `libc::EINTR`, whose kind is `Interrupted`.
abbrev pub is_interrupted : IoError → Bool
is_interrupted (other n) = n == 4
is_interrupted e = false

module _ {R C : Type 0} where
  -- The interrupt is submitted again when it was taken.
  unfoldable pub finish_drain : Drained R C → Submitted → Option (Collected R C)
  finish_drain d s =
      if d.interrupt
      then (elim (submit_interrupt d.driver.ring s) [
        | none ↦ none
        | some r ↦
            some
              (record { driver = record d.driver { ring = r }; wakers = d.wakers; result = ok tt })
      ])
      else some (record { driver = d.driver; wakers = d.wakers; result = ok tt })

  -- An interrupted run is no failure; `none` is a panic.
  unfoldable pub settle : Option (Collected R C) → Option (Collected R C)
  settle none = none
  settle (some c) = elim c.result [
    | ok u ↦ some c
    | err e ↦ if is_interrupted e then some c else none
  ]

  unfoldable pub should_flush : UringDriver R C → Bool
  should_flush u = u.ring.pending_submissions

module _ {R C : Type 0} ⦃registrations : Slab HandleRegistration R⦄
    ⦃completions : Slab Completion C⦄ where
  unfoldable pub collect_completions :
      UringDriver R C → Bool → Bool → Bool → Calls → Option (Collected R C)
  collect_completions u ext_arg wait_for_one timeout calls =
      let (r, submitted) = submit_pending u.ring ext_arg wait_for_one timeout calls in
      elim submitted [
        | err e ↦ some (record { driver = record u { ring = r }; wakers = []; result = err e })
        | ok v ↦
            finish_drain
              (drain_cq
                (record {
                  driver = record u { ring = record r { outstanding = calls.outstanding } };
                  wakers = [];
                  interrupt = false;
                })
                calls.completed)
              calls.interrupt_room
      ]

  unfoldable pub flush : UringDriver R C → Bool → Calls → Option (Collected R C)
  flush u ext_arg calls = settle (collect_completions u ext_arg false false calls)

  unfoldable pub wait : UringDriver R C → Bool → Bool → Calls → Option (Collected R C)
  wait u ext_arg timeout calls = settle (collect_completions u ext_arg true timeout calls)
