-- ===== src/Drivers/Uring.antt =====
-- `UringDriver` (driver/uring.rs): the keys of its entries, the ring as far as the driver sees it,
-- the slab of completions, and how the completion queue is drained.
pub mod Keys
pub mod Pushing
pub mod Collect
pub mod Runs
pub mod Polls
pub mod Queue
use zincio.Prelude.{
  ℕ, suc, ◌+◌, ◌-◌, ◌*◌, ◌/◌, ◌%◌, Bool, true, false, Option, none, some, List, [], ◌∷◌, ◌++◌, leb,
  ◌==◌, if◌then◌else◌, u64_mod,
}
use zincio.Io.Stream.{IoError, queue_full, other, IoResult, ok, err}
use zincio.Executor.Join.{update_waker_slot}
use zincio.Drivers.Slab.{Slab}

-- `POLL_READ_KEY_KIND`, `COMPLETION_KEY_KIND`, `POLL_WRITE_KEY_KIND`, and the keys of the interrupt
-- and of the timeout.
abbrev pub poll_read_key_kind : ℕ
poll_read_key_kind = 0

abbrev pub completion_key_kind : ℕ
completion_key_kind = 1

abbrev pub poll_write_key_kind : ℕ
poll_write_key_kind = 2

abbrev pub interrupt_key : ℕ
interrupt_key = u64_mod - 1

abbrev pub timeout_key : ℕ
timeout_key = u64_mod - 2

-- `(token << 2) | kind` in 64 bits.
unfoldable pub encode_completion_key : ℕ → ℕ
encode_completion_key token = (token * 4) % u64_mod + completion_key_kind

unfoldable pub encode_poll_key : ℕ → Bool → ℕ
encode_poll_key token write =
    (token * 4) % u64_mod + (if write then poll_write_key_kind else poll_read_key_kind)

unfoldable pub decode_token : ℕ → ℕ
decode_token key = key / 4

unfoldable pub decode_key_kind : ℕ → ℕ
decode_key_kind key = key % 4

-- An entry that was pushed and whose completion was not drained: its key, and the regions of memory
-- that it points to.
pub record Entry : Type 0 where
  pub user_data : ℕ
  pub memory : List ℕ

-- The ring: all outstanding entries, how many of them still stand in the submission queue, and the
-- length of that queue; and the driver's note that some do.
pub record Ring : Type 0 where
  pub outstanding : List Entry
  pub unsubmitted : ℕ
  pub entries : ℕ
  pub pending_submissions : Bool

-- What a call of `submit` does: how many entries the kernel takes, and the error if there is one.
pub data SubmitError : Type 0 where
  ebusy etime : SubmitError
  other_errno : ℕ → SubmitError

pub record Submitted : Type 0 where
  pub taken : ℕ
  pub error : Option SubmitError

abbrev pub submitter_call_result : Option SubmitError → IoResult (Unit {0})
submitter_call_result none = ok tt
submitter_call_result (some ebusy) = ok tt
submitter_call_result (some etime) = ok tt
submitter_call_result (some (other_errno n)) = err (other n)

unfoldable pub submit : Ring → Submitted → Ring × IoResult (Unit {0})
submit r s = (record r { unsubmitted = r.unsubmitted - s.taken }, submitter_call_result s.error)

unfoldable pub is_full : Ring → Bool
is_full r = leb r.entries r.unsubmitted

unfoldable pub push : Ring → Entry → Ring × IoResult (Unit {0})
push r e = if is_full r then (r, err queue_full) else (
  record r { outstanding = r.outstanding ++ e ∷ []; unsubmitted = r.unsubmitted + 1 },
  ok tt,
)

-- A push that sets `pending_submissions`.
unfoldable pub push_pending : Ring → Entry → Ring × IoResult (Unit {0})
push_pending r e =
    let (r', answer) = push r e in
    elim answer [
      | ok u ↦ (record r' { pending_submissions = true }, ok tt)
      | err error ↦ (r', err error)
    ]

unfoldable pub push_entry : Ring → Submitted → Entry → Ring × IoResult (Unit {0})
push_entry r s e =
    if is_full r
    then (let (r', answer) = submit r s in
        elim answer [ ok u ↦ push_pending r' e | err error ↦ (r', err error) ])
    else push_pending r e

-- A result of the kernel, an `i32`: a number, or a negative error.
pub data CompletionResult : Type 0 where
  done : ℕ → CompletionResult
  failed : ℕ → CompletionResult

-- `ignored_data` is the memory that a dropped operation leaves with the driver.
pub record Completion : Type 0 where
  pub waiter : Option ℕ
  pub completed : Option CompletionResult
  pub ignored_data : Option (List ℕ)

pub record PollRegistration : Type 0 where
  pub fd : ℕ
  pub waiter_read : Option ℕ
  pub poll_read_armed : Bool
  pub waiter_write : Option ℕ
  pub poll_write_armed : Bool

pub data HandleRegistration : Type 0 where
  completion : HandleRegistration
  poll : PollRegistration → HandleRegistration

pub record UringDriver (R C : Type 0) : Type 0 where
  pub ring : Ring
  pub registrations : R
  pub completions : C

-- What `submit_completion` answers; another driver may have a result at once.
pub data CompletionIoResult : Type 0 where
  immediate : CompletionResult → CompletionIoResult
  retry : ℕ → CompletionIoResult
  submit_err : IoError → CompletionIoResult

module _ {R C : Type 0} ⦃completions : Slab Completion C⦄ where
  -- `build` is the operation's `build_completion_entry`.
  unfoldable pub submit_completion :
      UringDriver R C → (ℕ → IoResult Entry) → Submitted → ℕ → UringDriver R C × CompletionIoResult
  submit_completion u build s waker =
      let token = completions.next_key u.completions in
      elim (build (encode_completion_key token)) [
        | err error ↦ (u, submit_err error)
        | ok entry ↦
            let (ring, pushed) = push_entry u.ring s entry in
            elim pushed [
              | err error ↦ (record u { ring = ring }, submit_err error)
              | ok v ↦ (
                record u {
                  ring = ring;
                  completions =
                      completions.insert u.completions
                        (record { waiter = some waker; completed = none; ignored_data = none });
                },
                retry token,
              )
            ]
      ]

  unfoldable pub get_completion_result :
      UringDriver R C → ℕ → UringDriver R C × Option CompletionResult
  get_completion_result u token = elim (completions.get u.completions token) [
    | none ↦ (u, none)
    | some c ↦ elim c.completed [
      | none ↦ (u, none)
      | some result ↦
          (record u { completions = completions.remove u.completions token }, some result)
    ]
  ]

  unfoldable pub set_completion_waker : UringDriver R C → ℕ → ℕ → UringDriver R C
  set_completion_waker u token waker = elim (completions.get u.completions token) [
    | none ↦ u
    | some c ↦ record u {
      completions =
          completions.store u.completions token
            (record c { waiter = update_waker_slot c.waiter waker });
    }
  ]

  unfoldable pub ignore_completion : UringDriver R C → ℕ → List ℕ → UringDriver R C
  ignore_completion u token memory = elim (completions.get u.completions token) [
    | none ↦ u
    | some c ↦ record u {
      completions = completions.store u.completions token (record c { ignored_data = some memory });
    }
  ]

module _ {C : Type 0} ⦃completions : Slab Completion C⦄ where
  -- The part of `drain_cq` for the key of a completion: the completions, and the waker to call.
  unfoldable pub drain_completion : C → ℕ → CompletionResult → C × Option ℕ
  drain_completion cs token result = elim (completions.get cs token) [
    | none ↦ (cs, none)
    | some c ↦ elim c.ignored_data [
      | some memory ↦ (completions.remove cs token, c.waiter)
      | none ↦ (
        completions.store cs token (record c { completed = some result; waiter = none }),
        c.waiter,
      )
    ]
  ]
