-- ===== src/Ops/Memory.antt =====
-- Operations, the driver and the kernel in one system: which memory the entries in flight point to,
-- and who keeps it.
pub mod Safety
pub mod Fresh
pub mod Cases
pub mod Owners
pub mod Transfer
pub mod Refines
pub mod Modes
pub mod Kept
pub mod Left
use zincio.Prelude.{
  ℕ, ◌/◌, ◌%◌, ◌<◌, ◌≡◌, ◌≢◌, ◌⊎◌, ◌^◌, false, Option, none, some, List, [], ◌∷◌, ◌++◌, ◌==◌,
  if◌then◌else◌, In,
}
use zincio.Io.Stream.{IoError, IoResult, ok, err}
use zincio.Drivers.Slab.{Slab}
use zincio.Drivers.Uring.{
  Ring, Entry, Submitted, Completion, CompletionResult, UringDriver, HandleRegistration,
  interrupt_key,
}
use zincio.Drivers.Uring.Queue.{CompletionEntry, Drained, drain_entry}
use zincio.Ops.{poll_token, drop_op}

-- An operation that was made and not dropped: its token and the memory that its entry points to.
pub record LiveOp : Type 0 where
  pub completion_token : Option ℕ
  pub memory : List ℕ

-- The entry that `build_completion_entry` makes, unless it refuses.
unfoldable pub build_entry : LiveOp → Option IoError → ℕ → IoResult Entry
build_entry op none key = ok (record { user_data = key; memory = op.memory })
build_entry op (some e) key = err e

pub record System (R C : Type 0) : Type 0 where
  pub driver : UringDriver R C
  pub ops : ℕ → Option LiveOp

abbrev pub set_op : (ℕ → Option LiveOp) → ℕ → Option LiveOp → ℕ → Option LiveOp
set_op ops i o j = if j == i then o else ops j

abbrev pub set_outstanding : {R C : Type 0} → UringDriver R C → List Entry → UringDriver R C
set_outstanding u es = record u { ring = record u.ring { outstanding = es } }

module _ {R C : Type 0} ⦃registrations : Slab HandleRegistration R⦄
    ⦃completions : Slab Completion C⦄ where
  -- One step of an operation `i`, of the kernel, or of the handles. `hands` is what an operation
  -- with that memory hands over when it is dropped.
  pub data Step (hands : List ℕ → List ℕ) (s u : System R C) : Type 0 where
    makes :
        (i : ℕ) (memory : List ℕ)
        → s.ops i ≡ none
        → u ≡ record s {
          ops = set_op s.ops i (some (record { completion_token = none; memory = memory }));
        }
        → Step hands s u
    polls :
        (i : ℕ) (op : LiveOp) (refused : Option IoError) (answer : Submitted) (waker : ℕ)
        → s.ops i ≡ some op
        → completions.next_key s.driver.completions < 2 ^ 62
        → u ≡ (
            let (driver, token, out) =
              poll_token s.driver op.completion_token (build_entry op refused) answer waker in
            record {
              driver = driver;
              ops = set_op s.ops i (some (record op { completion_token = token }));
            })
        → Step hands s u
    drops :
        (i : ℕ) (op : LiveOp)
        → s.ops i ≡ some op
        → u ≡ record {
          driver = drop_op s.driver op.completion_token (hands op.memory);
          ops = set_op s.ops i none;
        }
        → Step hands s u
    completes :
        (front back : List Entry) (e : Entry) (result : CompletionResult)
        → s.driver.ring.outstanding ≡ front ++ e ∷ back
        → u ≡ record s {
          driver =
              (drain_entry
                (record {
                  driver = set_outstanding s.driver (front ++ back);
                  wakers = [];
                  interrupt = false;
                })
                (record { user_data = e.user_data; result = result })).driver;
        }
        → Step hands s u
    -- Any change of the registrations, with or without a poll that is pushed.
    registers :
        (rs : R) → u ≡ record s { driver = record s.driver { registrations = rs } } → Step hands s u
    pushes :
        (e : Entry)
        → e.user_data % 4 ≢ 1
        → ((e.user_data % 4 ≢ 3) ⊎ (e.user_data ≡ interrupt_key))
        → u ≡ record s { driver = set_outstanding s.driver (s.driver.ring.outstanding ++ e ∷ []) }
        → Step hands s u

  -- From a driver with no completions and nothing outstanding, without operations.
  pub data Reach (hands : List ℕ → List ℕ) : System R C → Type 0 where
    starts :
        (s : System R C)
        → ((t : ℕ) → completions.get s.driver.completions t ≡ none)
        → s.driver.ring.outstanding ≡ []
        → ((i : ℕ) → s.ops i ≡ none)
        → Reach hands s
    next : {s u : System R C} → Reach hands s → Step hands s u → Reach hands u

  -- A region that a live operation keeps, or that a dropped one has left with the driver.
  abbrev pub Held : System R C → ℕ → Type 0
  Held s region =
      ((i : ℕ) × (op : LiveOp) × (s.ops i ≡ some op) × In region op.memory)
      ⊎ ((t : ℕ) × (c : Completion) × (memory : List ℕ) × (completions.get s.driver.completions t
            ≡ some c)
          × (c.ignored_data ≡ some memory)
          × In region memory)
