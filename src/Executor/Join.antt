-- ===== src/Executor/Join.antt =====
-- `JoinState`, `SpawnFuture` and `JoinHandle`. The spawned future is a parameter: what it answers at
-- each poll, as a stream of `Poll` values by the number of polls made so far.
pub mod Protocol
use zincio.Prelude.{
  ◌≡◌, ◌⊎◌, inl, inr, refl, ℕ, zero, suc, ◌+◌, Bool, true, false, Option, none, some, List, [], ◌∷◌,
  ◌++◌, ◌==◌, if◌then◌else◌,
}

pub data Poll (A : Type 0) : Type 0 where
  ready : A → Poll A
  pending : Poll A

pub Poll-cases : {A : Type 0} (p : Poll A) → ((a : A) × (p ≡ ready a)) ⊎ (p ≡ pending)
Poll-cases (ready a) = inl (a, refl)
Poll-cases pending = inr refl

-- `canceled` and the two slots; a waker is named by the task that it wakes.
pub record JoinState (A : Type 0) : Type 0 where
  pub output : Option A
  pub waker : Option ℕ
  pub canceled : Bool

-- `will_wake` compares what the wakers wake.
abbrev pub update_waker_slot : Option ℕ → ℕ → Option ℕ
update_waker_slot none waker = some waker
update_waker_slot (some old) waker = if old == waker then some old else some waker

abbrev pub to_wake : Option ℕ → List ℕ
to_wake none = []
to_wake (some waker) = waker ∷ []

-- The task's side: the state, how often the inner future was polled, and the wakers called.
pub record SpawnFuture (A : Type 0) : Type 0 where
  pub state : JoinState A
  pub polls : ℕ
  pub woken : List ℕ
  pub finished : Bool

module _ {A : Type 0} where
  unfoldable pub spawned : SpawnFuture A
  spawned = record {
    state = record { output = none; waker = none; canceled = false };
    polls = 0;
    woken = [];
    finished = false;
  }

  -- `SpawnFuture::poll`; the executor drops a future that has answered `Ready`.
  unfoldable pub poll_task : (ℕ → Poll A) → SpawnFuture A → SpawnFuture A
  poll_task inner f =
      if f.finished
      then f
      else if f.state.canceled
      then record f { finished = true }
      else elim (inner f.polls) [
        | ready a ↦ record f {
          state = record f.state { output = some a; waker = none };
          polls = f.polls + 1;
          woken = f.woken ++ to_wake f.state.waker;
          finished = true;
        }
        | pending ↦ record f { polls = f.polls + 1 }
      ]

  -- `JoinHandle::poll` with the waker of the task that awaits the handle.
  unfoldable pub poll_handle : ℕ → SpawnFuture A → SpawnFuture A × Poll A
  poll_handle waker f = elim f.state.output [
    | some a ↦ (record f { state = record f.state { output = none } }, ready a)
    | none ↦ (
      record f { state = record f.state { waker = update_waker_slot f.state.waker waker } },
      pending,
    )
  ]

  unfoldable pub cancel : SpawnFuture A → SpawnFuture A
  cancel f = record f { state = record f.state { canceled = true } }
