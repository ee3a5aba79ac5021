-- ===== src/Ops/Memory/Left.antt =====
-- An operation that is dropped when its completion has come, before the result is taken.
use zincio.Prelude.{
  ℕ, ◌/◌, ◌%◌, ◌≡◌, ◌≢◌, inl, inr, refl, sym, subst, ◌∙◌, false, Option, none, some, List, [], ◌∷◌,
  ◌++◌, Option-cases, In,
}
use zincio.Io.Stream.{IoError}
use zincio.Drivers.Slab.{Slab}
use zincio.Drivers.Uring.{
  Entry, Submitted, Completion, CompletionResult, HandleRegistration, drain_completion,
}
use zincio.Drivers.Uring.Queue.{Drained, drain_entry}
use zincio.Ops.{poll_token, drop_op}
use zincio.Ops.Memory.{
  LiveOp, build_entry, System, set_outstanding, Step, makes, polls, drops, completes, registers,
  pushes, Reach,
}
use zincio.Ops.Memory.Safety.{dec_token, fresh, removed_other, stored_other, same_at}
use zincio.Ops.Memory.Fresh.{vacant_other}
use zincio.Ops.Memory.Cases.{
  Unsubmitted-cases, submitted-cases, drop-cases, drained_completion, drained_other,
}
use zincio.Ops.Memory.Kept.{
  SafeSystem, Reach-SafeSystem, Step-SafeSystem, left_not_live, In-around_self,
}

finished_not_running :
    (c d : Completion) (r : CompletionResult) → c.completed ≡ some r → d.completed ≡ none → d ≢ c
finished_not_running c d r a b e = cc

module _ {C : Type 0} ⦃completions : Slab Completion C⦄ where
  -- A drained completion touches its own token only.
  drain-other :
      (cs : C) (u t : ℕ) (result : CompletionResult)
      → u ≢ t
      → completions.get (drain_completion cs u result).0 t ≡ completions.get cs t
  unfolding drain_completion
  drain-other cs u t result ne = elim (Option-cases (completions.get cs u)) [
    | inl nothing ↦ rw (nothing, drain_completion) refl
    | inr (d, found) ↦
        rw (found, drain_completion)
          (elim (Option-cases d.ignored_data) [
            | inl unignored ↦ rw unignored (stored_other cs u t d _ found ne)
            | inr (memory, left) ↦ rw left (removed_other cs u t ne)
          ])
  ]

module _ {R C : Type 0} ⦃registrations : Slab HandleRegistration R⦄
    ⦃completions : Slab Completion C⦄ where
  -- The completion of a token has come, and the operation is gone.
  pub record IsLeft (s : System R C) (t : ℕ) (c : Completion) : Type 0 where
    pub found : completions.get s.driver.completions t ≡ some c
    pub finished : (r : CompletionResult) × (c.completed ≡ some r)
    pub ignored : (memory : List ℕ) × (c.ignored_data ≡ some memory)

  -- No live operation has its token, and no entry in flight is for it.
  not_live :
      (s : System R C) (t u i : ℕ) (c : Completion) (op : LiveOp)
      → SafeSystem s
      → IsLeft s t c
      → s.ops i ≡ some op
      → op.completion_token ≡ some u
      → u ≢ t
  not_live s t u i c op safe left at has_token same =
      let (d, there, unignored) = safe.live i op u at has_token in
      let (memory, ignored) = left.ignored in
      left_not_live c d memory ignored unignored
        (same_at s.driver.completions t u c d left.found there (sym same))

  polled-left :
      (s : System R C) (t : ℕ) (c : Completion) (i : ℕ) (op : LiveOp) (refused : Option IoError)
      (answer : Submitted) (waker : ℕ) (o : Option ℕ)
      → SafeSystem s
      → IsLeft s t c
      → s.ops i ≡ some op
      → op.completion_token ≡ o
      → completions.get
          (poll_token s.driver o (build_entry op refused) answer waker).0.completions
          t
        ≡ some c
  unfolding poll_token
  polled-left s t c i op refused answer waker none safe left at is =
      elim (Unsubmitted-cases s.driver op refused answer waker) [
        | inl (a, b, e) ↦ rw a left.found
        | inr (a, b, e) ↦ rw a (vacant_other s.driver.completions t c (fresh waker) left.found).1
      ]
  polled-left s t c i op refused answer waker (some u) safe left at is =
      let ne = not_live s t u i c op safe left at is in
      let (d, there, unignored) = safe.live i op u at is in
      let (kept, rest) = submitted-cases s.driver u waker d there in
      elim rest [
        | inl (r, finished, a, b) ↦ rw a (removed_other s.driver.completions u t ne ∙ left.found)
        | inr (a, b) ↦ rw a (stored_other s.driver.completions u t d _ there ne ∙ left.found)
      ]

  dropped-left :
      (s : System R C) (t : ℕ) (c : Completion) (i : ℕ) (op : LiveOp) (o : Option ℕ)
      (memory : List ℕ)
      → SafeSystem s
      → IsLeft s t c
      → s.ops i ≡ some op
      → op.completion_token ≡ o
      → completions.get (drop_op s.driver o memory).completions t ≡ some c
  unfolding drop_op
  dropped-left s t c i op none memory safe left at is = left.found
  dropped-left s t c i op (some u) memory safe left at is =
      let ne = not_live s t u i c op safe left at is in
      let (d, there, unignored) = safe.live i op u at is in
      rw (drop-cases s.driver u memory d there)
        (stored_other s.driver.completions u t d _ there ne ∙ left.found)

  completed-left :
      (s : System R C) (t : ℕ) (c : Completion) (front back : List Entry) (e : Entry)
      (result : CompletionResult)
      → SafeSystem s
      → IsLeft s t c
      → s.driver.ring.outstanding ≡ front ++ e ∷ back
      → (let d : Drained R C = record {
        driver = set_outstanding s.driver (front ++ back);
        wakers = [];
        interrupt = false;
      } in
          completions.get
            (drain_entry d (record { user_data = e.user_data; result = result })).driver.completions
            t
          ≡ some c)
  completed-left s t c front back e result safe left out =
      let d : Drained R C = record {
        driver = set_outstanding s.driver (front ++ back);
        wakers = [];
        interrupt = false;
      } in
      let there = subst (λ es. In e es) (sym out) (In-around_self e front back) in
      elim (dec_token (e.user_data % 4) 1) [
        | inl kind ↦
            let (x, at, running, owner) = safe.owned e there kind in
            let (r, finished) = left.finished in
            rw (drained_completion d e.user_data result kind).0 (
              drain-other s.driver.completions (e.user_data / 4) t result (λ same.
                finished_not_running c x r finished running
                  (same_at s.driver.completions t (e.user_data / 4) c x left.found at (sym same)))
              ∙ left.found)
        | inr other_kind ↦
            rw (drained_other d e.user_data result other_kind (safe.known e there)).0 left.found
      ]

  Step-left :
      (hands : List ℕ → List ℕ) (s u : System R C) (t : ℕ) (c : Completion)
      → SafeSystem s
      → IsLeft s t c
      → Step hands s u
      → completions.get u.driver.completions t ≡ some c
  Step-left hands s u t c safe left (makes i memory vacant is) = rw is left.found
  Step-left hands s u t c safe left (polls i op refused answer waker at small is) =
      rw is (polled-left s t c i op refused answer waker op.completion_token safe left at refl)
  Step-left hands s u t c safe left (drops i op at is) =
      rw is (dropped-left s t c i op op.completion_token (hands op.memory) safe left at refl)
  Step-left hands s u t c safe left (completes front back e result out is) =
      rw is (completed-left s t c front back e result safe left out)
  Step-left hands s u t c safe left (registers rs is) = rw is left.found
  Step-left hands s u t c safe left (pushes e other_kind has_kind is) = rw is left.found

  -- Any number of steps.
  pub data Steps (hands : List ℕ → List ℕ) (s : System R C) : System R C → Type 0 where
    stays : Steps hands s s
    moves : {u v : System R C} → Steps hands s u → Step hands u v → Steps hands s v

  Steps-IsLeft :
      (hands : List ℕ → List ℕ) (s u : System R C) (t : ℕ) (c : Completion)
      → ((m : List ℕ) → hands m ≡ m)
      → SafeSystem s
      → IsLeft s t c
      → Steps hands s u
      → SafeSystem u × IsLeft u t c
  Steps-IsLeft hands s _ t c all safe left stays = (safe, left)
  Steps-IsLeft hands s v t c all safe left (moves {u = u} steps step) =
      let (safe', left') = Steps-IsLeft hands s u t c all safe left steps in
      (
        Step-SafeSystem hands u v all safe' step,
        record {
          found = Step-left hands u v t c safe' left' step;
          finished = left'.finished;
          ignored = left'.ignored;
        },
      )

  -- When operations hand over their memory and tokens are below 2 ^ 62, a completion whose result has
  -- come and whose operation was dropped, in a state that the system reaches, is in the driver after any steps that follow, with its result and with the memory
  -- that was left: nothing takes it out again.
  pub left_forever :
      (hands : List ℕ → List ℕ) (s u : System R C) (t : ℕ) (c : Completion)
      → ((m : List ℕ) → hands m ≡ m)
      → Reach hands s
      → IsLeft s t c
      → Steps hands s u
      → completions.get u.driver.completions t ≡ some c
  left_forever hands s u t c all reach left steps =
      (Steps-IsLeft hands s u t c all (Reach-SafeSystem hands s all reach) left steps).1.found
