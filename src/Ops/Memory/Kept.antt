-- ===== src/Ops/Memory/Kept.antt =====
-- The memory that the kernel may still use is kept in every state that the system reaches.
use zincio.Prelude.{
  ℕ, ◌/◌, ◌%◌, ◌<◌, ◌≡◌, ◌≢◌, ◌^◌, inl, inr, refl, sym, subst, ap, ◌∙◌, false, Option, none, some,
  List, [], ◌∷◌, ◌++◌, In, arith, Option-cases, In-append_right,
}
use zincio.Io.Stream.{IoError}
use zincio.Executor.Join.{update_waker_slot}
use zincio.Drivers.Slab.{Slab}
use zincio.Drivers.Uring.{
  Entry, Submitted, Completion, CompletionResult, HandleRegistration, drain_completion,
}
use zincio.Drivers.Uring.Queue.{Drained, drain_entry}
use zincio.Ops.{poll_token, drop_op}
use zincio.Ops.Memory.{
  LiveOp, build_entry, System, set_op, set_outstanding, Step, makes, polls, drops, completes,
  registers, pushes, Reach, starts, next, Held,
}
use zincio.Ops.Memory.Safety.{
  IsSafe, same_at, dec_token, store-IsSafe, remove-IsSafe, push-IsSafe, less-IsSafe, gone-IsIdle,
  set_op-cases, IsIdle,
}
use zincio.Ops.Memory.Fresh.{insert-IsSafe, ignore-IsSafe}
use zincio.Ops.Memory.Cases.{
  Unsubmitted-cases, submitted-cases, drop-cases, drop_outstanding, drained_completion,
  drained_other,
}
use zincio.Ops.Memory.Owners.{unset-IsSafe, makes-IsSafe, same-IsSafe, gone-IsSafe, set_or_not}

pub In-around_self : (e : Entry) (front back : List Entry) → In e (front ++ e ∷ back)
In-around_self e front back = In-append_right e front (e ∷ back) (inl refl)

finished_not_idle : (o : Option CompletionResult) (r : CompletionResult) → o ≡ some r → o ≢ none
finished_not_idle o r a b = cc

one_token :
    (op : LiveOp) (t u : ℕ) → op.completion_token ≡ some t → op.completion_token ≡ some u → t ≡ u
one_token op t u a b = cc

pub left_not_live :
    (c d : Completion) (memory : List ℕ)
    → c.ignored_data ≡ some memory
    → d.ignored_data ≡ none
    → d ≢ c
left_not_live c d memory a b e = cc

module _ {C : Type 0} ⦃completions : Slab Completion C⦄ where
  -- The entry of a completion is drained.
  drained-IsSafe :
      (cs : C) (front back : List Entry) (ops : ℕ → Option LiveOp) (e : Entry)
      (result : CompletionResult)
      → IsSafe cs (front ++ e ∷ back) ops
      → e.user_data % 4 ≡ 1
      → IsSafe (drain_completion cs (e.user_data / 4) result).0 (front ++ back) ops
  unfolding drain_completion
  drained-IsSafe cs front back ops e result safe kind =
      let (c, found, running, owner) = safe.owned e (In-around_self e front back) kind in
      let less = less-IsSafe cs front back ops e safe in
      let idle = gone-IsIdle cs front back ops e safe kind in
      elim (Option-cases c.ignored_data) [
        | inl unignored ↦
            rw (found, drain_completion)
              (rw unignored (
                store-IsSafe cs (front ++ back) ops (e.user_data / 4) c
                  (record c { completed = some result; waiter = none }) less found refl (inr idle)))
        | inr (memory, left) ↦
            rw (found, drain_completion)
              (rw left (
                remove-IsSafe cs (front ++ back) ops (e.user_data / 4) less
                  (λ j p h k.
                    let (d, at, unignored) = safe.live j p (e.user_data / 4) h k in
                    left_not_live c d memory left unignored
                      (same_at cs (e.user_data / 4) (e.user_data / 4) c d found at refl))
                  idle))
      ]

  -- The result of an operation is taken.
  taken-IsSafe :
      (cs : C) (es : List Entry) (ops : ℕ → Option LiveOp) (i : ℕ) (op : LiveOp) (t : ℕ)
      (c : Completion) (r : CompletionResult)
      → IsSafe cs es ops
      → ops i ≡ some op
      → op.completion_token ≡ some t
      → completions.get cs t ≡ some c
      → c.completed ≡ some r
      → IsSafe
          (completions.remove cs t)
          es
          (set_op ops i (some (record op { completion_token = none })))
  taken-IsSafe cs es ops i op t c r safe found has_token at finished =
      remove-IsSafe cs es (set_op ops i (some (record op { completion_token = none }))) t
        (unset-IsSafe cs es ops i op safe found
          (λ u is. subst (λ v. IsIdle es v) (one_token op t u has_token is) idle))
        (λ j p h k. elim (set_op-cases ops i j (some (record op { completion_token = none })) p h) [
          | inl (e, same) ↦ cc
          | inr (ne, old) ↦ ne (safe.distinct j i p op t old found k has_token)
        ])
        idle
    where
      idle : IsIdle es t
      idle e m k same =
          let (d, there, running, owner) = safe.owned e m k in
          finished_not_idle c.completed r finished
            (ap (λ x. x.completed) (same_at cs (e.user_data / 4) t d c there at same) ∙ running)

module _ {R C : Type 0} ⦃registrations : Slab HandleRegistration R⦄
    ⦃completions : Slab Completion C⦄ where
  -- What the invariant says of a system.
  abbrev pub SafeSystem : System R C → Type 0
  SafeSystem s = IsSafe s.driver.completions s.driver.ring.outstanding s.ops

  polled-IsSafe :
      (s : System R C) (i : ℕ) (op : LiveOp) (refused : Option IoError) (answer : Submitted)
      (waker : ℕ) (o : Option ℕ)
      → SafeSystem s
      → s.ops i ≡ some op
      → op.completion_token ≡ o
      → completions.next_key s.driver.completions < 2 ^ 62
      → (let (driver, token, out) = poll_token s.driver o (build_entry op refused) answer waker in
          IsSafe driver.completions driver.ring.outstanding
            (set_op s.ops i (some (record op { completion_token = token }))))
  unfolding poll_token
  polled-IsSafe s i op refused answer waker none safe found is small =
      elim (Unsubmitted-cases s.driver op refused answer waker) [
        | inl (a, b, c) ↦ rw a (
            rw b (
              rw c (
                unset-IsSafe s.driver.completions s.driver.ring.outstanding s.ops i op safe found
                  (λ t k. absurd (set_or_not op.completion_token t is k)))))
        | inr (a, b, c) ↦ rw a (
            rw b (
              rw c (
                insert-IsSafe s.driver.completions s.driver.ring.outstanding s.ops i op waker safe
                  found is small)))
      ]
  polled-IsSafe s i op refused answer waker (some t) safe found is small =
      let (c, at, unignored) = safe.live i op t found is in
      let (kept, rest) = submitted-cases s.driver t waker c at in
      elim rest [
        | inl (r, finished, a, b) ↦ rw kept (
            rw a (
              rw b (
                taken-IsSafe s.driver.completions s.driver.ring.outstanding s.ops i op t c r safe
                  found is at finished)))
        | inr (a, b) ↦ rw kept (
            rw a (
              rw b (
                store-IsSafe s.driver.completions s.driver.ring.outstanding
                  (set_op s.ops i (some (record op { completion_token = some t }))) t c
                  (record c { waiter = update_waker_slot c.waiter waker })
                  (same-IsSafe s.driver.completions s.driver.ring.outstanding s.ops i op t safe
                    found is)
                  at refl (inl refl))))
      ]

  dropped-IsSafe :
      (s : System R C) (i : ℕ) (op : LiveOp) (o : Option ℕ) (memory : List ℕ)
      → SafeSystem s
      → s.ops i ≡ some op
      → op.completion_token ≡ o
      → memory ≡ op.memory
      → (let driver = drop_op s.driver o memory in
          IsSafe driver.completions driver.ring.outstanding (set_op s.ops i none))
  unfolding drop_op
  dropped-IsSafe s i op none memory safe found is all =
      gone-IsSafe s.driver.completions s.driver.ring.outstanding s.ops i op safe found is
  dropped-IsSafe s i op (some t) memory safe found is all =
      let (c, at, unignored) = safe.live i op t found is in
      rw (drop-cases s.driver t memory c at) (
        rw (drop_outstanding s.driver t memory) (
          rw all (
            ignore-IsSafe s.driver.completions s.driver.ring.outstanding s.ops i op t c safe found
              is at)))

  completed-IsSafe :
      (s : System R C) (front back : List Entry) (e : Entry) (result : CompletionResult)
      → SafeSystem s
      → s.driver.ring.outstanding ≡ front ++ e ∷ back
      → (let driver =
            (drain_entry
              (record {
                driver = set_outstanding s.driver (front ++ back);
                wakers = [];
                interrupt = false;
              })
              (record { user_data = e.user_data; result = result })).driver in
          IsSafe driver.completions driver.ring.outstanding s.ops)
  completed-IsSafe s front back e result safe out =
      let around = subst (λ es. IsSafe s.driver.completions es s.ops) out safe in
      let d : Drained R C = record {
        driver = set_outstanding s.driver (front ++ back);
        wakers = [];
        interrupt = false;
      } in
      elim (dec_token (e.user_data % 4) 1) [
        | inl kind ↦
            let (a, b) = drained_completion d e.user_data result kind in
            rw a (rw b (drained-IsSafe s.driver.completions front back s.ops e result around kind))
        | inr other_kind ↦
            let (a, b) =
              drained_other d e.user_data result other_kind
                (around.known e (In-around_self e front back)) in
            rw a (rw b (less-IsSafe s.driver.completions front back s.ops e around))
      ]

  -- Each step keeps the invariant, if operations hand over the memory that they have.
  pub Step-SafeSystem :
      (hands : List ℕ → List ℕ) (s u : System R C)
      → ((m : List ℕ) → hands m ≡ m)
      → SafeSystem s
      → Step hands s u
      → SafeSystem u
  Step-SafeSystem hands s u all safe (makes i memory vacant is) =
      subst (λ v. SafeSystem v) (sym is)
        (makes-IsSafe s.driver.completions s.driver.ring.outstanding s.ops i memory safe vacant)
  Step-SafeSystem hands s u all safe (polls i op refused answer waker found small is) =
      subst (λ v. SafeSystem v) (sym is)
        (polled-IsSafe s i op refused answer waker op.completion_token safe found refl small)
  Step-SafeSystem hands s u all safe (drops i op found is) =
      subst (λ v. SafeSystem v) (sym is)
        (dropped-IsSafe s i op op.completion_token (hands op.memory) safe found refl
          (all op.memory))
  Step-SafeSystem hands s u all safe (completes front back e result out is) =
      subst (λ v. SafeSystem v) (sym is) (completed-IsSafe s front back e result safe out)
  Step-SafeSystem hands s u all safe (registers rs is) = subst (λ v. SafeSystem v) (sym is) safe
  Step-SafeSystem hands s u all safe (pushes e other_kind has_kind is) =
      subst (λ v. SafeSystem v) (sym is)
        (push-IsSafe s.driver.completions s.driver.ring.outstanding s.ops e safe other_kind
          has_kind)

  start-SafeSystem :
      (s : System R C) → s.driver.ring.outstanding ≡ [] → ((i : ℕ) → s.ops i ≡ none) → SafeSystem s
  start-SafeSystem s empty nothing = record {
    live = λ i op t h k. absurd (no_op i op h);
    distinct = λ i j o p t h k m n. absurd (no_op i o h);
    once = λ k kind. rw empty (omega arith);
    known = λ e m. absurd (nowhere e m);
    owned = λ e m k. absurd (nowhere e m);
  }
    where
      no_op : (i : ℕ) (op : LiveOp) → s.ops i ≢ some op
      no_op i op h = let vacant = nothing i in cc

      nowhere : (e : Entry) → ¬ (In e s.driver.ring.outstanding)
      nowhere e m = subst (λ es. In e es) empty m

  pub Reach-SafeSystem :
      (hands : List ℕ → List ℕ) (s : System R C)
      → ((m : List ℕ) → hands m ≡ m)
      → Reach hands s
      → SafeSystem s
  Reach-SafeSystem hands s all (starts _ vacant empty nothing) = start-SafeSystem s empty nothing
  Reach-SafeSystem hands s all (next {s = u} before step) =
      Step-SafeSystem hands u s all (Reach-SafeSystem hands u all before) step

  -- When operations hand over all of the memory that their entries point to, then in every state
  -- that the system reaches with tokens below 2 ^ 62, each region that an entry of a completion in
  -- flight points to is held by a live operation or by the driver.
  pub region-Held :
      (hands : List ℕ → List ℕ) (s : System R C) (e : Entry) (region : ℕ)
      → ((m : List ℕ) → hands m ≡ m)
      → Reach hands s
      → In e s.driver.ring.outstanding
      → e.user_data % 4 ≡ 1
      → In region e.memory
      → Held s region
  region-Held hands s e region all reach m kind points =
      let safe = Reach-SafeSystem hands s all reach in
      let (c, found, running, owner) = safe.owned e m kind in
      elim owner [
        | inl left ↦ inr (e.user_data / 4, c, e.memory, found, left, points)
        | inr (i, op, at, has_token, same) ↦
            inl (i, op, at, subst (λ memory. In region memory) (sym same) points)
      ]
