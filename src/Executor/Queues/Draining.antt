-- ===== src/Executor/Queues/Draining.antt =====
-- `drain_ready` takes a prefix of the three queues, read one after the other.
use zincio.Prelude.{
  ℕ, zero, suc, ◌+◌, ◌-◌, ◌≤◌, ◌≡◌, refl, sym, ap, ◌∙◌, Bool, false, List, [], ◌∷◌, ◌++◌, length,
  take, drop, arith, ◌==◌, if◌then◌else◌, count, count-append,
}
use mathlib.Core.List.{append_assoc, append-nil}
use zincio.Executor.Queues.{RuntimeInner, Drained, set_flag, drain_loop, drain_ready}

module _ {ℓ} {A : Type ℓ} where
  take-append : (n : ℕ) (xs ys : List A) → take n (xs ++ ys) ≡ take n xs ++ take (n - length xs) ys
  take-append zero xs ys = let z : 0 - length xs ≡ 0 = omega arith in rw z
  take-append (suc n) [] ys = let z : suc n - 0 ≡ suc n = omega arith in rw z
  take-append (suc n) (x ∷ xs) ys = ground (arith, take-append n xs ys)

  drop-append : (n : ℕ) (xs ys : List A) → drop n (xs ++ ys) ≡ drop n xs ++ drop (n - length xs) ys
  drop-append zero xs ys = let z : 0 - length xs ≡ 0 = omega arith in rw z
  drop-append (suc n) [] ys = let z : suc n - 0 ≡ suc n = omega arith in rw z
  drop-append (suc n) (x ∷ xs) ys = ground (arith, drop-append n xs ys)

  length-drop-le : (n : ℕ) (xs : List A) → length (drop n xs) ≤ length xs
  length-drop-le zero xs = omega arith
  length-drop-le (suc n) [] = omega arith
  length-drop-le (suc n) (x ∷ xs) = omega (arith, length-drop-le n xs)

pub count-take-drop :
    (t n : ℕ) (xs : List ℕ) → count t (take n xs) + count t (drop n xs) ≡ count t xs
count-take-drop t zero xs = omega arith
count-take-drop t (suc n) [] = omega arith
count-take-drop t (suc n) (x ∷ xs) = omega (arith, count-take-drop t n xs)

-- A task keeps its flag unless it is taken.
abbrev pub cleared : (ℕ → Bool) → List ℕ → ℕ → Bool
cleared queued taken t = if count t taken == 0 then queued t else false

pub drain_loop_lem :
    (b : ℕ) (q batch : List ℕ) (queued : ℕ → Bool)
    → ((drain_loop b q batch queued).left ≡ drop b q)
      × ((drain_loop b q batch queued).budget ≡ b - length q)
      × ((drain_loop b q batch queued).batch ≡ batch ++ take b q)
      × ((t : ℕ) → (drain_loop b q batch queued).queued t ≡ cleared queued (take b q) t)
unfolding drain_loop
drain_loop_lem zero q batch queued = (refl, omega arith, sym (append-nil batch), λ t. refl)
drain_loop_lem (suc b) [] batch queued = (refl, omega arith, sym (append-nil batch), λ t. refl)
drain_loop_lem (suc b) (x ∷ q) batch queued =
    let (left, budget, taken, flags) =
      drain_loop_lem b q (batch ++ x ∷ []) (set_flag queued x false) in
    (
      left,
      omega (arith, budget),
      taken ∙ append_assoc batch (x ∷ []) (take b q),
      λ t. ground (arith, flags t),
    )

-- The queues in the order in which they are drained.
abbrev pub ready : RuntimeInner → List ℕ
ready r = r.next_task ++ (r.remote_queue ++ r.queue)

module _ (r : RuntimeInner) (batch : List ℕ) (budget : ℕ) where
  abbrev next : Drained
  next = drain_loop budget r.next_task batch r.queued

  abbrev remote : Drained
  remote = drain_loop next.budget r.remote_queue next.batch next.queued

  abbrev main : Drained
  main = drain_loop remote.budget r.queue remote.batch remote.queued

  abbrev after_next : ℕ
  after_next = budget - length r.next_task

  abbrev after_remote : ℕ
  after_remote = after_next - length r.remote_queue

  next_lem :
      (next.left ≡ drop budget r.next_task)
      × (next.budget ≡ after_next)
      × (next.batch ≡ batch ++ take budget r.next_task)
      × ((t : ℕ) → next.queued t ≡ cleared r.queued (take budget r.next_task) t)
  next_lem = drain_loop_lem budget r.next_task batch r.queued

  remote_lem :
      (remote.left ≡ drop after_next r.remote_queue)
      × (remote.budget ≡ after_remote)
      × (remote.batch ≡ next.batch ++ take after_next r.remote_queue)
      × ((t : ℕ) → remote.queued t ≡ cleared next.queued (take after_next r.remote_queue) t)
  remote_lem = rw (← next_lem.1) (drain_loop_lem next.budget r.remote_queue next.batch next.queued)

  main_lem :
      (main.left ≡ drop after_remote r.queue)
      × (main.budget ≡ after_remote - length r.queue)
      × (main.batch ≡ remote.batch ++ take after_remote r.queue)
      × ((t : ℕ) → main.queued t ≡ cleared remote.queued (take after_remote r.queue) t)
  main_lem = rw (← remote_lem.1) (drain_loop_lem remote.budget r.queue remote.batch remote.queued)

  taken_parts :
      take budget (ready r)
      ≡ take budget r.next_task ++ (take after_next r.remote_queue ++ take after_remote r.queue)
  taken_parts =
      take-append budget r.next_task (r.remote_queue ++ r.queue)
      ∙ ap (◌++◌ (take budget r.next_task)) (take-append after_next r.remote_queue r.queue)

  left_parts :
      drop budget (ready r)
      ≡ drop budget r.next_task ++ (drop after_next r.remote_queue ++ drop after_remote r.queue)
  left_parts =
      drop-append budget r.next_task (r.remote_queue ++ r.queue)
      ∙ ap (◌++◌ (drop budget r.next_task)) (drop-append after_next r.remote_queue r.queue)

  main_flags : (t : ℕ) → main.queued t ≡ cleared r.queued (take budget (ready r)) t
  main_flags t = rw taken_parts (
      ground (
        arith,
        next_lem.3 t,
        remote_lem.3 t,
        main_lem.3 t,
        count-append t (take budget r.next_task)
            (take after_next r.remote_queue ++ take after_remote r.queue),
        count-append t (take after_next r.remote_queue) (take after_remote r.queue),
      ))

  -- With any budget and any batch so far, `drain_ready` appends to the batch the first `budget`
  -- tasks of the fast queue, the remote queue and the main queue in this order, leaves the rest in
  -- order, and clears the flags of exactly the tasks that it takes.
  pub drain_ready_takes :
      let (r', batch') = drain_ready r batch budget in
      (batch' ≡ batch ++ take budget (ready r))
      × (ready r' ≡ drop budget (ready r))
      × ((t : ℕ) → r'.queued t ≡ cleared r.queued (take budget (ready r)) t)
  unfolding drain_ready
  drain_ready_takes = (
    rw (main_lem.2, remote_lem.2, next_lem.2, taken_parts) (simp append_assoc),
    rw (main_lem.0, remote_lem.0, next_lem.0, left_parts),
    main_flags,
  )

  pub drain_next-le : length (drain_ready r batch budget).0.next_task ≤ length r.next_task
  unfolding drain_ready
  drain_next-le = rw next_lem.0 (length-drop-le budget r.next_task)
