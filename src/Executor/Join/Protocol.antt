-- ===== src/Executor/Join/Protocol.antt =====
-- The handle of a spawned task gets the task's output once, is woken for it, and a cancelled task
-- is not polled again.
use zincio.Prelude.{
  ℕ, zero, suc, ◌+◌, ◌<◌, ◌≡◌, inl, inr, refl, sym, subst, Option-cases, ◌∙◌, true, false, none,
  some, List, [], ◌∷◌, ◌++◌, arith, ◌==◌, In, In-append_right, Bool-cases,
}
use zincio.Executor.Join.{
  Poll-cases, Poll, ready, pending, SpawnFuture, spawned, poll_task, poll_handle, cancel,
  update_waker_slot, to_wake,
}

-- What the executor and the holder of the handle do.
pub data JoinCall : Type 0 where
  polls_task : JoinCall
  polls_handle : (waker : ℕ) → JoinCall
  cancels : JoinCall

module _ {A : Type 0} (inner : ℕ → Poll A) where
  unfoldable pub join_step : SpawnFuture A → JoinCall → SpawnFuture A
  join_step f polls_task = poll_task inner f
  join_step f (polls_handle waker) = (poll_handle waker f).0
  join_step f cancels = cancel f

  unfoldable pub join_run : SpawnFuture A → List JoinCall → SpawnFuture A
  join_run f [] = f
  join_run f (c ∷ cs) = join_run (join_step f c) cs

  -- While the task runs it has no output and all polls of its future were pending; an output is
  -- what the last of the polls gave.
  pub record IsJoined (f : SpawnFuture A) : Type 0 where
    pub running :
        f.finished ≡ false → (f.state.output ≡ none) × ((k : ℕ) → k < f.polls → inner k ≡ pending)
    pub output :
        (a : A) → f.state.output ≡ some a → (n : ℕ) × (f.polls ≡ suc n) × (inner n ≡ ready a)

  spawned-IsJoined : IsJoined spawned
  unfolding spawned
  spawned-IsJoined = record {
    running = λ h. (refl, λ k lt. absurd (omega arith));
    output = λ a h. cc;
  }

  poll_task_finished : (f : SpawnFuture A) → f.finished ≡ true → poll_task inner f ≡ f
  unfolding poll_task
  poll_task_finished f h = ground arith

  poll_task_canceled :
      (f : SpawnFuture A)
      → f.finished ≡ false
      → f.state.canceled ≡ true
      → poll_task inner f ≡ record f { finished = true }
  unfolding poll_task
  poll_task_canceled f h c = ground arith

  poll_task_pending :
      (f : SpawnFuture A)
      → f.finished ≡ false
      → f.state.canceled ≡ false
      → inner f.polls ≡ pending
      → poll_task inner f ≡ record f { polls = f.polls + 1 }
  unfolding poll_task
  poll_task_pending f h c e = ground arith

  task_finishes :
      (f : SpawnFuture A) (a : A)
      → f.finished ≡ false
      → f.state.canceled ≡ false
      → inner f.polls ≡ ready a
      → poll_task inner f ≡ record f {
        state = record f.state { output = some a; waker = none };
        polls = f.polls + 1;
        woken = f.woken ++ to_wake f.state.waker;
        finished = true;
      }
  unfolding poll_task
  task_finishes f a h c e = ground arith

  poll_task-IsJoined : (f : SpawnFuture A) → IsJoined f → IsJoined (poll_task inner f)
  poll_task-IsJoined f j = elim (Bool-cases f.finished) [
    | inl h ↦ rw (poll_task_finished f h) j
    | inr h ↦ elim (Bool-cases f.state.canceled) [
      | inl c ↦ rw (poll_task_canceled f h c) (record { running = λ n. cc; output = j.output })
      | inr c ↦ elim (Poll-cases (inner f.polls)) [
        | inl (a, e) ↦
            rw (task_finishes f a h c e)
              (record { running = λ n. cc; output = λ b k. (f.polls, omega arith, ground arith) })
        | inr e ↦ rw (poll_task_pending f h c e) (record {
          running = λ _. (
            (j.running h).0,
            λ k lt. elim (Bool-cases (k == f.polls)) [
              | inl last ↦ ground arith
              | inr before ↦ (j.running h).1 k (ground arith)
            ],
          );
          output = λ b k. ground (arith, (j.running h).0);
        })
      ]
    ]
  ]

  empty_handle :
      (waker : ℕ) (f : SpawnFuture A)
      → f.state.output ≡ none
      → (poll_handle waker f).0
        ≡ record f { state = record f.state { waker = update_waker_slot f.state.waker waker } }
  unfolding poll_handle
  empty_handle waker f e = ground arith

  full_handle :
      (waker : ℕ) (f : SpawnFuture A) (a : A)
      → f.state.output ≡ some a
      → (poll_handle waker f).0 ≡ record f { state = record f.state { output = none } }
  unfolding poll_handle
  full_handle waker f a e = ground arith

  poll_handle-IsJoined :
      (waker : ℕ) (f : SpawnFuture A) → IsJoined f → IsJoined (poll_handle waker f).0
  poll_handle-IsJoined waker f j = elim (Option-cases f.state.output) [
    | inl e ↦ rw (empty_handle waker f e) (record { running = j.running; output = j.output })
    | inr (a, e) ↦
        rw (full_handle waker f a e)
          (record { running = λ h. (refl, (j.running h).1); output = λ b k. cc })
  ]

  join_run-IsJoined :
      (f : SpawnFuture A) (cs : List JoinCall) → IsJoined f → IsJoined (join_run f cs)
  unfolding join_run join_step cancel
  join_run-IsJoined f [] j = j
  join_run-IsJoined f (polls_task ∷ cs) j =
      join_run-IsJoined (poll_task inner f) cs (poll_task-IsJoined f j)
  join_run-IsJoined f (polls_handle waker ∷ cs) j =
      join_run-IsJoined (poll_handle waker f).0 cs (poll_handle-IsJoined waker f j)
  join_run-IsJoined f (cancels ∷ cs) j =
      join_run-IsJoined (cancel f) cs (record { running = j.running; output = j.output })

  handle_takes :
      (waker : ℕ) (f : SpawnFuture A) (a : A)
      → (poll_handle waker f).1 ≡ ready a
      → (f.state.output ≡ some a) × ((poll_handle waker f).0.state.output ≡ none)
  unfolding poll_handle
  handle_takes waker f a h = ground arith

  -- After any polls of a new task and of its handle, and cancellations, an output that the handle
  -- gives is what the last poll of the task's future answered, and the handle has none left.
  pub handle_output :
      (cs : List JoinCall) (waker : ℕ) (a : A)
      → (poll_handle waker (join_run spawned cs)).1 ≡ ready a
      → ((n : ℕ) × ((join_run spawned cs).polls ≡ suc n) × (inner n ≡ ready a))
        × ((poll_handle waker (join_run spawned cs)).0.state.output ≡ none)
  handle_output cs waker a h = (
    (join_run-IsJoined spawned cs spawned-IsJoined).output a (handle_takes waker _ a h).0,
    (handle_takes waker _ a h).1,
  )

  -- The task is polled `n` times.
  unfoldable pub poll_times : ℕ → SpawnFuture A → SpawnFuture A
  poll_times zero f = f
  poll_times (suc n) f = poll_times n (poll_task inner f)

  waits_for :
      (n : ℕ) (f : SpawnFuture A) (waker : ℕ) (a : A)
      → f.finished ≡ false
      → f.state.canceled ≡ false
      → f.state.waker ≡ some waker
      → ((k : ℕ) → k < n → inner (f.polls + k) ≡ pending)
      → inner (f.polls + n) ≡ ready a
      → In waker (poll_times (suc n) f).woken × ((poll_times (suc n) f).state.output ≡ some a)
  unfolding poll_times
  waits_for zero f waker a h c w p e =
      rw (task_finishes f a h c e0)
        (In-append_right waker f.woken (to_wake f.state.waker) (rw w (inl refl)), refl)
    where
      e0 : inner f.polls ≡ ready a
      e0 = let z : f.polls + 0 ≡ f.polls = omega arith in rw z at e
  waits_for (suc n) f waker a h c w p e =
      subst
        (λ g.
          In waker (poll_times (suc n) g).woken × ((poll_times (suc n) g).state.output ≡ some a))
        (sym (poll_task_pending f h c p0))
        (waits_for n (record f { polls = f.polls + 1 }) waker a h c w
          (λ k lt.
            let z : f.polls + suc k ≡ f.polls + 1 + k = omega arith in
            rw z at (p (suc k) (omega arith)))
          (let z : f.polls + suc n ≡ f.polls + 1 + n = omega arith in rw z at e))
    where
      p0 : inner f.polls ≡ pending
      p0 = let z : f.polls + 0 ≡ f.polls = omega arith in rw z at (p 0 (omega arith))

  handle_waits :
      (waker : ℕ) (f : SpawnFuture A)
      → (poll_handle waker f).1 ≡ pending
      → (poll_handle waker f).0
        ≡ record f { state = record f.state { output = none; waker = some waker } }
  unfolding poll_handle
  handle_waits waker f h = ground arith

  output_ready :
      (waker : ℕ) (f : SpawnFuture A) (a : A)
      → f.state.output ≡ some a
      → (poll_handle waker f).1 ≡ ready a
  unfolding poll_handle
  output_ready waker f a h = ground arith

  -- If the handle of a running task, not cancelled, was told to wait, and the task's future is
  -- pending at the next `n` polls and ready at the one after, then those polls wake the waker that
  -- the handle was last polled with, and the handle then gives the output.
  pub handle_is_woken :
      (f : SpawnFuture A) (n waker later : ℕ) (a : A)
      → f.finished ≡ false
      → f.state.canceled ≡ false
      → (poll_handle waker f).1 ≡ pending
      → ((k : ℕ) → k < n → inner (f.polls + k) ≡ pending)
      → inner (f.polls + n) ≡ ready a
      → let g = poll_times (suc n) (poll_handle waker f).0 in
        In waker g.woken × ((poll_handle later g).1 ≡ ready a)
  handle_is_woken f n waker later a h c w p e = rw (handle_waits waker f w) (
      let (woken, out) =
        waits_for n (record f { state = record f.state { output = none; waker = some waker } })
          waker a h c refl p e in
      (woken, output_ready later _ a out))

  stopped_step :
      (f : SpawnFuture A) (c : JoinCall)
      → f.state.canceled ≡ true
      → ((join_step f c).state.canceled ≡ true)
        × ((join_step f c).polls ≡ f.polls)
        × ((join_step f c).woken ≡ f.woken)
        × (f.state.output ≡ none → (join_step f c).state.output ≡ none)
  unfolding join_step poll_task poll_handle cancel
  stopped_step f polls_task h = ground arith
  stopped_step f (polls_handle waker) h = ground arith
  stopped_step f cancels h = ground arith

  stopped_run :
      (f : SpawnFuture A) (cs : List JoinCall)
      → f.state.canceled ≡ true
      → ((join_run f cs).polls ≡ f.polls)
        × ((join_run f cs).woken ≡ f.woken)
        × (f.state.output ≡ none → (join_run f cs).state.output ≡ none)
  unfolding join_run
  stopped_run f [] h = (refl, refl, λ e. e)
  stopped_run f (c ∷ cs) h =
      let (still, polls, woken, out) = stopped_step f c h in
      let (polls', woken', out') = stopped_run (join_step f c) cs still in
      (polls' ∙ polls, woken' ∙ woken, λ e. out' (out e))

  -- After a cancellation, whatever polls of the task and its handle follow, the task's future is not
  -- polled again, nobody is woken, and a handle that had no output gets none.
  pub cancel_stops :
      (f : SpawnFuture A) (cs : List JoinCall)
      → ((join_run (cancel f) cs).polls ≡ f.polls)
        × ((join_run (cancel f) cs).woken ≡ f.woken)
        × (f.state.output ≡ none → (join_run (cancel f) cs).state.output ≡ none)
  unfolding cancel
  cancel_stops f cs = stopped_run (record f { state = record f.state { canceled = true } }) cs refl
