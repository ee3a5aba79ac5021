-- ===== src/Executor/Waiting/Safety.antt =====
-- No wake is lost: work that is announced while the scheduler sleeps comes with an interrupt.
use zincio.Prelude.{
  ℕ, ◌<◌, ◌≡◌, refl, inl, inr, ◌⊎◌, Bool, true, false, arith, ◌==◌, if◌then◌else◌, Bool-cases,
  ==→eq, ==_refl,
}
use zincio.Executor.Waiting.{
  Shared, Scheduler, running, cleared, armed, checked, blocked, stopping, half_stopped, Waker, idle,
  flagged, announced, saw_waiting, first, Wake, flag, already_queued, announce, load_waiting,
  swap_pending, interrupt, Sched, take_work, clear_pending, set_waiting, check, timer_woke, wait,
  wait_returns, unset_waiting, unset_pending, System, update, schedules, wakes, start, Reach, here,
  next,
}

-- The thread will call the driver.
abbrev is_first : Waker → Bool
is_first first = true
is_first p = false

-- The thread has announced work and is not through with the wake.
abbrev pub is_active : Waker → Bool
is_active idle = false
is_active flagged = false
is_active p = true

-- From the store to `interrupt_pending` to the return of `wait`.
abbrev is_arming : Scheduler → Bool
is_arming cleared = true
is_arming armed = true
is_arming checked = true
is_arming blocked = true
is_arming p = false

-- From the last look at the queues to the return of `wait`.
abbrev is_asleep : Scheduler → Bool
is_asleep checked = true
is_asleep blocked = true
is_asleep p = false

abbrev is_waiting : Scheduler → Bool
is_waiting armed = true
is_waiting checked = true
is_waiting blocked = true
is_waiting stopping = true
is_waiting p = false

abbrev pub Some : (Waker → Bool) → (ℕ → Waker) → Type 0
Some test threads = (i : ℕ) × (test (threads i) ≡ true)

record Inv (m : Shared) (p : Scheduler) (threads : ℕ → Waker) : Type 0 where
  flagged_wait : is_waiting p ≡ true → m.waiting ≡ true
  claimed : is_arming p ≡ true → m.interrupt_pending ≡ true → (0 < m.sent) ⊎ Some is_first threads
  covered : is_asleep p ≡ true → 0 < m.work → (0 < m.sent) ⊎ Some is_active threads

start-Inv : Inv start.shared start.scheduler start.threads
start-Inv = record { flagged_wait = λ h. cc; claimed = λ h p. cc; covered = λ h w. cc }

-- A thread that keeps the property, or another one, still shows it.
Some-update :
    (test : Waker → Bool) (threads : ℕ → Waker) (i : ℕ) (p : Waker)
    → (test (threads i) ≡ true → test p ≡ true)
    → Some test threads
    → Some test (update threads i p)
Some-update test threads i p keeps (j, h) = elim (Bool-cases (j == i)) [
  | inl e ↦ (i, ground (arith, ==→eq j i e))
  | inr e ↦ (j, ground arith)
]

-- A scheduler that is not arming any more, or not yet, owes nothing.
awake-Inv :
    (m : Shared) (p : Scheduler) (threads : ℕ → Waker)
    → is_arming p ≡ false
    → is_asleep p ≡ false
    → (is_waiting p ≡ true → m.waiting ≡ true)
    → Inv m p threads
awake-Inv m p threads a b w = record { flagged_wait = w; claimed = λ h q. cc; covered = λ h q. cc }

Sched-Inv :
    {m m' : Shared} {p p' : Scheduler} (threads : ℕ → Waker)
    → Sched m p m' p'
    → Inv m p threads
    → Inv m' p' threads
Sched-Inv threads (take_work left a b c) v =
    rw (b, c) (awake-Inv _ running threads refl refl (λ h. cc))
Sched-Inv threads (clear_pending a b c) v =
    rw (b, c) (record { flagged_wait = λ h. cc; claimed = λ h q. cc; covered = λ h w. cc })
Sched-Inv threads (set_waiting a b c) v =
    rw (b, c)
      (record {
        flagged_wait = λ h. refl;
        claimed = λ h q. v.claimed (rw a refl) q;
        covered = λ h w. cc;
      })
Sched-Inv {m} threads (check a b c) v = elim (Bool-cases (m.work == 0)) [
  | inl none_left ↦
      rw (b, c, none_left)
        (record {
          flagged_wait = λ h. v.flagged_wait (rw a refl);
          claimed = λ h q. v.claimed (rw a refl) q;
          covered = λ h w. ground arith;
        })
  | inr some_left ↦
      rw (b, c, some_left)
        (awake-Inv m stopping threads refl refl (λ h. v.flagged_wait (rw a refl)))
]
Sched-Inv {m} threads (timer_woke a b c) v =
    rw (b, c) (awake-Inv m stopping threads refl refl (λ h. v.flagged_wait (rw a refl)))
Sched-Inv threads (wait a b c) v =
    rw (b, c)
      (record {
        flagged_wait = λ h. v.flagged_wait (rw a refl);
        claimed = λ h q. v.claimed (rw a refl) q;
        covered = λ h w. v.covered (rw a refl) w;
      })
Sched-Inv threads (wait_returns a b c) v =
    rw (b, c) (awake-Inv _ stopping threads refl refl (λ h. v.flagged_wait (rw a refl)))
Sched-Inv threads (unset_waiting a b c) v =
    rw (b, c) (awake-Inv _ half_stopped threads refl refl (λ h. cc))
Sched-Inv threads (unset_pending a b c) v =
    rw (b, c) (awake-Inv _ running threads refl refl (λ h. cc))

waiting_while_asleep : (p : Scheduler) → is_asleep p ≡ true → is_waiting p ≡ true
waiting_while_asleep p h = ground arith

arming_while_asleep : (p : Scheduler) → is_asleep p ≡ true → is_arming p ≡ true
arming_while_asleep p h = ground arith

module _ {m : Shared} {p : Scheduler} (threads : ℕ → Waker) (i : ℕ) (v : Inv m p threads) where
  -- A thread whose place changes to `q`, neither place being `first`, if `q` is active or was not.
  moves-Inv :
      (q : Waker)
      → (is_first (threads i) ≡ true → is_first q ≡ true)
      → (is_active (threads i) ≡ true → is_active q ≡ true)
      → Inv m p (update threads i q)
  moves-Inv q f a = record {
    flagged_wait = v.flagged_wait;
    claimed = λ h e. elim (v.claimed h e) [
      | inl sent ↦ inl sent
      | inr some_first ↦ inr (Some-update is_first threads i q f some_first)
    ];
    covered = λ h w. elim (v.covered h w) [
      | inl sent ↦ inl sent
      | inr some_active ↦ inr (Some-update is_active threads i q a some_active)
    ];
  }

  self : (test : Waker → Bool) (q : Waker) → test q ≡ true → Some test (update threads i q)
  self test q h = (i, rw (==_refl i) h)

  first_active : (ts : ℕ → Waker) → Some is_first ts → Some is_active ts
  first_active ts (j, h) = (j, ground arith)

  load-Inv :
      threads i ≡ announced → Inv m p (update threads i (if m.waiting then saw_waiting else idle))
  load-Inv e = elim (Bool-cases m.waiting) [
    | inl w ↦ simp w (moves-Inv saw_waiting (λ h. ground arith) (λ h. refl))
    | inr w ↦ simp w (record {
      flagged_wait = v.flagged_wait;
      claimed = λ h q. elim (v.claimed h q) [
        | inl sent ↦ inl sent
        | inr f ↦ inr (Some-update is_first threads i idle (λ g. ground arith) f)
      ];
      covered = λ h q. absurd (ground (arith, v.flagged_wait (waiting_while_asleep p h)));
    })
  ]

  swap-Inv :
      threads i ≡ saw_waiting
      → Inv
          (record m { interrupt_pending = true })
          p
          (update threads i (if m.interrupt_pending then idle else first))
  swap-Inv e = elim (Bool-cases m.interrupt_pending) [
    | inl w ↦ rw w (record {
      flagged_wait = v.flagged_wait;
      claimed = λ h q. kept h w;
      covered = λ h q. elim (kept (arming_while_asleep p h) w) [
        | inl sent ↦ inl sent
        | inr f ↦ inr (first_active (update threads i idle) f)
      ];
    })
    | inr w ↦ rw w (record {
      flagged_wait = v.flagged_wait;
      claimed = λ h q. inr (self is_first first refl);
      covered = λ h q. inr (self is_active first refl);
    })
  ]
    where
      kept :
          is_arming p ≡ true
          → m.interrupt_pending ≡ true
          → (0 < m.sent) ⊎ Some is_first (update threads i idle)
      kept h w = elim (v.claimed h w) [
        | inl sent ↦ inl sent
        | inr f ↦ inr (Some-update is_first threads i idle (λ g. ground arith) f)
      ]

  Wake-Inv : {m' : Shared} {q : Waker} → Wake m (threads i) m' q → Inv m' p (update threads i q)
  Wake-Inv (flag a b c) = rw (b, c) (moves-Inv flagged (λ h. ground arith) (λ h. ground arith))
  Wake-Inv (already_queued a b c) = rw (b, c) (moves-Inv announced (λ h. ground arith) (λ h. refl))
  Wake-Inv (announce a b c) =
      rw (b, c)
        (record {
          flagged_wait = v.flagged_wait;
          claimed = (moves-Inv announced (λ h. ground arith) (λ h. refl)).claimed;
          covered = λ h w. inr (self is_active announced refl);
        })
  Wake-Inv (load_waiting a b c) = rw (b, c) (load-Inv a)
  Wake-Inv (swap_pending a b c) = rw (b, c) (swap-Inv a)
  Wake-Inv (interrupt a b c) =
      rw (b, c)
        (record {
          flagged_wait = v.flagged_wait;
          claimed = λ h q. inl (omega arith);
          covered = λ h w. inl (omega arith);
        })

Reach-Inv : {s : System} → Reach s → Inv s.shared s.scheduler s.threads
Reach-Inv here = start-Inv
Reach-Inv (next {s} r (schedules st e)) = rw e (Sched-Inv s.threads st (Reach-Inv r))
Reach-Inv (next {s} r (wakes i q st e f)) = rw (e, f) (Wake-Inv s.threads i (Reach-Inv r) st)

-- In every state that the interleavings of the scheduler with any number of waking threads reach:
-- if the scheduler sleeps in `driver.wait` while work is announced, then an interrupt that the
-- driver has not seen is there, or some thread is still on its way to send one.
pub no_lost_wakeup :
    {s : System}
    → Reach s
    → s.scheduler ≡ blocked
    → 0 < s.shared.work
    → (0 < s.shared.sent) ⊎ Some is_active s.threads
no_lost_wakeup r h w = (Reach-Inv r).covered (rw h refl) w
