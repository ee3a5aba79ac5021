-- ===== src/Drivers/Uring/Pushing.antt =====
-- What a push leaves: the entry, or the entries that there were and an error.
use zincio.Prelude.{◌+◌, ◌≡◌, ◌⊎◌, inl, inr, refl, true, false, [], ◌∷◌, ◌++◌, Bool-cases, arith}
use zincio.Io.Stream.{IoError, IoResult, ok, err, queue_full, IoResult-cases}
use zincio.Drivers.Uring.{Ring, Entry, Submitted, submit, is_full, push, push_pending, push_entry}

-- An entry is pushed, or the ring is left with the entries that it had.
abbrev Pushed : Ring → Entry → Ring × IoResult (Unit {0}) → Type 0
Pushed r e out =
    ((out.0.outstanding ≡ r.outstanding ++ e ∷ []) × (out.1 ≡ ok tt))
    ⊎ ((out.0.outstanding ≡ r.outstanding) × ((error : IoError) × (out.1 ≡ err error)))

push_full : (r : Ring) (e : Entry) → is_full r ≡ true → push r e ≡ (r, err queue_full)
unfolding push
push_full r e full = rw (full, push) refl

push_room :
    (r : Ring) (e : Entry)
    → is_full r ≡ false
    → push r e
      ≡ (record r { outstanding = r.outstanding ++ e ∷ []; unsubmitted = r.unsubmitted + 1 }, ok tt)
unfolding push
push_room r e room = rw (room, push) refl

push-cases : (r : Ring) (e : Entry) → Pushed r e (push_pending r e)
unfolding push_pending
push-cases r e = elim (Bool-cases (is_full r)) [
  | inl full ↦
      rw (push_full r e full, push_pending)
        (rw (push_full r e full) (inr (refl, (queue_full, refl))))
  | inr room ↦ rw (push_room r e room, push_pending) (rw (push_room r e room) (inl (refl, refl)))
]

pub push_entry-cases : (r : Ring) (s : Submitted) (e : Entry) → Pushed r e (push_entry r s e)
unfolding push_entry submit
push_entry-cases r s e = elim (Bool-cases (is_full r)) [
  | inr room ↦ rw room (push-cases r e)
  | inl full ↦ elim (IoResult-cases (submit r s).1) [
    | inl (u, given) ↦ rw full (rw given (push-cases (submit r s).0 e))
    | inr (error, refused) ↦ inr (rw full (rw refused refl), (error, rw full (rw refused refl)))
  ]
]

-- If entries stand in the submission queue, the driver has noted it.
abbrev pub IsNoted : Ring → Type 0
IsNoted r = r.pending_submissions ≡ false → r.unsubmitted ≡ 0

pub submit-IsNoted : (r : Ring) (s : Submitted) → IsNoted r → IsNoted (submit r s).0
unfolding submit
submit-IsNoted r s noted unset = omega (arith, noted unset)

push-IsNoted : (r : Ring) (e : Entry) → IsNoted r → IsNoted (push_pending r e).0
unfolding push_pending
push-IsNoted r e noted = elim (Bool-cases (is_full r)) [
  | inl full ↦ rw (push_full r e full, push_pending) (rw (push_full r e full) noted)
  | inr room ↦ rw (push_room r e room, push_pending) (rw (push_room r e room) (λ unset. cc))
]

pub push_entry-IsNoted :
    (r : Ring) (s : Submitted) (e : Entry) → IsNoted r → IsNoted (push_entry r s e).0
unfolding push_entry
push_entry-IsNoted r s e noted = elim (Bool-cases (is_full r)) [
  | inr room ↦ rw (room, push_entry) (push-IsNoted r e noted)
  | inl full ↦
      rw (full, push_entry)
        (elim (IoResult-cases (submit r s).1) [
          | inl (u, given) ↦ rw given (push-IsNoted (submit r s).0 e (submit-IsNoted r s noted))
          | inr (error, refused) ↦ rw refused (submit-IsNoted r s noted)
        ])
]
