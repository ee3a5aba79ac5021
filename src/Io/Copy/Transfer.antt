-- ===== src/Io/Copy/Transfer.antt =====
-- What `copy` moves: no byte is lost, repeated or reordered, and an end without an error is a whole
-- copy.
use mathlib.Core.List.{append_assoc, append-nil}
use zincio.Prelude.{
  ℕ, zero, suc, ◌≤◌, ◌≡◌, inl, inr, refl, sym, ap, ◌∙◌, true, false, List, [], ◌∷◌, ◌++◌, length,
  take, ◌==◌, arith, Bool-cases,
}
use zincio.Io.Buf.{
  IoBufWithCursor, advance, buf_len, as_buf_ptr, buf_len_lem, advance_splits, length-advance,
}
use zincio.Io.Stream.{AsyncWrite, IoError, write_zero, ok, err, IoResult-cases}
use zincio.Io.Copy.{Run, returns, out_of_fuel, write_all}

pub length-nil : (xs : List ℕ) → length xs ≡ 0 → xs ≡ []
length-nil [] h = refl
length-nil (x ∷ xs) h = absurd (omega arith)

-- The rest of the buffer at the end of `write_all`.
abbrev pub Ends : Run IoBufWithCursor → List ℕ → Type 0
Ends (returns (ok b)) rest = rest ≡ []
Ends (returns (err e)) rest = Unit {0}
Ends out_of_fuel rest = ⊥

module _ {W : Type 0} ⦃writer : AsyncWrite W⦄ where
  -- Of the bytes of a buffer, a first part is sent.
  abbrev pub Writes : W → List ℕ → W × Run IoBufWithCursor → Type 0
  Writes w bytes out =
      (sent : List ℕ) × (rest : List ℕ) × (bytes ≡ sent ++ rest)
      × (writer.written out.0 ≡ writer.written w ++ sent)
      × Ends out.1 rest

  empty-Writes :
      (w : W) (b : IoBufWithCursor)
      → (buf_len b == 0) ≡ true
      → Writes w (as_buf_ptr b) (w, returns (ok b))
  empty-Writes w b e = (
    [],
    as_buf_ptr b,
    refl,
    sym (append-nil (writer.written w)),
    length-nil (as_buf_ptr b) (ground (arith, buf_len_lem b)),
  )

  -- A write of `n` bytes before the rest of the loop.
  after-Writes :
      (w : W) (b : IoBufWithCursor) (n : ℕ) (out : W × Run IoBufWithCursor)
      → (writer.write w b).1 ≡ ok n
      → Writes (writer.write w b).0 (as_buf_ptr (advance b n)) out
      → Writes w (as_buf_ptr b) out
  after-Writes w b n out e (sent, rest, split, total, ends) =
      let (fits, total', same) = writer.write_sends w b n e in
      (
        take n (as_buf_ptr b) ++ sent,
        rest,
        sym (advance_splits b n)
            ∙ ap (λ ys. take n (as_buf_ptr b) ++ ys) split
            ∙ sym (append_assoc (take n (as_buf_ptr b)) sent rest),
        total
            ∙ ap (λ ys. ys ++ sent) total'
            ∙ append_assoc (writer.written w) (take n (as_buf_ptr b)) sent,
        ends,
      )

  none_left :
      (fuel : ℕ) (w : W) (b : IoBufWithCursor)
      → (buf_len b == 0) ≡ true
      → write_all fuel w b ≡ (w, returns (ok b))
  unfolding write_all
  none_left zero w b e = rw (e, write_all) refl
  none_left (suc fuel) w b e = rw (e, write_all) refl

  write_refused :
      (fuel : ℕ) (w : W) (b : IoBufWithCursor)
      → (buf_len b == 0) ≡ false
      → (writer.write w b).1 ≡ ok 0
      → write_all (suc fuel) w b ≡ ((writer.write w b).0, returns (err write_zero))
  unfolding write_all
  write_refused fuel w b left e = rw (left, write_all) (rw e refl)

  write_failed :
      (fuel : ℕ) (w : W) (b : IoBufWithCursor) (error : IoError)
      → (buf_len b == 0) ≡ false
      → (writer.write w b).1 ≡ err error
      → write_all (suc fuel) w b ≡ ((writer.write w b).0, returns (err error))
  unfolding write_all
  write_failed fuel w b error left e = rw (left, write_all) (rw e refl)

  write_sent :
      (fuel : ℕ) (w : W) (b : IoBufWithCursor) (n : ℕ)
      → (buf_len b == 0) ≡ false
      → (writer.write w b).1 ≡ ok n
      → (n == 0) ≡ false
      → write_all (suc fuel) w b ≡ write_all fuel (writer.write w b).0 (advance b n)
  unfolding write_all
  write_sent fuel w b n left e some_sent =
      rw (left, write_all) (rw e (rw some_sent (rw ((writer.write_sends w b n e).2) refl)))

  unsent-Writes :
      (w w' : W) (b : IoBufWithCursor) (error : IoError)
      → writer.written w' ≡ writer.written w
      → Writes w (as_buf_ptr b) (w', returns (err error))
  unsent-Writes w w' b error same =
      ([], as_buf_ptr b, refl, same ∙ sym (append-nil (writer.written w)), tt)

  pub write_all-Writes :
      (fuel : ℕ) (w : W) (b : IoBufWithCursor)
      → buf_len b ≤ fuel
      → Writes w (as_buf_ptr b) (write_all fuel w b)
  write_all-Writes zero w b h =
      let empty : (buf_len b == 0) ≡ true = ground arith in
      rw (none_left zero w b empty) (empty-Writes w b empty)
  write_all-Writes (suc fuel) w b h = elim (Bool-cases (buf_len b == 0)) [
    | inl e ↦ rw (none_left (suc fuel) w b e) (empty-Writes w b e)
    | inr left ↦ elim (IoResult-cases (writer.write w b).1) [
      | inl (zero, e) ↦ rw (write_refused fuel w b left e) (
          unsent-Writes w (writer.write w b).0 b write_zero
            ((writer.write_sends w b 0 e).1 ∙ append-nil (writer.written w)))
      | inl (suc n, e) ↦ rw (write_sent fuel w b (suc n) left e (ground arith)) (
          after-Writes w b (suc n) _ e (
            write_all-Writes fuel (writer.write w b).0 (advance b (suc n))
              (omega (arith, length-advance b (suc n)))))
      | inr (error, e) ↦
          rw (write_failed fuel w b error left e)
            (unsent-Writes w (writer.write w b).0 b error (writer.write_fails w b error e))
    ]
  ]
