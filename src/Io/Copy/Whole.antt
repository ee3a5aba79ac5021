-- ===== src/Io/Copy/Whole.antt =====
-- `copy` as a whole, over any reader and writer.
use mathlib.Core.List.{append_assoc, append-nil}
use zincio.Prelude.{
  ℕ, zero, suc, ◌+◌, ◌-◌, ◌≤◌, ◌<◌, ◌≡◌, inl, inr, refl, sym, ap, ◌∙◌, subst, false, List, [], ◌++◌,
  length, min, ◌==◌, u64_mod, arith, length-append,
}
use zincio.Io.Buf.{Buffer, IoBufWithCursor, new, into_inner, buf_len, as_buf_ptr, set_buf_init}
use zincio.Io.Stream.{AsyncRead, AsyncWrite, IoError, ok, err, IoResult-cases}
use zincio.Io.Copy.{
  Run, returns, out_of_fuel, Run-cases, saturating_add, write_all, finish, copy_loop, copy,
}
use zincio.Io.Copy.Transfer.{length-nil, Ends, Writes, write_all-Writes}

abbrev pub Counts : Run ℕ → ℕ → List ℕ → List ℕ → Type 0
Counts (returns (ok total)) copied sent rest =
    (rest ≡ []) × (total ≡ min (copied + length sent) (u64_mod - 1))
Counts (returns (err e)) copied sent rest = Unit {0}
Counts out_of_fuel copied sent rest = Unit {0}

abbrev pub IsReturned : Run ℕ → Type 0
IsReturned (returns res) = Unit {0}
IsReturned out_of_fuel = ⊥

recount :
    (res : Run ℕ) (copied n : ℕ) (sent' sent rest : List ℕ)
    → length sent' ≡ n
    → Counts res (saturating_add copied n) sent rest
    → Counts res copied (sent' ++ sent) rest
recount (returns (ok total)) copied n sent' sent rest len (none_left, same) =
    (none_left, omega (arith, length-append sent' sent))
recount (returns (err e)) copied n sent' sent rest len counts = tt
recount out_of_fuel copied n sent' sent rest len counts = tt

module _ {R : Type 0} ⦃reader : AsyncRead R⦄ where
  empty_read :
      (r : R) (buffer : Buffer)
      → (reader.read r buffer).1 ≡ ok 0
      → reader.given (reader.read r buffer).0 ≡ reader.given r
  empty_read r buffer h =
      let (len, given') = reader.read_gives r buffer 0 h in
      given'
      ∙ ap (λ ys. reader.given r ++ ys) (length-nil ((reader.read r buffer).2).bytes len)
      ∙ append-nil (reader.given r)

  -- A reader that has at most `left` bytes left to give, before it gives 0.
  abbrev pub IsFinite : (R → ℕ) → Type 0
  IsFinite left =
      (r : R) (b : Buffer) (n : ℕ)
      → (reader.read r b).1 ≡ ok n
      → left (reader.read r b).0 + n ≤ left r

module _ {W : Type 0} ⦃writer : AsyncWrite W⦄ where
  finish-IsReturned : (w : W) (copied : ℕ) → IsReturned (finish w copied).1
  unfolding finish
  finish-IsReturned w copied = elim (IoResult-cases (writer.flush w).1) [
    | inl (u, e) ↦ rw (e, finish) tt
    | inr (error, e) ↦ rw (e, finish) tt
  ]

module _ {R W : Type 0} ⦃reader : AsyncRead R⦄ ⦃writer : AsyncWrite W⦄ where
  -- What was read is what was sent and a rest.
  abbrev pub Transfers : R → W → ℕ → R × W × Run ℕ → Type 0
  Transfers r w copied out =
      (sent : List ℕ) × (rest : List ℕ) × (reader.given out.0 ≡ reader.given r ++ (sent ++ rest))
      × (writer.written out.1 ≡ writer.written w ++ sent)
      × Counts out.2 copied sent rest

  read_failed :
      (fuel : ℕ) (r : R) (w : W) (buffer : Buffer) (copied : ℕ) (e : IoError)
      → (reader.read r buffer).1 ≡ err e
      → copy_loop (suc fuel) r w buffer copied ≡ ((reader.read r buffer).0, w, returns (err e))
  unfolding copy_loop
  read_failed fuel r w buffer copied e h = rw (h, copy_loop) refl

  read_ended :
      (fuel : ℕ) (r : R) (w : W) (buffer : Buffer) (copied : ℕ)
      → (reader.read r buffer).1 ≡ ok 0
      → copy_loop (suc fuel) r w buffer copied
        ≡ ((reader.read r buffer).0, (finish w copied).0, (finish w copied).1)
  unfolding copy_loop
  read_ended fuel r w buffer copied h = rw (h, copy_loop) refl

  -- How the buffer that `read` filled is written.
  abbrev chunk : R → W → Buffer → W × Run IoBufWithCursor
  chunk r w buffer =
      write_all (buf_len (new (reader.read r buffer).2)) w (new (reader.read r buffer).2)

  chunk_failed :
      (fuel : ℕ) (r : R) (w : W) (buffer : Buffer) (copied n : ℕ) (e : IoError)
      → (reader.read r buffer).1 ≡ ok n
      → (n == 0) ≡ false
      → (chunk r w buffer).1 ≡ returns (err e)
      → copy_loop (suc fuel) r w buffer copied
        ≡ ((reader.read r buffer).0, (chunk r w buffer).0, returns (err e))
  unfolding copy_loop
  chunk_failed fuel r w buffer copied n e h some_read k =
      rw (h, copy_loop) (rw some_read (rw k refl))

  chunk_sent :
      (fuel : ℕ) (r : R) (w : W) (buffer : Buffer) (copied n : ℕ) (b : IoBufWithCursor)
      → (reader.read r buffer).1 ≡ ok n
      → (n == 0) ≡ false
      → (chunk r w buffer).1 ≡ returns (ok b)
      → copy_loop (suc fuel) r w buffer copied
        ≡ copy_loop fuel
            (reader.read r buffer).0
            (chunk r w buffer).0
            (set_buf_init (into_inner b) 0)
            (saturating_add copied n)
  unfolding copy_loop
  chunk_sent fuel r w buffer copied n b h some_read k = rw (h, copy_loop) (rw some_read (rw k refl))

  chunk-Writes :
      (r : R) (w : W) (buffer : Buffer)
      → Writes w ((reader.read r buffer).2).bytes (chunk r w buffer)
  unfolding as_buf_ptr new
  chunk-Writes r w buffer =
      write_all-Writes (buf_len (new (reader.read r buffer).2)) w (new (reader.read r buffer).2)
        (omega arith)

  finish-Transfers :
      (r r' : R) (w : W) (copied : ℕ)
      → copied < u64_mod
      → reader.given r' ≡ reader.given r
      → Transfers r w copied (r', (finish w copied).0, (finish w copied).1)
  unfolding finish
  finish-Transfers r r' w copied small same = elim (IoResult-cases (writer.flush w).1) [
    | inl (u, e) ↦
        rw (e, finish)
          (
            [],
            [],
            same ∙ sym (append-nil (reader.given r)),
            writer.flush_keeps w ∙ sym (append-nil (writer.written w)),
            (refl, omega arith),
          )
    | inr (error, e) ↦
        rw (e, finish)
          (
            [],
            [],
            same ∙ sym (append-nil (reader.given r)),
            writer.flush_keeps w ∙ sym (append-nil (writer.written w)),
            tt,
          )
  ]

  -- A whole chunk before the rest of the copy.
  chunk-Transfers :
      (r : R) (w : W) (buffer : Buffer) (copied n : ℕ) (b : IoBufWithCursor) (out : R × W × Run ℕ)
      → (reader.read r buffer).1 ≡ ok n
      → (chunk r w buffer).1 ≡ returns (ok b)
      → Transfers (reader.read r buffer).0 (chunk r w buffer).0 (saturating_add copied n) out
      → Transfers r w copied out
  chunk-Transfers r w buffer copied n b out h k (sent, rest, given', written', counts) =
      let (sent', rest', split, total, ends) = chunk-Writes r w buffer in
      let (len, given'') = reader.read_gives r buffer n h in
      let whole : rest' ≡ [] = subst (λ x. Ends x rest') k ends in
      let all : ((reader.read r buffer).2).bytes ≡ sent' =
        split ∙ ap (λ ys. sent' ++ ys) whole ∙ append-nil sent' in
      (
        sent' ++ sent,
        rest,
        given'
            ∙ ap (λ ys. ys ++ (sent ++ rest)) (given'' ∙ ap (λ ys. reader.given r ++ ys) all)
            ∙ append_assoc (reader.given r) sent' (sent ++ rest)
            ∙ ap (λ ys. reader.given r ++ ys) (sym (append_assoc sent' sent rest)),
        written' ∙ ap (λ ys. ys ++ sent) total ∙ append_assoc (writer.written w) sent' sent,
        recount out.2 copied n sent' sent rest (sym (ap length all) ∙ len) counts,
      )

  cut_short :
      (r : R) (w : W) (buffer : Buffer) (copied n : ℕ) (e : IoError)
      → (reader.read r buffer).1 ≡ ok n
      → Transfers r w copied ((reader.read r buffer).0, (chunk r w buffer).0, returns (err e))
  cut_short r w buffer copied n e h =
      let (sent, rest, split, total, ends) = chunk-Writes r w buffer in
      let (len, given') = reader.read_gives r buffer n h in
      (sent, rest, given' ∙ ap (λ ys. reader.given r ++ ys) split, total, tt)

  pub loop-Transfers :
      (fuel : ℕ) (r : R) (w : W) (buffer : Buffer) (copied : ℕ)
      → copied < u64_mod
      → Transfers r w copied (copy_loop fuel r w buffer copied)
  unfolding copy_loop
  loop-Transfers zero r w buffer copied small =
      ([], [], sym (append-nil (reader.given r)), sym (append-nil (writer.written w)), tt)
  loop-Transfers (suc fuel) r w buffer copied small =
      elim (IoResult-cases (reader.read r buffer).1) [
        | inr (e, h) ↦ rw (read_failed fuel r w buffer copied e h) (
          [],
          [],
          reader.read_fails r buffer e h ∙ sym (append-nil (reader.given r)),
          sym (append-nil (writer.written w)),
          tt,
        )
        | inl (zero, h) ↦
            rw (read_ended fuel r w buffer copied h)
              (finish-Transfers r (reader.read r buffer).0 w copied small (empty_read r buffer h))
        | inl (suc n, h) ↦ elim (Run-cases (chunk r w buffer).1) [
          | inl (b, k) ↦ rw (chunk_sent fuel r w buffer copied (suc n) b h (ground arith) k) (
              chunk-Transfers r w buffer copied (suc n) b _ h k (
                loop-Transfers fuel (reader.read r buffer).0 (chunk r w buffer).0
                  (set_buf_init (into_inner b) 0) (saturating_add copied (suc n)) (omega arith)))
          | inr (inl (e, k)) ↦
              rw (chunk_failed fuel r w buffer copied (suc n) e h (ground arith) k)
                (cut_short r w buffer copied (suc n) e h)
          | inr (inr k) ↦
              absurd (subst (λ x. Ends x (chunk-Writes r w buffer).1) k (chunk-Writes r w buffer).4)
        ]
      ]

  -- With any fuel, over any reader and writer that keep their laws: what `copy` reads is what it
  -- writes and a rest that it does not write, all in order. When it returns a number, nothing is
  -- left over, and the number is the count of the bytes, or 2 ^ 64 - 1 if there are more.
  pub copy-Transfers : (fuel : ℕ) (r : R) (w : W) → Transfers r w 0 (copy fuel r w)
  unfolding copy
  copy-Transfers fuel r w = loop-Transfers fuel r w _ 0 (omega arith)

  loop-IsReturned :
      (left : R → ℕ) (fuel : ℕ) (r : R) (w : W) (buffer : Buffer) (copied : ℕ)
      → IsFinite left
      → left r < fuel
      → IsReturned (copy_loop fuel r w buffer copied).2
  loop-IsReturned left zero r w buffer copied finite enough = absurd (omega arith)
  loop-IsReturned left (suc fuel) r w buffer copied finite enough =
      elim (IoResult-cases (reader.read r buffer).1) [
        | inr (e, h) ↦ rw (read_failed fuel r w buffer copied e h) tt
        | inl (zero, h) ↦ rw (read_ended fuel r w buffer copied h) (finish-IsReturned w copied)
        | inl (suc n, h) ↦ elim (Run-cases (chunk r w buffer).1) [
          | inl (b, k) ↦ rw (chunk_sent fuel r w buffer copied (suc n) b h (ground arith) k) (
              loop-IsReturned left fuel (reader.read r buffer).0 (chunk r w buffer).0
                (set_buf_init (into_inner b) 0) (saturating_add copied (suc n)) finite
                (omega (arith, finite r buffer (suc n) h)))
          | inr (inl (e, k)) ↦
              rw (chunk_failed fuel r w buffer copied (suc n) e h (ground arith) k) tt
          | inr (inr k) ↦
              absurd (subst (λ x. Ends x (chunk-Writes r w buffer).1) k (chunk-Writes r w buffer).4)
        ]
      ]

  -- A copy from a reader that has a finite number of bytes left returns, with a number or an error,
  -- on any fuel above that number, however little the writer takes at a time.
  pub copy_returns :
      (left : R → ℕ) (fuel : ℕ) (r : R) (w : W)
      → IsFinite left
      → left r < fuel
      → IsReturned (copy fuel r w).2
  unfolding copy
  copy_returns left fuel r w finite enough = loop-IsReturned left fuel r w _ 0 finite enough
