-- ===== src/Fs/File/Exact.antt =====
-- The loops over reads and writes at an offset: what they move when they end.
use zincio.Prelude.{
  ℕ, zero, suc, ◌+◌, ◌≤◌, ◌<◌, ◌≡◌, ◌≢◌, refl, ap, subst, ◌∙◌, inl, inr, true, false, Option, some,
  List, [], ◌∷◌, ◌++◌, length, take, ◌==◌, arith, Bool-cases, u64_mod,
}
use zincio.Io.Stream.{IoError, unexpected_eof, IoResult, ok, err, IoResult-cases}
use zincio.Io.Buf.{
  Buffer, IoBufWithCursor, new, advance, into_inner, buf_len, as_buf_ptr, buf_len_lem,
  advance_splits, length-advance,
}
use zincio.Io.Copy.{saturating_add}
use zincio.Fs.File.{
  receive, read_at, read_loop, read_exact_at, write_at, Written, WriteRun, after_write, write_loop,
  write_exact_at,
}

-- All that was written, and that each write starts where the one before it ended.
abbrev pub sent : List Written → List ℕ
sent [] = []
sent (w ∷ ws) = w.bytes ++ sent ws

abbrev pub Consecutive : ℕ → List Written → Type 0
Consecutive offset [] = Unit
Consecutive offset (w ∷ ws) = (w.offset ≡ offset) × Consecutive (offset + length w.bytes) ws

-- A write takes no more than it is offered.
abbrev pub IsHonest : (ℕ → ℕ → IoResult ℕ) → Type 0
IsHonest answers = (n len r : ℕ) → answers n len ≡ ok r → r ≤ len

length-take : (n : ℕ) (xs : List ℕ) → n ≤ length xs → length (take n xs) ≡ n
length-take zero xs h = omega arith
length-take (suc n) [] h = omega arith
length-take (suc n) (x ∷ xs) h = omega (arith, length-take n xs (omega arith))

append_assoc : (xs ys zs : List ℕ) → (xs ++ ys) ++ zs ≡ xs ++ (ys ++ zs)
append_assoc [] ys zs = refl
append_assoc (x ∷ xs) ys zs = ap (λ l. x ∷ l) (append_assoc xs ys zs)

empty_list : (xs : List ℕ) → length xs ≡ 0 → xs ≡ []
empty_list [] h = refl
empty_list (x ∷ xs) h = absurd (omega arith)

-- The answer of a loop that fails.
abbrev failure : IoError → IoResult (Unit {0})
failure e = err e

write_more :
    (b : IoBufWithCursor) (answer : IoResult ℕ)
    → (buf_len b == 0) ≡ false
    → write_at b answer ≡ (answer, b)
unfolding write_at
write_more b answer more = rw (more, write_at) refl

abbrev stopped : IoBufWithCursor → IoResult (Unit {0}) → Option WriteRun
stopped b result = some (record { result = result; buffer = into_inner b; written = [] })

-- One round of the loop, by the answer.
module _ (fuel : ℕ) (answers : ℕ → ℕ → IoResult ℕ) (n : ℕ) (b : IoBufWithCursor) (offset : ℕ) where
  loop_done : (buf_len b == 0) ≡ true → write_loop (suc fuel) answers n b offset ≡ stopped b (ok tt)
  unfolding write_loop
  loop_done done = rw (done, write_loop) refl

  loop_fails :
      (e : IoError)
      → (buf_len b == 0) ≡ false
      → answers n (buf_len b) ≡ err e
      → write_loop (suc fuel) answers n b offset ≡ stopped b (err e)
  unfolding write_loop
  loop_fails e more failed =
      rw (more, write_loop)
        (rw (write_more b (answers n (buf_len b)) more)
          (rw failed (rw (write_more b (answers n (buf_len b)) more) refl)))

  loop_ends :
      (r : ℕ)
      → (buf_len b == 0) ≡ false
      → answers n (buf_len b) ≡ ok r
      → (r == 0) ≡ true
      → write_loop (suc fuel) answers n b offset ≡ stopped b (err unexpected_eof)
  unfolding write_loop
  loop_ends r more wrote nothing =
      rw (more, write_loop)
        (rw (write_more b (answers n (buf_len b)) more)
          (rw wrote (rw nothing (rw (write_more b (answers n (buf_len b)) more) refl))))

  loop_goes_on :
      (r : ℕ)
      → (buf_len b == 0) ≡ false
      → answers n (buf_len b) ≡ ok r
      → (r == 0) ≡ false
      → write_loop (suc fuel) answers n b offset
        ≡ after_write
            (record { offset = offset; bytes = take r (as_buf_ptr b) })
            (write_loop fuel answers (suc n) (advance b r) (saturating_add offset r))
  unfolding write_loop
  loop_goes_on r more wrote something =
      rw (more, write_loop)
        (rw (write_more b (answers n (buf_len b)) more)
          (rw wrote (rw something (rw (write_more b (answers n (buf_len b)) more) refl))))

-- What a run of the loop has done from a buffer and an offset on.
abbrev pub Sends : IoBufWithCursor → ℕ → Option WriteRun → Type 0
Sends b offset out =
    (run : WriteRun) × (out ≡ some run)
    × Consecutive offset run.written
    × (run.buffer ≡ b.buf)
    × ((rest : List ℕ) × (sent run.written ++ rest ≡ as_buf_ptr b)
        × (run.result ≡ ok tt → rest ≡ []))

write_loop-Sends :
    (fuel : ℕ) (answers : ℕ → ℕ → IoResult ℕ) (n : ℕ) (b : IoBufWithCursor) (offset : ℕ)
    → IsHonest answers
    → buf_len b < fuel
    → offset + buf_len b < u64_mod
    → Sends b offset (write_loop fuel answers n b offset)
unfolding into_inner advance
write_loop-Sends zero answers n b offset honest small room = absurd (omega arith)
write_loop-Sends (suc fuel) answers n b offset honest small room =
    elim (Bool-cases (buf_len b == 0)) [
      | inl done ↦ (
        record { result = ok tt; buffer = b.buf; written = [] },
        loop_done fuel answers n b offset done,
        tt,
        refl,
        (as_buf_ptr b, refl, λ succeeds. empty_list (as_buf_ptr b) (ground (arith, buf_len_lem b))),
      )
      | inr more ↦ elim (IoResult-cases (answers n (buf_len b))) [
        | inr (e, failed) ↦ (
          record { result = err e; buffer = b.buf; written = [] },
          loop_fails fuel answers n b offset e more failed,
          tt,
          refl,
          (as_buf_ptr b, refl, λ succeeds. absurd (not_ok e succeeds)),
        )
        | inl (r, wrote) ↦ elim (Bool-cases (r == 0)) [
          | inl none_sent ↦ (
            record { result = err unexpected_eof; buffer = b.buf; written = [] },
            loop_ends fuel answers n b offset r more wrote none_sent,
            tt,
            refl,
            (as_buf_ptr b, refl, λ succeeds. absurd (not_ok unexpected_eof succeeds)),
          )
          | inr some_sent ↦
              let fits : r ≤ buf_len b = honest n (buf_len b) r wrote in
              let long : length (take r (as_buf_ptr b)) ≡ r =
                length-take r (as_buf_ptr b) (omega (arith, fits, buf_len_lem b)) in
              let (run, is, chain, kept, (rest, all, ends)) =
                write_loop-Sends fuel answers (suc n) (advance b r) (saturating_add offset r) honest
                  (ground (arith, length-advance b r, small, some_sent))
                  (ground (arith, length-advance b r, room, fits)) in
              (
                record run {
                  written = record { offset = offset; bytes = take r (as_buf_ptr b) } ∷ run.written;
                },
                loop_goes_on fuel answers n b offset r more wrote some_sent
                    ∙ ap
                        (λ o.
                          after_write (record { offset = offset; bytes = take r (as_buf_ptr b) }) o)
                        is,
                (
                  refl,
                  subst (λ o. Consecutive o run.written) (ground (arith, long, room, fits)) chain,
                ),
                kept,
                (
                  rest,
                  append_assoc (take r (as_buf_ptr b)) (sent run.written) rest
                      ∙ ap (λ l. take r (as_buf_ptr b) ++ l) all
                      ∙ advance_splits b r,
                  ends,
                ),
              )
        ]
      ]
    ]
  where
    not_ok : (e : IoError) → failure e ≢ ok tt
    not_ok e h = cc

read_more :
    (b : IoBufWithCursor) (answer : IoResult (List ℕ)) (bytes : List ℕ)
    → (buf_len b == 0) ≡ false
    → answer ≡ ok bytes
    → read_at b answer ≡ (ok (length bytes), receive b bytes)
unfolding read_at
read_more b answer bytes more given = rw (more, read_at) (rw given refl)

-- One round of the loop, by the answer.
module _ (fuel : ℕ) (answers : ℕ → IoResult (List ℕ)) (n : ℕ) (b : IoBufWithCursor)
    (offset : ℕ) where
  read_done :
      (buf_len b == 0) ≡ true → read_loop (suc fuel) answers n b offset ≡ some (ok tt, into_inner b)
  unfolding read_loop
  read_done done = rw (done, read_loop) refl

  read_goes_on :
      (bytes : List ℕ)
      → (buf_len b == 0) ≡ false
      → answers n ≡ ok bytes
      → (length bytes == 0) ≡ false
      → read_loop (suc fuel) answers n b offset
        ≡ read_loop fuel answers
            (suc n)
            (advance (receive b bytes) (length bytes))
            (saturating_add offset (length bytes))
  unfolding read_loop
  read_goes_on bytes more given something =
      rw (more, read_loop)
        (rw (read_more b (answers n) bytes more given)
          (rw something (rw (read_more b (answers n) bytes more given) refl)))

-- For a vector that is not empty, when the first read gives some bytes, `read_exact_at` ends there,
-- however few they are: it answers `ok`, and the vector holds what was read and nothing else.
pub read_exact_stops :
    (fuel : ℕ) (answers : ℕ → IoResult (List ℕ)) (buf : Buffer) (offset : ℕ) (bytes : List ℕ)
    → 0 < length buf.bytes
    → answers 0 ≡ ok bytes
    → 0 < length bytes
    → read_exact_at (suc (suc fuel)) answers buf offset ≡ some (ok tt, record buf { bytes = bytes })
unfolding read_exact_at receive new buf_len advance into_inner
read_exact_stops fuel answers buf offset bytes wants given gives =
    read_goes_on (suc fuel) answers 0 (new buf) offset bytes (ground arith) given (ground arith)
    ∙ read_done fuel answers 1 (advance (receive (new buf) bytes) (length bytes))
        (saturating_add offset (length bytes)) (ground arith)

-- When the vector ends below the offset 2 ^ 64, and the system writes no more than it is offered,
-- `write_exact_at` ends after at most as many calls as there are bytes: it gives the buffer back,
-- each write starts where the one before it ended, what is written is the beginning of the buffer,
-- and all of it when the answer is `ok`.
pub write_exact_at-Sends :
    (answers : ℕ → ℕ → IoResult ℕ) (buf : Buffer) (offset : ℕ)
    → IsHonest answers
    → offset + length buf.bytes < u64_mod
    → Sends (new buf) offset (write_exact_at (suc (length buf.bytes)) answers buf offset)
unfolding write_exact_at new buf_len
write_exact_at-Sends answers buf offset honest room =
    write_loop-Sends (suc (length buf.bytes)) answers 0 (new buf) offset honest (omega arith)
      (omega (arith, room))
