-- ===== src/Fs/File.antt =====
-- `File` (fs/file.rs) on a driver with completions, for buffers that are vectors: reads and writes at
-- an offset, the loops over them, and the cursor. What the system answers to the n-th call is a
-- parameter.
pub mod Exact
use zincio.Prelude.{
  ℕ, zero, suc, ◌+◌, ◌-◌, Option, none, some, List, [], ◌∷◌, ◌++◌, length, take, ◌==◌,
  if◌then◌else◌, true, false,
}
use zincio.Io.Stream.{IoError, unexpected_eof, IoResult, ok, err}
use zincio.Io.Buf.{Buffer, IoBufWithCursor, new, advance, into_inner, buf_len, as_buf_ptr}
use zincio.Io.Copy.{saturating_add}

-- `ReadAtOp`: the bytes come to the place of the cursor, and `set_buf_init` sets the length of the
-- vector to the end of what was read.
unfoldable pub receive : IoBufWithCursor → List ℕ → IoBufWithCursor
receive b bytes = record b { buf = record b.buf { bytes = take b.cursor b.buf.bytes ++ bytes } }

unfoldable pub read_at : IoBufWithCursor → IoResult (List ℕ) → IoResult ℕ × IoBufWithCursor
read_at b answer =
    if buf_len b == 0
    then (ok 0, b)
    else elim answer [ ok bytes ↦ (ok (length bytes), receive b bytes) | err e ↦ (err e, b) ]

unfoldable pub write_at : IoBufWithCursor → IoResult ℕ → IoResult ℕ × IoBufWithCursor
write_at b answer = if buf_len b == 0 then (ok 0, b) else (answer, b)

-- The loop of `read_exact_at`, with the number of calls so far; `none` is fuel that has run out.
unfoldable pub read_loop :
    ℕ → (ℕ → IoResult (List ℕ)) → ℕ → IoBufWithCursor → ℕ → Option (IoResult (Unit {0}) × Buffer)
read_loop zero answers n b offset = none
read_loop (suc fuel) answers n b offset =
    let (read, b') = read_at b (answers n) in
    if buf_len b == 0 then some (ok tt, into_inner b) else elim read [
      | err e ↦ some (err e, into_inner b')
      | ok r ↦ elim (r == 0) [
        | true ↦ some (err unexpected_eof, into_inner b')
        | false ↦ read_loop fuel answers (suc n) (advance b' r) (saturating_add offset r)
      ]
    ]

unfoldable pub read_exact_at :
    ℕ → (ℕ → IoResult (List ℕ)) → Buffer → ℕ → Option (IoResult (Unit {0}) × Buffer)
read_exact_at fuel answers buf offset = read_loop fuel answers 0 (new buf) offset

-- A call of `write_at`: where it wrote, and what.
pub record Written : Type 0 where
  pub offset : ℕ
  pub bytes : List ℕ

pub record WriteRun : Type 0 where
  pub result : IoResult (Unit {0})
  pub buffer : Buffer
  pub written : List Written

abbrev pub after_write : Written → Option WriteRun → Option WriteRun
after_write w none = none
after_write w (some run) = some (record run { written = w ∷ run.written })

-- The loop of `write_exact_at`; an answer depends on how many bytes are offered.
unfoldable pub write_loop : ℕ → (ℕ → ℕ → IoResult ℕ) → ℕ → IoBufWithCursor → ℕ → Option WriteRun
write_loop zero answers n b offset = none
write_loop (suc fuel) answers n b offset =
    let (wrote, b') = write_at b (answers n (buf_len b)) in
    if buf_len b == 0
    then some (record { result = ok tt; buffer = into_inner b; written = [] })
    else elim wrote [
      | err e ↦ some (record { result = err e; buffer = into_inner b'; written = [] })
      | ok r ↦ elim (r == 0) [
        | true ↦ some (record { result = err unexpected_eof; buffer = into_inner b'; written = [] })
        | false ↦
            after_write (record { offset = offset; bytes = take r (as_buf_ptr b') })
              (write_loop fuel answers (suc n) (advance b' r) (saturating_add offset r))
      ]
    ]

unfoldable pub write_exact_at : ℕ → (ℕ → ℕ → IoResult ℕ) → Buffer → ℕ → Option WriteRun
write_exact_at fuel answers buf offset = write_loop fuel answers 0 (new buf) offset

-- `File::read` and `File::write`, which move the cursor.
unfoldable pub move_cursor : ℕ → IoResult ℕ → ℕ
move_cursor cursor (ok n) = saturating_add cursor n
move_cursor cursor (err e) = cursor
