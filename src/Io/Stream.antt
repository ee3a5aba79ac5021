-- ===== src/Io/Stream.antt =====
-- `AsyncRead` and `AsyncWrite` (io/mod.rs), as the interfaces that `copy` is written against: a call
-- is the finished future, with what `copy` relies on.
use zincio.Prelude.{ℕ, ◌≤◌, ◌≡◌, ◌⊎◌, inl, inr, refl, List, ◌++◌, length, take}
use zincio.Io.Buf.{Buffer, IoBufWithCursor, buf_len, as_buf_ptr}

pub data IoError : Type 0 where
  write_zero not_connected unsupported not_found would_block queue_full invalid_input
        unexpected_eof :
      IoError
  other : ℕ → IoError

pub data IoResult (A : Type 0) : Type 0 where
  ok : A → IoResult A
  err : IoError → IoResult A

pub IoResult-cases :
    {A : Type 0} (x : IoResult A) → ((a : A) × (x ≡ ok a)) ⊎ ((e : IoError) × (x ≡ err e))
IoResult-cases (ok a) = inl (a, refl)
IoResult-cases (err e) = inr (e, refl)

-- `given` is all that was read so far. A read gives the number of bytes that it puts into the
-- buffer; one that fails takes nothing from the stream.
pub record AsyncRead (R : Type 0) : Type 0 where
  pub read : R → Buffer → R × IoResult ℕ × Buffer
  pub given : R → List ℕ
  pub read_gives :
      (r : R) (b : Buffer) (n : ℕ)
      → (read r b).1 ≡ ok n
      → (length ((read r b).2).bytes ≡ n) × (given (read r b).0 ≡ given r ++ ((read r b).2).bytes)
  pub read_fails :
      (r : R) (b : Buffer) (e : IoError) → (read r b).1 ≡ err e → given (read r b).0 ≡ given r

-- `written` is all that was written so far. A write sends the first bytes of the buffer, which it
-- gives back, and says how many; one that fails, and a flush, send none.
pub record AsyncWrite (W : Type 0) : Type 0 where
  pub write : W → IoBufWithCursor → W × IoResult ℕ × IoBufWithCursor
  pub flush : W → W × IoResult (Unit {0})
  pub written : W → List ℕ
  pub write_sends :
      (w : W) (b : IoBufWithCursor) (n : ℕ)
      → (write w b).1 ≡ ok n
      → (n ≤ buf_len b)
        × (written (write w b).0 ≡ written w ++ take n (as_buf_ptr b))
        × ((write w b).2 ≡ b)
  pub write_fails :
      (w : W) (b : IoBufWithCursor) (e : IoError)
      → (write w b).1 ≡ err e
      → written (write w b).0 ≡ written w
  pub flush_keeps : (w : W) → written (flush w).0 ≡ written w
