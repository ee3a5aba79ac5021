-- ===== src/Io/Buf.antt =====
-- Buffers (io/buf.rs): the `Vec<u8>`, and the cursor that `copy` puts around it. A byte is a number;
-- what a pointer and a length give is the list of the initialised bytes from the pointer on.
use zincio.Prelude.{
  ℕ, zero, suc, ◌+◌, ◌-◌, ◌≡◌, refl, List, [], ◌∷◌, ◌++◌, length, take, drop, arith, ap, sym, ◌∙◌,
}

pub record Buffer : Type 0 where
  pub bytes : List ℕ
  pub capacity : ℕ

pub record IoBufWithCursor : Type 0 where
  pub buf : Buffer
  pub cursor : ℕ

-- `Vec::set_len`, for a length that is not above the present one.
unfoldable pub set_buf_init : Buffer → ℕ → Buffer
set_buf_init b len = record b { bytes = take len b.bytes }

unfoldable pub new : Buffer → IoBufWithCursor
new buf = record { buf = buf; cursor = 0 }

unfoldable pub advance : IoBufWithCursor → ℕ → IoBufWithCursor
advance b n = record b { cursor = b.cursor + n }

unfoldable pub into_inner : IoBufWithCursor → Buffer
into_inner b = b.buf

unfoldable pub buf_len : IoBufWithCursor → ℕ
buf_len b = length b.buf.bytes - b.cursor

-- `as_buf_ptr`: what a writer sees.
unfoldable pub as_buf_ptr : IoBufWithCursor → List ℕ
as_buf_ptr b = drop b.cursor b.buf.bytes

length-drop : (n : ℕ) (xs : List ℕ) → length (drop n xs) ≡ length xs - n
length-drop zero xs = omega arith
length-drop (suc n) [] = omega arith
length-drop (suc n) (x ∷ xs) = omega (arith, length-drop n xs)

drop-nil : (n : ℕ) → drop {A = ℕ} n [] ≡ []
drop-nil zero = refl
drop-nil (suc n) = refl

drop-drop : (n m : ℕ) (xs : List ℕ) → drop n (drop m xs) ≡ drop (m + n) xs
drop-drop n zero xs = ap (λ k. drop k xs) (omega arith)
drop-drop n (suc m) [] = drop-nil n ∙ sym (drop-nil (suc m + n))
drop-drop n (suc m) (x ∷ xs) = drop-drop n m xs ∙ ap (λ k. drop k (x ∷ xs)) (shift m n)
  where
    shift : (m n : ℕ) → suc (m + n) ≡ suc m + n
    shift m n = omega arith

pub take-append-drop : (n : ℕ) (xs : List ℕ) → take n xs ++ drop n xs ≡ xs
take-append-drop zero xs = refl
take-append-drop (suc n) [] = refl
take-append-drop (suc n) (x ∷ xs) = ap (λ ys. x ∷ ys) (take-append-drop n xs)

pub buf_len_lem : (b : IoBufWithCursor) → buf_len b ≡ length (as_buf_ptr b)
unfolding buf_len as_buf_ptr
buf_len_lem b = omega (arith, length-drop b.cursor b.buf.bytes)

-- A write of `n` bytes is a prefix of what the buffer holds, and the advanced buffer holds the rest.
pub advance_splits :
    (b : IoBufWithCursor) (n : ℕ) → take n (as_buf_ptr b) ++ as_buf_ptr (advance b n) ≡ as_buf_ptr b
unfolding as_buf_ptr advance
advance_splits b n =
    ap (λ ys. take n (drop b.cursor b.buf.bytes) ++ ys) (sym (drop-drop n b.cursor b.buf.bytes))
    ∙ take-append-drop n (drop b.cursor b.buf.bytes)

pub length-advance : (b : IoBufWithCursor) (n : ℕ) → buf_len (advance b n) ≡ buf_len b - n
unfolding buf_len advance
length-advance b n = omega arith
