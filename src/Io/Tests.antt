-- ===== src/Io/Tests.antt =====
-- A copy between two lists of bytes, and the theorems on it.
use zincio.Prelude.{
  ℕ, ◌+◌, ◌≤◌, ◌≡◌, refl, ap, List, [], ◌∷◌, ◌++◌, length, length-append, take, drop, arith, min,
}
use zincio.Io.Buf.{
  Buffer, IoBufWithCursor, buf_len, as_buf_ptr, new, advance, into_inner, set_buf_init,
  take-append-drop,
}
use zincio.Io.Stream.{AsyncRead, AsyncWrite, IoResult, ok}
use zincio.Io.Copy.{copy, copy_loop, write_all, finish}
use zincio.Io.Copy.Whole
use zincio.Io.Copy.Whole.{Transfers, IsReturned}

-- The bytes that were given and those that are left.
pub record Source : Type 0 where
  pub past : List ℕ
  pub ahead : List ℕ

-- A read gives at most three bytes.
abbrev read_source : Source → Buffer → Source × IoResult ℕ × Buffer
read_source s b = (
  record { past = s.past ++ take 3 s.ahead; ahead = drop 3 s.ahead },
  ok (length (take 3 s.ahead)),
  record b { bytes = take 3 s.ahead },
)

instance source_reader : AsyncRead Source
source_reader = record {
  read = read_source;
  given = λ s. s.past;
  read_gives = λ s b n h. (ground arith, refl);
  read_fails = λ s b e h. ground arith;
}

-- A write takes two bytes.
abbrev write_sink : List ℕ → IoBufWithCursor → List ℕ × IoResult ℕ × IoBufWithCursor
write_sink bytes b = (bytes ++ take (min 2 (buf_len b)) (as_buf_ptr b), ok (min 2 (buf_len b)), b)

count_of :
    (w : List ℕ) (b : IoBufWithCursor) (n : ℕ) → (write_sink w b).1 ≡ ok n → min 2 (buf_len b) ≡ n
count_of w b n h = cc

instance sink_writer : AsyncWrite (List ℕ)
sink_writer = record {
  write = write_sink;
  flush = λ bytes. (bytes, ok tt);
  written = λ bytes. bytes;
  write_sends = λ w b n h. (
    omega (arith, count_of w b n h),
    ap (λ k. w ++ take k (as_buf_ptr b)) (count_of w b n h),
    refl,
  );
  write_fails = λ w b e h. ground arith;
  flush_keeps = λ w. refl;
}

abbrev no_bytes : List ℕ
no_bytes = []

abbrev five : Source
five = record { past = []; ahead = 1 ∷ 2 ∷ 3 ∷ 4 ∷ 5 ∷ [] }

copied_five : (copy 10 five no_bytes).1 ≡ 1 ∷ 2 ∷ 3 ∷ 4 ∷ 5 ∷ []
unfolding copy copy_loop write_all finish buf_len as_buf_ptr new advance into_inner set_buf_init
    source_reader sink_writer
copied_five = refl

copy-Transfers_example : Transfers five no_bytes 0 (copy 10 five no_bytes)
copy-Transfers_example = Whole.copy-Transfers 10 five no_bytes

gives_left :
    (s : Source) (b : Buffer) (n : ℕ)
    → (read_source s b).1 ≡ ok n
    → length (drop 3 s.ahead) + n ≤ length s.ahead
gives_left s b n h =
    let same : length (take 3 s.ahead) ≡ n = cc in
    omega (
      arith,
      same,
      length-append (take 3 s.ahead) (drop 3 s.ahead),
      ap (λ (xs : List ℕ). length xs) (take-append-drop 3 s.ahead),
    )

copy_returns_example : IsReturned (copy 10 five no_bytes).2
unfolding source_reader
copy_returns_example =
    Whole.copy_returns (λ s. length s.ahead) 10 five no_bytes gives_left (omega arith)
