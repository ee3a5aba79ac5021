-- ===== src/Fs/Tests.antt =====
-- The theorems on the options, for a file to append to.
use zincio.Prelude.{ℕ, ◌≤◌, some, List, inl, inr, arith, ltb, Bool-cases, subst}
use zincio.Io.Stream.{IoResult, ok}
use zincio.Io.Buf.{Buffer}
use zincio.Io.Buf as Buf
use zincio.Fs.File.{read_exact_at, write_exact_at}
use zincio.Fs.File.Exact.{IsHonest, Sends}
use zincio.Fs.File.Exact as Exact
use zincio.Prelude.{◌≡◌, refl, false, [], ◌∷◌, if◌then◌else◌}
use zincio.Fs.OpenOptions.{append, create, has, set, fine, validate, OpenOp, build_open_op}
use zincio.Fs.OpenOptions.Flags
use zincio.Fs.OpenOptions.Flags.{Opens, same_flag}

has-set_example :
    has (set 20 append false) create ≡ (if same_flag append create then false else has 20 create)
has-set_example = Flags.has-set 20 append create false

-- `append` and `create`.
validated_builds_example :
    (op : OpenOp) × (build_open_op 20 (97 ∷ 98 ∷ []) ≡ fine op) × Opens 20 (97 ∷ 98 ∷ []) op
unfolding validate has
validated_builds_example = Flags.validated_builds 20 (97 ∷ 98 ∷ []) refl refl

-- A vector of four bytes; the system reads one byte, and writes two at a time.
abbrev four_bytes : Buffer
four_bytes = record { bytes = 1 ∷ 2 ∷ 3 ∷ 4 ∷ []; capacity = 8 }

abbrev one_byte : ℕ → IoResult (List ℕ)
one_byte n = ok (9 ∷ [])

abbrev two_at_a_time : ℕ → ℕ → IoResult ℕ
two_at_a_time n len = if ltb len 2 then ok len else ok 2

two_at_a_time-IsHonest : IsHonest two_at_a_time
two_at_a_time-IsHonest n len r h = elim (Bool-cases (ltb len 2)) [
  | inl few ↦ same_count len r (subst (λ o. o ≡ ok r) (rw few refl) h)
  | inr many ↦ ground (arith, same_count 2 r (subst (λ o. o ≡ ok r) (rw many refl) h))
]
  where
    same_ok : (a b : ℕ) → ok a ≡ ok b → a ≡ b
    same_ok a b e = cc

    same_count : (a b : ℕ) → ok a ≡ ok b → b ≤ a
    same_count a b e = omega (arith, same_ok a b e)

read_exact_stops_example :
    read_exact_at 3 one_byte four_bytes 10 ≡ some (ok tt, record { bytes = 9 ∷ []; capacity = 8 })
read_exact_stops_example =
    Exact.read_exact_stops 1 one_byte four_bytes 10 (9 ∷ []) (omega arith) refl (omega arith)

write_exact_at-Sends_example :
    Sends (Buf.new four_bytes) 10 (write_exact_at 5 two_at_a_time four_bytes 10)
write_exact_at-Sends_example =
    Exact.write_exact_at-Sends two_at_a_time four_bytes 10 two_at_a_time-IsHonest (omega arith)
