-- ===== src/Io/Copy.antt =====
-- `copy` (io/util.rs). Both loops take fuel: the inner one the bytes that are left to write, which
-- is always enough; the outer one is given its fuel.
pub mod Transfer
pub mod Whole
use zincio.Prelude.{
  ◌≡◌, ◌⊎◌, inl, inr, refl, ℕ, zero, suc, ◌+◌, ◌-◌, Bool, true, false, List, [], min, ◌==◌, u64_mod,
}
use zincio.Io.Buf.{Buffer, IoBufWithCursor, new, advance, into_inner, buf_len, set_buf_init}
use zincio.Io.Stream.{AsyncRead, AsyncWrite, IoError, write_zero, other, IoResult, ok, err}

-- A result, or that the fuel ran out.
pub data Run (A : Type 0) : Type 0 where
  returns : IoResult A → Run A
  out_of_fuel : Run A

pub Run-cases :
    {A : Type 0} (x : Run A)
    → ((a : A) × (x ≡ returns (ok a))) ⊎ ((e : IoError) × (x ≡ returns (err e))) ⊎ (x ≡ out_of_fuel)
Run-cases (returns (ok a)) = inl (a, refl)
Run-cases (returns (err e)) = inr (inl (e, refl))
Run-cases out_of_fuel = inr (inr refl)

abbrev pub saturating_add : ℕ → ℕ → ℕ
saturating_add a b = min (a + b) (u64_mod - 1)

module _ {W : Type 0} ⦃writer : AsyncWrite W⦄ where
  -- `while cursor_buf.buf_len() > 0`.
  unfoldable pub write_all : ℕ → W → IoBufWithCursor → W × Run IoBufWithCursor
  write_all zero w b = elim (buf_len b == 0) [
    | true ↦ (w, returns (ok b))
    | false ↦ (w, out_of_fuel)
  ]
  write_all (suc fuel) w b = elim (buf_len b == 0) [
    | true ↦ (w, returns (ok b))
    | false ↦
        let (w', answer, returned) = writer.write w b in
        elim answer [
          | ok n ↦ elim (n == 0) [
            | true ↦ (w', returns (err write_zero))
            | false ↦ write_all fuel w' (advance returned n)
          ]
          | err e ↦ (w', returns (err e))
        ]
  ]

  -- `writer.flush().await?; Ok(copied)`
  unfoldable pub finish : W → ℕ → W × Run ℕ
  finish w copied =
      let (w', answer) = writer.flush w in
      elim answer [ ok u ↦ (w', returns (ok copied)) | err e ↦ (w', returns (err e)) ]

module _ {R W : Type 0} ⦃reader : AsyncRead R⦄ ⦃writer : AsyncWrite W⦄ where
  unfoldable pub copy_loop : ℕ → R → W → Buffer → ℕ → R × W × Run ℕ
  copy_loop zero r w buffer copied = (r, w, out_of_fuel)
  copy_loop (suc fuel) r w buffer copied =
      let (r', answer, filled) = reader.read r buffer in
      elim answer [
        | ok n ↦ elim (n == 0) [
          | true ↦ let (w', res) = finish w copied in (r', w', res)
          | false ↦
              let (w', sent) = write_all (buf_len (new filled)) w (new filled) in
              elim sent [
                | returns res ↦ elim res [
                  | ok b ↦
                      copy_loop fuel r' w' (set_buf_init (into_inner b) 0) (saturating_add copied n)
                  | err e ↦ (r', w', returns (err e))
                ]
                | out_of_fuel ↦ (r', w', out_of_fuel)
              ]
        ]
        | err e ↦ (r', w, returns (err e))
      ]

  unfoldable pub copy : ℕ → R → W → R × W × Run ℕ
  copy fuel r w = copy_loop fuel r w (record { bytes = []; capacity = 8192 }) 0
