-- ===== src/Drivers/Uring/Keys.antt =====
-- The keys of entries (driver/uring.rs): what is encoded in them is read back, and no two kinds of
-- entries have a key in common.
use zincio.Prelude.{ℕ, ◌-◌, ◌<◌, ◌≡◌, ◌≢◌, ◌^◌, Bool, true, false, ◌==◌, arith}
use zincio.Drivers.Uring.{
  completion_key_kind, poll_write_key_kind, interrupt_key, timeout_key, encode_completion_key,
  encode_poll_key, decode_token, decode_key_kind,
}

-- Neither of the two keys that have no token.
abbrev pub IsTokenKey : ℕ → Type 0
IsTokenKey key = (key ≢ interrupt_key) × (key ≢ timeout_key)

not_reserved : (key : ℕ) → key ≢ interrupt_key → key ≢ timeout_key → IsTokenKey key
not_reserved key a b = (a, b)

-- For a token below 2 ^ 62 - 1, the key of a completion and the keys of both polls give back the
-- token and the kind, and the side of the poll; the three kinds differ, and none of the keys is that
-- of the interrupt or of the timeout.
pub decode-encode :
    (token : ℕ) (write : Bool)
    → token < 2 ^ 62 - 1
    → ((decode_token (encode_completion_key token) ≡ token)
        × (decode_key_kind (encode_completion_key token) ≡ completion_key_kind)
        × IsTokenKey (encode_completion_key token))
      × (decode_token (encode_poll_key token write) ≡ token)
      × (decode_key_kind (encode_poll_key token write) ≢ completion_key_kind)
      × ((decode_key_kind (encode_poll_key token write) == poll_write_key_kind) ≡ write)
      × IsTokenKey (encode_poll_key token write)
unfolding encode_completion_key encode_poll_key decode_token decode_key_kind
decode-encode token true h = (
  (omega arith, omega arith, not_reserved _ (λ e. omega arith) (λ e. omega arith)),
  omega arith,
  (λ e. omega arith),
  ground arith,
  not_reserved _ (λ e. omega arith) (λ e. omega arith),
)
decode-encode token false h = (
  (omega arith, omega arith, not_reserved _ (λ e. omega arith) (λ e. omega arith)),
  omega arith,
  (λ e. omega arith),
  ground arith,
  not_reserved _ (λ e. omega arith) (λ e. omega arith),
)
