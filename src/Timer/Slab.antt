-- ===== src/Timer/Slab.antt =====
-- What the wheel uses of the third-party `slab` crate, with the documented behaviour of each call.
use zincio.Prelude.{ℕ, ◌≡◌, ◌≢◌, ◌↔◌, Bool, true, Option, none, some, ◌==◌, if◌then◌else◌}

-- A waker is named by the task that it wakes.
abbrev pub Waker : Type 0
Waker = ℕ

pub record TimerEntry : Type 0 where
  pub waker : Waker
  pub expiration_tick : ℕ
  pub generation : ℕ
  pub level : ℕ
  pub slot : ℕ

-- `store s i e` is a write through `get_mut(i)`; a key is vacant when `get` gives `none`.
pub record Slab (S : Type 0) : Type 0 where
  pub new : S
  pub get : S → ℕ → Option TimerEntry
  pub insert : S → TimerEntry → S
  pub next_key : S → ℕ
  pub store : S → ℕ → TimerEntry → S
  pub remove : S → ℕ → S
  pub is_empty : S → Bool
  pub get-new : (i : ℕ) → get new i ≡ none
  pub next_key_vacant : (s : S) → get s (next_key s) ≡ none
  pub get-insert :
      (s : S) (e : TimerEntry) (i : ℕ)
      → get (insert s e) i ≡ (if next_key s == i then some e else get s i)
  pub get-store :
      (s : S) (k : ℕ) (e : TimerEntry) (i : ℕ)
      → get s k ≢ none
      → get (store s k e) i ≡ (if k == i then some e else get s i)
  pub get-remove : (s : S) (k i : ℕ) → get (remove s k) i ≡ (if k == i then none else get s i)
  pub is_empty_iff : (s : S) → (is_empty s ≡ true) ↔ ((i : ℕ) → get s i ≡ none)
