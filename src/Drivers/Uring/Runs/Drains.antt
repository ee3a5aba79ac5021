-- ===== src/Drivers/Uring/Runs/Drains.antt =====
-- `drain_cq` and the waiters of polls: what is drained is woken, and what is not stays in flight.
use zincio.Prelude.{
  ℕ, ◌-◌, ◌<◌, ◌≡◌, ◌≢◌, ◌^◌, inl, inr, refl, sym, ap, ◌∙◌, Bool, true, false, List, [], ◌∷◌, ◌++◌,
  ◌==◌, ◌||◌, In, In-append_left, In-append_right, Bool-cases, arith,
}
use zincio.Drivers.Slab.{Slab}
use zincio.Drivers.Uring.{
  Entry, encode_poll_key, HandleRegistration, poll, Completion, interrupt_key, timeout_key,
  decode_token, decode_key_kind, poll_read_key_kind, poll_write_key_kind,
}
use zincio.Drivers.Uring.Keys.{decode-encode}
use zincio.Drivers.Uring.Polls.Armed.{IsArmed, less-IsArmed, drained-IsArmed}
use zincio.Drivers.Uring.Queue.{CompletionEntry, Drained, drain_entry, drain_cq}
use zincio.Drivers.Uring.Collect.{Calls}
use zincio.Drivers.Uring.Runs.{IsComplete}

-- The keys that are drained, as entries.
abbrev as_entry : CompletionEntry → Entry
as_entry c = record { user_data = c.user_data; memory = [] }

abbrev pub as_entries : List CompletionEntry → List Entry
as_entries [] = []
as_entries (c ∷ cs) = as_entry c ∷ as_entries cs

In-as_entries :
    (c : CompletionEntry) (cs : List CompletionEntry) → In c cs → In (as_entry c) (as_entries cs)
In-as_entries c [] m = m
In-as_entries c (x ∷ xs) (inl same) = inl (ap (λ y. as_entry y) same)
In-as_entries c (x ∷ xs) (inr later) = inr (In-as_entries c xs later)

-- What a poll key is not.
poll_key :
    (t : ℕ) (write : Bool)
    → t < 2 ^ 62 - 1
    → (encode_poll_key t write ≢ interrupt_key)
      × (encode_poll_key t write ≢ timeout_key)
      × (((decode_key_kind (encode_poll_key t write) == poll_read_key_kind)
            || (decode_key_kind (encode_poll_key t write) == poll_write_key_kind))
          ≡ true)
unfolding encode_poll_key decode_key_kind
poll_key t true h = (λ e. omega arith, λ e. omega arith, ground arith)
poll_key t false h = (λ e. omega arith, λ e. omega arith, ground arith)

module _ {R : Type 0} ⦃registrations : Slab HandleRegistration R⦄ where
  pub covers-IsArmed :
      (rs : R) (es fs : List Entry)
      → IsArmed rs es
      → ((e : Entry) → In e es → (f : Entry) × In f fs × (f.user_data ≡ e.user_data))
      → IsArmed rs fs
  covers-IsArmed rs es fs safe covers = record {
    small = safe.small;
    good = λ t p at write. record {
      awaited = (safe.good t p at write).awaited;
      in_flight = λ a.
          let (e, m, key) = (safe.good t p at write).in_flight a in
          let (f, n, same) = covers e m in (f, n, same ∙ key);
    };
  }

-- Nothing is lost between the entries that were in flight and those that are, or are drained.
pub completed-covers :
    (es : List Entry) (calls : Calls)
    → IsComplete es calls
    → (e : Entry) → In e es
    → (f : Entry) × In f (as_entries calls.completed ++ calls.outstanding)
      × (f.user_data ≡ e.user_data)
completed-covers es calls complete e m = elim (complete e m) [
  | inl left ↦ (e, In-append_right e (as_entries calls.completed) calls.outstanding left, refl)
  | inr (c, n, same) ↦ (
    as_entry c,
    In-append_left (as_entry c) (as_entries calls.completed) calls.outstanding
        (In-as_entries c calls.completed n),
    same,
  )
]

module _ {R C : Type 0} ⦃registrations : Slab HandleRegistration R⦄
    ⦃completions : Slab Completion C⦄ where
  drain_entry-IsArmed :
      (d : Drained R C) (c : CompletionEntry) (left : List Entry)
      → IsArmed d.driver.registrations (as_entry c ∷ left)
      → IsArmed (drain_entry d c).driver.registrations left
  unfolding drain_entry
  drain_entry-IsArmed d c left safe = elim (Bool-cases (c.user_data == interrupt_key)) [
    | inl a ↦ rw a (unpolled (λ t w h e. (poll_key t w h).0 (sym e ∙ is_key interrupt_key a)))
    | inr a ↦ elim (Bool-cases (c.user_data == timeout_key)) [
      | inl b ↦
          rw a (rw b (unpolled (λ t w h e. (poll_key t w h).1 (sym e ∙ is_key timeout_key b))))
      | inr b ↦
          elim (Bool-cases (
            (decode_key_kind c.user_data == poll_read_key_kind)
            || (decode_key_kind c.user_data == poll_write_key_kind))) [
              | inr k ↦ rw a (
                  rw b (
                    rw k (
                      unpolled (λ t w h e. not_both _ k (
                        ap
                          (λ key.
                            (decode_key_kind key == poll_read_key_kind)
                            || (decode_key_kind key == poll_write_key_kind))
                          e
                        ∙ (poll_key t w h).2)))))
              | inl k ↦ rw a (
                  rw b (
                    rw k (
                      drained-IsArmed d.driver.registrations [] left (as_entry c)
                        (decode_token c.user_data)
                        (decode_key_kind c.user_data == poll_write_key_kind) safe
                        (λ t v h e.
                          let (completion_keys, token, kind, side, other) = decode-encode t v h in
                          (
                            ap (λ key. decode_token key) e ∙ token,
                            ap (λ key. decode_key_kind key == poll_write_key_kind) e ∙ side,
                          )))))
            ]
    ]
  ]
    where
      unpolled :
          ((t : ℕ) (write : Bool) → t < 2 ^ 62 - 1 → c.user_data ≢ encode_poll_key t write)
          → IsArmed d.driver.registrations left
      unpolled other =
          less-IsArmed d.driver.registrations [] left (as_entry c) safe
            (λ t p write at a. other t write (safe.small t (poll p) at))

      is_key : (k : ℕ) → (c.user_data == k) ≡ true → c.user_data ≡ k
      is_key k e = ground arith

      not_both : (b : Bool) → b ≡ false → b ≢ true
      not_both b e h = cc

  pub drain_cq-IsArmed :
      (d : Drained R C) (cs : List CompletionEntry) (left : List Entry)
      → IsArmed d.driver.registrations (as_entries cs ++ left)
      → IsArmed (drain_cq d cs).driver.registrations left
  unfolding drain_cq
  drain_cq-IsArmed d [] left safe = safe
  drain_cq-IsArmed d (c ∷ cs) left safe =
      drain_cq-IsArmed (drain_entry d c) cs left
        (drain_entry-IsArmed d c (as_entries cs ++ left) safe)
