-- ===== src/Drivers/Uring/Polls/Armed.antt =====
-- Every waiter of a poll registration has a poll in flight that will wake it, in every state that
-- `UringDriver` reaches.
use zincio.Prelude.{
  ℕ, ◌-◌, ◌<◌, ◌≡◌, ◌≢◌, ◌⊎◌, ◌^◌, inl, inr, sym, subst, ap, ◌∙◌, Bool, true, false, Option, none,
  some, List, ◌∷◌, ◌++◌, In, In-append, In-append_left, In-append_right, Option-cases, arith,
}
use zincio.Drivers.Slab.{Slab}
use zincio.Drivers.Uring.{
  Entry, encode_poll_key, PollRegistration, HandleRegistration, completion, poll,
}
use zincio.Drivers.Uring.Polls.{waiter, armed, set_side, drain_poll}

-- A poll of that side of that registration is in flight.
abbrev pub InFlight : List Entry → ℕ → Bool → Type 0
InFlight es t write = (e : Entry) × In e es × (e.user_data ≡ encode_poll_key t write)

-- What holds of one side of one registration.
pub record IsGood (es : List Entry) (t : ℕ) (p : PollRegistration) (write : Bool) : Type 0 where
  pub awaited : (k : ℕ) → waiter p write ≡ some k → armed p write ≡ true
  pub in_flight : armed p write ≡ true → InFlight es t write

pub set_side-IsGood :
    (es : List Entry) (t : ℕ) (p : PollRegistration) (write : Bool) (x : Option ℕ) (a : Bool)
    → ((v : Bool) → IsGood es t p v)
    → ((k : ℕ) → x ≡ some k → a ≡ true)
    → (a ≡ true → InFlight es t write)
    → (v : Bool) → IsGood es t (set_side p write x a) v
set_side-IsGood es t p true x a good b c true = record { awaited = b; in_flight = c }
set_side-IsGood es t p true x a good b c false = record {
  awaited = (good false).awaited;
  in_flight = (good false).in_flight;
}
set_side-IsGood es t p false x a good b c true = record {
  awaited = (good true).awaited;
  in_flight = (good true).in_flight;
}
set_side-IsGood es t p false x a good b c false = record { awaited = b; in_flight = c }

pub clear_side-IsGood :
    (es : List Entry) (t : ℕ) (p : PollRegistration) (write : Bool)
    → ((v : Bool) → IsGood es t p v)
    → (v : Bool) → IsGood es t (set_side p write none false) v
clear_side-IsGood es t p write good =
    set_side-IsGood es t p write none false good (λ k e. cc) (λ e. cc)

later-InFlight :
    (es fs : List Entry) (t : ℕ) (write : Bool) → InFlight es t write → InFlight (es ++ fs) t write
later-InFlight es fs t write (e, m, key) = (e, In-append_left e es fs m, key)

pub more-IsGood :
    (es fs : List Entry) (t : ℕ) (p : PollRegistration) (write : Bool)
    → IsGood es t p write
    → IsGood (es ++ fs) t p write
more-IsGood es fs t p write good = record {
  awaited = good.awaited;
  in_flight = λ a. later-InFlight es fs t write (good.in_flight a);
}

same_poll : (p q : PollRegistration) → poll p ≡ poll q → p ≡ q
same_poll p q e = cc

clear_is_clear :
    (p : PollRegistration) (write : Bool) → armed (set_side p write none false) write ≢ true
clear_is_clear p true e = cc
clear_is_clear p false e = cc

module _ {R : Type 0} ⦃registrations : Slab HandleRegistration R⦄ where
  pub record IsArmed (rs : R) (es : List Entry) : Type 0 where
    pub small : (t : ℕ) (r : HandleRegistration) → registrations.get rs t ≡ some r → t < 2 ^ 62 - 1
    pub good :
        (t : ℕ) (p : PollRegistration)
        → registrations.get rs t ≡ some (poll p)
        → (write : Bool) → IsGood es t p write

  get-store-cases :
      (rs : R) (t u : ℕ) (r a b : HandleRegistration)
      → registrations.get rs t ≡ some r
      → registrations.get (registrations.store rs t a) u ≡ some b
      → ((t ≡ u) × (a ≡ b)) ⊎ ((t ≢ u) × (registrations.get rs u ≡ some b))
  get-store-cases rs t u r a b found at = ground (arith, registrations.get-store rs t a u (λ e. cc))

  pub store-IsArmed :
      (rs : R) (es : List Entry) (t : ℕ) (r : HandleRegistration) (p : PollRegistration)
      → IsArmed rs es
      → registrations.get rs t ≡ some r
      → ((write : Bool) → IsGood es t p write)
      → IsArmed (registrations.store rs t (poll p)) es
  store-IsArmed rs es t r p safe found good = record {
    small = λ u b at. elim (get-store-cases rs t u r (poll p) b found at) [
      | inl (e, same) ↦ subst (λ v. v < 2 ^ 62 - 1) e (safe.small t r found)
      | inr (ne, old) ↦ safe.small u b old
    ];
    good = λ u q at write. elim (get-store-cases rs t u r (poll p) (poll q) found at) [
      | inl (e, same) ↦
          subst (λ v. IsGood es v q write) e
            (subst (λ v. IsGood es t v write) (same_poll p q same) (good write))
      | inr (ne, old) ↦ safe.good u q old write
    ];
  }

  pub more-IsArmed : (rs : R) (es fs : List Entry) → IsArmed rs es → IsArmed rs (es ++ fs)
  more-IsArmed rs es fs safe = record {
    small = safe.small;
    good = λ t p at write. more-IsGood es fs t p write (safe.good t p at write);
  }

  pub insert-IsArmed :
      (rs : R) (es : List Entry) (r : HandleRegistration)
      → IsArmed rs es
      → registrations.next_key rs < 2 ^ 62 - 1
      → ((t : ℕ) (p : PollRegistration) (write : Bool) → r ≡ poll p → IsGood es t p write)
      → IsArmed (registrations.insert rs r) es
  insert-IsArmed rs es r safe room new = record {
    small = λ u b at. elim (get-insert-cases u b at) [
      | inl (e, same) ↦ subst (λ v. v < 2 ^ 62 - 1) e room
      | inr old ↦ safe.small u b old
    ];
    good = λ u q at write. elim (get-insert-cases u (poll q) at) [
      | inl (e, same) ↦ new u q write same
      | inr old ↦ safe.good u q old write
    ];
  }
    where
      get-insert-cases :
          (u : ℕ) (b : HandleRegistration)
          → registrations.get (registrations.insert rs r) u ≡ some b
          → ((registrations.next_key rs ≡ u) × (r ≡ b)) ⊎ (registrations.get rs u ≡ some b)
      get-insert-cases u b at = ground (arith, registrations.get-insert rs r u)

  pub remove-IsArmed :
      (rs : R) (es : List Entry) (t : ℕ) → IsArmed rs es → IsArmed (registrations.remove rs t) es
  remove-IsArmed rs es t safe = record {
    small = λ u b at. safe.small u b (kept u b at);
    good = λ u p at write. safe.good u p (kept u (poll p) at) write;
  }
    where
      kept :
          (u : ℕ) (b : HandleRegistration)
          → registrations.get (registrations.remove rs t) u ≡ some b
          → registrations.get rs u ≡ some b
      kept u b at = ground (arith, registrations.get-remove rs t u)

  -- An entry that is not the poll of an armed side is gone.
  pub less-IsArmed :
      (rs : R) (front back : List Entry) (e : Entry)
      → IsArmed rs (front ++ e ∷ back)
      → ((t : ℕ) (p : PollRegistration) (write : Bool)
          → registrations.get rs t ≡ some (poll p)
          → armed p write ≡ true
          → e.user_data ≢ encode_poll_key t write)
      → IsArmed rs (front ++ back)
  less-IsArmed rs front back e safe other_key = record {
    small = safe.small;
    good = λ t p at write. record {
      awaited = (safe.good t p at write).awaited;
      in_flight = λ a.
          let (x, m, key) = (safe.good t p at write).in_flight a in
          (
            x,
            elim (In-append x front (e ∷ back) m) [
              | inl l ↦ In-append_left x front back l
              | inr (inl same) ↦
                  absurd (other_key t p write at a (ap (λ y. y.user_data) (sym same) ∙ key))
              | inr (inr r) ↦ In-append_right x front back r
            ],
            key,
          );
    };
  }

  -- The completion of a poll is drained: its side is clear when its entry is gone.
  pub drained-IsArmed :
      (rs : R) (front back : List Entry) (e : Entry) (token : ℕ) (write : Bool)
      → IsArmed rs (front ++ e ∷ back)
      → ((t : ℕ) (v : Bool)
          → t < 2 ^ 62 - 1
          → e.user_data ≡ encode_poll_key t v
          → (token ≡ t) × (write ≡ v))
      → IsArmed (drain_poll rs token write).0 (front ++ back)
  unfolding drain_poll
  drained-IsArmed rs front back e token write safe decoded =
      elim (Option-cases (registrations.get rs token)) [
        | inl nothing ↦
            rw (nothing, drain_poll)
              (less-IsArmed rs front back e safe
                (λ t p v at a key. elsewhere t p v at key (λ q found. cc)))
        | inr (completion, found) ↦
            rw (found, drain_poll)
              (less-IsArmed rs front back e safe
                (λ t p v at a key. elsewhere t p v at key (λ q there. cc)))
        | inr (poll p, found) ↦
            rw (found, drain_poll)
              (less-IsArmed (registrations.store rs token (poll (set_side p write none false)))
                front back e (cleared p found)
                (λ t p' v at a key.
                  let (same_token, same_side) =
                    decoded t v ((cleared p found).small t (poll p') at) key in
                  elim (get-store-cases rs token t (poll p) (poll (set_side p write none false))
                    (poll p') found at) [
                      | inl (e', same) ↦ not_armed p p' v same_side same a
                      | inr (ne, old) ↦ ne same_token
                    ]))
      ]
    where
      cleared :
          (p : PollRegistration)
          → registrations.get rs token ≡ some (poll p)
          → IsArmed
              (registrations.store rs token (poll (set_side p write none false)))
              (front ++ e ∷ back)
      cleared p found =
          store-IsArmed rs (front ++ e ∷ back) token (poll p) (set_side p write none false) safe
            found (clear_side-IsGood (front ++ e ∷ back) token p write (safe.good token p found))

      not_armed :
          (p p' : PollRegistration) (v : Bool)
          → write ≡ v
          → poll (set_side p write none false) ≡ poll p'
          → armed p' v ≢ true
      not_armed p p' v side same a = absurd (
          clear_is_clear p write (
            ap (λ x. armed x write) (same_poll (set_side p write none false) p' same)
            ∙ ap (λ x. armed p' x) side
            ∙ a))

      elsewhere :
          (t : ℕ) (p : PollRegistration) (v : Bool)
          → registrations.get rs t ≡ some (poll p)
          → e.user_data ≡ encode_poll_key t v
          → ((q : PollRegistration) → registrations.get rs token ≢ some (poll q))
          → ⊥
      elsewhere t p v at key none_there =
          none_there p
            (ap (λ u. registrations.get rs u) (decoded t v (safe.small t (poll p) at) key).0 ∙ at)
