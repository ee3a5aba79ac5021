-- ===== src/Ops/Memory/Owners.antt =====
-- The invariant when an operation is made, keeps or loses its token, or goes.
use zincio.Prelude.{
  ℕ, ◌/◌, ◌≡◌, ◌≢◌, inl, inr, refl, sym, ap, ◌∙◌, Option, none, some, List, ℕ_discrete,
}
use zincio.Drivers.Slab.{Slab}
use zincio.Drivers.Uring.{Entry, Completion}
use zincio.Ops.Memory.{LiveOp, set_op}
use zincio.Ops.Memory.Safety.{
  IsSafe, ops-IsSafe, set_op-cases, set_op_self, set_op_other, same_op, new_token, IsIdle,
}

vacant_op : (ops : ℕ → Option LiveOp) (i j : ℕ) (q : LiveOp) → ops i ≡ none → ops j ≡ some q → j ≢ i
vacant_op ops i j q vacant a same = cc

own_token :
    (ops : ℕ → Option LiveOp) (i j : ℕ) (op q : LiveOp) (u : ℕ)
    → ops i ≡ some op
    → ops j ≡ some q
    → q.completion_token ≡ some u
    → j ≡ i
    → op.completion_token ≡ some u
own_token ops i j op q u found a b same =
    ap (λ y. y.completion_token) (sym (same_op ops i j op q found a same)) ∙ b

pub set_or_not : (o : Option ℕ) (u : ℕ) → o ≡ none → o ≢ some u
set_or_not o u e k = cc

module _ {C : Type 0} ⦃completions : Slab Completion C⦄ where
  -- A poll that gave the operation no token.
  pub unset-IsSafe :
      (cs : C) (es : List Entry) (ops : ℕ → Option LiveOp) (i : ℕ) (op : LiveOp)
      → IsSafe cs es ops
      → ops i ≡ some op
      → ((t : ℕ) → op.completion_token ≡ some t → IsIdle es t)
      → IsSafe cs es (set_op ops i (some (record op { completion_token = none })))
  unset-IsSafe cs es ops i op safe found idle =
      ops-IsSafe cs es ops _ safe
        (λ j p t h k.
          elim (set_op-cases ops i j (some (record op { completion_token = none })) p h) [
            | inl (e, same) ↦ cc
            | inr (ne, old) ↦ (p, old, k)
          ])
        (λ e j q m k a b. elim (ℕ_discrete j i) [
          | yes same ↦ absurd (
              idle (e.user_data / 4) (own_token ops i j op q (e.user_data / 4) found a b same) e m k
                refl)
          | no ne ↦ (
            q,
            set_op_other ops i j (some (record op { completion_token = none })) ne ∙ a,
            b,
            refl,
          )
        ])

  pub makes-IsSafe :
      (cs : C) (es : List Entry) (ops : ℕ → Option LiveOp) (i : ℕ) (memory : List ℕ)
      → IsSafe cs es ops
      → ops i ≡ none
      → IsSafe cs es (set_op ops i (some (record { completion_token = none; memory = memory })))
  makes-IsSafe cs es ops i memory safe vacant =
      ops-IsSafe cs es ops _ safe
        (λ j p t h k.
          elim (set_op-cases ops i j (some (record { completion_token = none; memory = memory })) p
            h) [ inl (e, same) ↦ cc | inr (ne, old) ↦ (p, old, k) ])
        (λ e j q m k a b. elim (ℕ_discrete j i) [
          | yes same ↦ absurd (vacant_op ops i j q vacant a same)
          | no ne ↦ (
            q,
            set_op_other ops i j (some (record { completion_token = none; memory = memory })) ne
                ∙ a,
            b,
            refl,
          )
        ])

  -- A poll of an operation that keeps its token.
  pub same-IsSafe :
      (cs : C) (es : List Entry) (ops : ℕ → Option LiveOp) (i : ℕ) (op : LiveOp) (t : ℕ)
      → IsSafe cs es ops
      → ops i ≡ some op
      → op.completion_token ≡ some t
      → IsSafe cs es (set_op ops i (some (record op { completion_token = some t })))
  same-IsSafe cs es ops i op t safe found has_token =
      ops-IsSafe cs es ops _ safe
        (λ j p u h k.
          elim (set_op-cases ops i j (some (record op { completion_token = some t })) p h) [
            | inl (e, same) ↦ (
              op,
              ap (λ v. ops v) e ∙ found,
              has_token ∙ ap (λ v. some v) (new_token t u op p same k),
            )
            | inr (ne, old) ↦ (p, old, k)
          ])
        (λ e j q m k a b. elim (ℕ_discrete j i) [
          | yes same ↦ (
            record op { completion_token = some t },
            ap (λ v. set_op ops i (some (record op { completion_token = some t })) v) same
                ∙ set_op_self ops i (some (record op { completion_token = some t })),
            sym has_token ∙ own_token ops i j op q (e.user_data / 4) found a b same,
            ap (λ y. y.memory) (sym (same_op ops i j op q found a same)),
          )
          | no ne ↦ (
            q,
            set_op_other ops i j (some (record op { completion_token = some t })) ne ∙ a,
            b,
            refl,
          )
        ])

  pub gone-IsSafe :
      (cs : C) (es : List Entry) (ops : ℕ → Option LiveOp) (i : ℕ) (op : LiveOp)
      → IsSafe cs es ops
      → ops i ≡ some op
      → op.completion_token ≡ none
      → IsSafe cs es (set_op ops i none)
  gone-IsSafe cs es ops i op safe found unset =
      ops-IsSafe cs es ops _ safe
        (λ j p u h k. elim (set_op-cases ops i j none p h) [
          | inl (e, same) ↦ cc
          | inr (ne, old) ↦ (p, old, k)
        ])
        (λ e j q m k a b. elim (ℕ_discrete j i) [
          | yes same ↦ absurd (
              set_or_not op.completion_token (e.user_data / 4) unset
                (own_token ops i j op q (e.user_data / 4) found a b same))
          | no ne ↦ (q, set_op_other ops i j none ne ∙ a, b, refl)
        ])
