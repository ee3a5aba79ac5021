-- ===== src/Ops/Memory/Fresh.antt =====
-- The invariant when a token is given out, and when an operation leaves its memory with the driver.
use zincio.Prelude.{
  ℕ, ◌/◌, ◌%◌, ◌<◌, ◌≡◌, ◌≢◌, ◌⊎◌, ◌^◌, inl, inr, refl, sym, subst, ap, ◌∙◌, none, some, List, [],
  ◌∷◌, ◌++◌, In-append, count, arith,
}
use zincio.Drivers.Slab.{Slab}
use zincio.Drivers.Uring.{Entry, Completion, encode_completion_key}
use zincio.Ops.Memory.{LiveOp, set_op}
use zincio.Ops.Memory.Safety.{
  IsKnown, IsSafe, Ops, count-In, count-keys, dec_token, decode_key, fresh, keys, new_token,
  same_at, same_op, same_token, set_op-cases, set_op_other, set_op_self, stored_other, stored_self,
}

module _ {C : Type 0} ⦃completions : Slab Completion C⦄ where
  pub vacant_other :
      (cs : C) (u : ℕ) (d a : Completion)
      → completions.get cs u ≡ some d
      → (completions.next_key cs ≢ u) × (completions.get (completions.insert cs a) u ≡ some d)
  vacant_other cs u d a at =
      let ne : completions.next_key cs ≢ u =
        λ e. ground (arith, ap (λ v. completions.get cs v) e, completions.next_key_vacant cs) in
      (ne, ground (arith, completions.get-insert cs a u))

  inserted_self :
      (cs : C) (a : Completion)
      → completions.get (completions.insert cs a) (completions.next_key cs) ≡ some a
  inserted_self cs a = ground (arith, completions.get-insert cs a (completions.next_key cs))

  abbrev pub new_entry : C → LiveOp → Entry
  new_entry cs op = record {
    user_data = encode_completion_key (completions.next_key cs);
    memory = op.memory;
  }

  abbrev with_token : C → LiveOp → LiveOp
  with_token cs op = record op { completion_token = some (completions.next_key cs) }

  no_entry :
      (cs : C) (es : List Entry) (ops : Ops) (k : ℕ)
      → IsSafe cs es ops
      → k % 4 ≡ 1
      → k / 4 ≡ completions.next_key cs
      → count k (keys es) ≡ 0
  no_entry cs es ops k safe kind is_next = elim (dec_token (count k (keys es)) 0) [
    | inl e ↦ e
    | inr ne ↦
        let (e, m, same) = count-In k es (omega arith) in
        let (d, at, running, owner) = safe.owned e m (ap (λ v. v % 4) same ∙ kind) in
        absurd ((vacant_other cs (e.user_data / 4) d d at).0 (sym (ap (λ v. v / 4) same ∙ is_next)))
  ]

  pub insert-IsSafe :
      (cs : C) (es : List Entry) (ops : Ops) (i : ℕ) (op : LiveOp) (waker : ℕ)
      → IsSafe cs es ops
      → ops i ≡ some op
      → op.completion_token ≡ none
      → completions.next_key cs < 2 ^ 62
      → IsSafe
          (completions.insert cs (fresh waker))
          (es ++ new_entry cs op ∷ [])
          (set_op ops i (some (with_token cs op)))
  insert-IsSafe cs es ops i op waker safe found unset small = record {
    live = λ j p u h k. elim (set_op-cases ops i j (some (with_token cs op)) p h) [
      | inl (e, same) ↦ (
        fresh waker,
        subst (λ v. completions.get (completions.insert cs (fresh waker)) v ≡ some (fresh waker))
            (new_token (completions.next_key cs) u op p same k) (inserted_self cs (fresh waker)),
        refl,
      )
      | inr (ne, old) ↦
          let (d, at, unignored) = safe.live j p u old k in
          (d, (vacant_other cs u d (fresh waker) at).1, unignored)
    ];
    distinct = λ j l o p u h k m n. elim (set_op-cases ops i j (some (with_token cs op)) o h) [
      | inl (e, same) ↦ elim (set_op-cases ops i l (some (with_token cs op)) p k) [
        | inl (e', same') ↦ e ∙ sym e'
        | inr (ne, old) ↦
            absurd (not_new l p u old n (new_token (completions.next_key cs) u op o same m))
      ]
      | inr (ne, old) ↦ elim (set_op-cases ops i l (some (with_token cs op)) p k) [
        | inl (e, same) ↦
            absurd (not_new j o u old m (new_token (completions.next_key cs) u op p same n))
        | inr (ne', old') ↦ safe.distinct j l o p u old old' m n
      ]
    ];
    once = λ k kind. elim (dec_token k (encode_completion_key (completions.next_key cs))) [
      | inl e ↦ ground (
        arith,
        count-keys k es (new_entry cs op ∷ []),
        no_entry cs es ops k safe kind
            (ap (λ v. v / 4) e ∙ (decode_key (completions.next_key cs) small).1),
      )
      | inr ne ↦ ground (arith, count-keys k es (new_entry cs op ∷ []), safe.once k kind)
    ];
    known = λ x m. elim (In-append x es (new_entry cs op ∷ []) m) [
      | inl old ↦ safe.known x old
      | inr (inl same) ↦
          subst (λ y. IsKnown y) (sym same)
            (inl (λ e. ground (arith, (decode_key (completions.next_key cs) small).0)))
      | inr (inr never) ↦ absurd never
    ];
    owned = λ x m k. elim (In-append x es (new_entry cs op ∷ []) m) [
      | inl old ↦
          let (d, at, running, owner) = safe.owned x old k in
          (
            d,
            (vacant_other cs (x.user_data / 4) d (fresh waker) at).1,
            running,
            elim owner [
              | inl left ↦ inl left
              | inr (j, q, a, b, same) ↦ inr (
                j,
                q,
                set_op_other ops i j (some (with_token cs op))
                      (λ e. no_token q (x.user_data / 4) (same_op ops i j op q found a e) b)
                    ∙ a,
                b,
                same,
              )
            ],
          )
      | inr (inl same) ↦
          let decoded : completions.next_key cs ≡ x.user_data / 4 =
            sym (ap (λ y. y.user_data / 4) same ∙ (decode_key (completions.next_key cs) small).1) in
          (
            fresh waker,
            subst
                (λ v. completions.get (completions.insert cs (fresh waker)) v ≡ some (fresh waker))
                decoded (inserted_self cs (fresh waker)),
            refl,
            inr (
              i,
              with_token cs op,
              set_op_self ops i (some (with_token cs op)),
              ap (λ v. some v) decoded,
              ap (λ y. y.memory) (sym same),
            ),
          )
      | inr (inr never) ↦ absurd never
    ];
  }
    where
      not_new :
          (j : ℕ) (p : LiveOp) (u : ℕ)
          → ops j ≡ some p
          → p.completion_token ≡ some u
          → completions.next_key cs ≢ u
      not_new j p u old k =
          let (d, at, unignored) = safe.live j p u old k in (vacant_other cs u d (fresh waker) at).0

      no_token : (q : LiveOp) (u : ℕ) → q ≡ op → q.completion_token ≢ some u
      no_token q u e k = cc

  -- The operation is dropped and leaves its memory with the completion.
  pub ignore-IsSafe :
      (cs : C) (es : List Entry) (ops : Ops) (i : ℕ) (op : LiveOp) (t : ℕ) (c : Completion)
      → IsSafe cs es ops
      → ops i ≡ some op
      → op.completion_token ≡ some t
      → completions.get cs t ≡ some c
      → IsSafe
          (completions.store cs t (record c { ignored_data = some op.memory }))
          es
          (set_op ops i none)
  ignore-IsSafe cs es ops i op t c safe found has_token at = record {
    live = λ j p u h k. elim (set_op-cases ops i j none p h) [
      | inl (e, same) ↦ ground arith
      | inr (ne, old) ↦
          let (d, there, unignored) = safe.live j p u old k in
          (
            d,
            stored_other cs t u c left at
                  (λ e. ne (safe.distinct j i p op u old found k (has_token ∙ ap (λ v. some v) e)))
                ∙ there,
            unignored,
          )
    ];
    distinct = λ j l o p u h k m n. elim (set_op-cases ops i j none o h) [
      | inl (e, same) ↦ ground arith
      | inr (ne, old) ↦ elim (set_op-cases ops i l none p k) [
        | inl (e, same) ↦ ground arith
        | inr (ne', old') ↦ safe.distinct j l o p u old old' m n
      ]
    ];
    once = safe.once;
    known = safe.known;
    owned = λ x m k.
        let (d, there, running, owner) = safe.owned x m k in
        elim (dec_token t (x.user_data / 4)) [
          | inl eq ↦ (
            left,
            subst (λ v. completions.get (completions.store cs t left) v ≡ some left) eq
                (stored_self cs t c left at),
            ap (λ y. y.completed) (sym (same_at cs t (x.user_data / 4) c d at there eq)) ∙ running,
            inl (ap (λ v. some v) (owner_is x d there eq owner)),
          )
          | inr ne ↦ (
            d,
            stored_other cs t (x.user_data / 4) c left at ne ∙ there,
            running,
            elim owner [
              | inl kept ↦ inl kept
              | inr (j, q, a, b, same) ↦ inr (
                j,
                q,
                set_op_other ops i j none (λ e. ne (
                      same_token op q t (x.user_data / 4) (same_op ops i j op q found a e) has_token
                        b))
                    ∙ a,
                b,
                same,
              )
            ],
          )
        ];
  }
    where
      left : Completion
      left = record c { ignored_data = some op.memory }

      kept_twice :
          {m : List ℕ} (d d' : Completion)
          → d' ≡ d
          → d'.ignored_data ≡ none
          → d.ignored_data ≢ some m
      kept_twice d d' e k h = cc

      owner_is :
          (x : Entry) (d : Completion)
          → completions.get cs (x.user_data / 4) ≡ some d
          → t ≡ x.user_data / 4
          → ((d.ignored_data ≡ some x.memory)
              ⊎ ((j : ℕ) × (q : LiveOp) × (ops j ≡ some q)
                  × (q.completion_token ≡ some (x.user_data / 4))
                  × (q.memory ≡ x.memory)))
          → op.memory ≡ x.memory
      owner_is x d there eq (inl kept) =
          let (d', there', unignored) = safe.live i op t found has_token in
          absurd (
            kept_twice d d' (same_at cs (x.user_data / 4) t d d' there there' (sym eq)) unignored
              kept)
      owner_is x d there eq (inr (j, q, a, b, same)) =
          ap (λ y. y.memory)
            (sym (
              same_op ops i j op q found a
                (safe.distinct j i q op t a found (b ∙ ap (λ v. some v) (sym eq)) has_token)))
          ∙ same
