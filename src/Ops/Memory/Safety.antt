-- ===== src/Ops/Memory/Safety.antt =====
-- Every region that the kernel may still use is held, through each step of the system.
use zincio.Prelude.{
  ℕ, ◌+◌, ◌/◌, ◌%◌, ◌≤◌, ◌<◌, ◌≡◌, ◌≢◌, ◌⊎◌, ◌^◌, inl, inr, refl, sym, subst, ap, ◌∙◌, Option, none,
  some, List, [], ◌∷◌, ◌++◌, In, In-append, In-append_left, In-append_right, count, count-append,
  arith, ℕ_discrete,
}
use zincio.Drivers.Slab.{Slab}
use zincio.Drivers.Uring.{Entry, Completion, interrupt_key, encode_completion_key}
use zincio.Ops.Memory.{LiveOp, set_op}

abbrev pub Ops : Type 0
Ops = ℕ → Option LiveOp

abbrev pub keys : List Entry → List ℕ
keys [] = []
keys (e ∷ es) = e.user_data ∷ keys es

keys-append : (xs ys : List Entry) → keys (xs ++ ys) ≡ keys xs ++ keys ys
keys-append [] ys = refl
keys-append (x ∷ xs) ys = ap (λ ks. x.user_data ∷ ks) (keys-append xs ys)

pub count-keys :
    (k : ℕ) (xs ys : List Entry) → count k (keys (xs ++ ys)) ≡ count k (keys xs) + count k (keys ys)
count-keys k xs ys = rw (keys-append xs ys) (count-append k (keys xs) (keys ys))

In-count : (e : Entry) (es : List Entry) → In e es → 1 ≤ count e.user_data (keys es)
In-count e [] m = absurd m
In-count e (x ∷ es) (inl same) = rw (ap (λ y. y.user_data) same) (ground arith)
In-count e (x ∷ es) (inr later) = omega (arith, In-count e es later)

pub set_op-cases :
    (ops : Ops) (i j : ℕ) (o : Option LiveOp) (p : LiveOp)
    → set_op ops i o j ≡ some p
    → ((j ≡ i) × (o ≡ some p)) ⊎ ((j ≢ i) × (ops j ≡ some p))
set_op-cases ops i j o p h = ground arith

In-around :
    (x e : Entry) (front back : List Entry) → In x (front ++ back) → In x (front ++ e ∷ back)
In-around x e front back m = elim (In-append x front back m) [
  | inl l ↦ In-append_left x front (e ∷ back) l
  | inr r ↦ In-append_right x front (e ∷ back) (inr r)
]

pub count-In :
    (k : ℕ) (es : List Entry) → 1 ≤ count k (keys es) → (e : Entry) × In e es × (e.user_data ≡ k)
count-In k [] h = absurd (omega arith)
count-In k (x ∷ es) h = elim (ℕ_discrete k x.user_data) [
  | yes same ↦ (x, inl refl, sym same)
  | no ne ↦ let (e, m, same) = count-In k es (ground arith) in (e, inr m, same)
]

pub set_op_self : (ops : Ops) (i : ℕ) (o : Option LiveOp) → set_op ops i o i ≡ o
set_op_self ops i o = ground arith

pub set_op_other : (ops : Ops) (i j : ℕ) (o : Option LiveOp) → j ≢ i → set_op ops i o j ≡ ops j
set_op_other ops i j o ne = ground arith

pub same_op : (ops : Ops) (i j : ℕ) (o p : LiveOp) → ops i ≡ some o → ops j ≡ some p → j ≡ i → p ≡ o
same_op ops i j o p h k e = cc

-- The completion of a new token.
abbrev pub fresh : ℕ → Completion
fresh waker = record { waiter = some waker; completed = none; ignored_data = none }

pub new_token :
    (n u : ℕ) (op p : LiveOp)
    → some (record op { completion_token = some n }) ≡ some p
    → p.completion_token ≡ some u
    → n ≡ u
new_token n u op p same k = cc

pub same_token :
    (op q : LiveOp) (t u : ℕ)
    → q ≡ op
    → op.completion_token ≡ some t
    → q.completion_token ≡ some u
    → t ≡ u
same_token op q t u e k m = cc

-- The key of a token says what it is for.
pub decode_key :
    (t : ℕ) → t < 2 ^ 62 → (encode_completion_key t % 4 ≡ 1) × (encode_completion_key t / 4 ≡ t)
unfolding encode_completion_key
decode_key t h = (omega arith, omega arith)

-- The key is of one of the three kinds, or the key of the interrupt.
abbrev pub IsKnown : Entry → Type 0
IsKnown e = (e.user_data % 4 ≢ 3) ⊎ (e.user_data ≡ interrupt_key)

-- No entry in flight is for the token.
abbrev pub IsIdle : List Entry → ℕ → Type 0
IsIdle es t = (e : Entry) → In e es → e.user_data % 4 ≡ 1 → e.user_data / 4 ≢ t

-- Each token of the new operations was the same operation's before.
abbrev Older : Ops → Ops → Type 0
Older ops ops' =
    (j : ℕ) (p : LiveOp) (t : ℕ)
    → ops' j ≡ some p
    → p.completion_token ≡ some t
    → (q : LiveOp) × (ops j ≡ some q) × (q.completion_token ≡ some t)

-- The owners of entries in flight stay.
abbrev Keeps : List Entry → Ops → Ops → Type 0
Keeps es ops ops' =
    (e : Entry) (j : ℕ) (q : LiveOp)
    → In e es
    → e.user_data % 4 ≡ 1
    → ops j ≡ some q
    → q.completion_token ≡ some (e.user_data / 4)
    → (p : LiveOp) × (ops' j ≡ some p)
      × (p.completion_token ≡ some (e.user_data / 4))
      × (p.memory ≡ q.memory)

pub dec_token : (t u : ℕ) → (t ≡ u) ⊎ (t ≢ u)
dec_token t u = elim (ℕ_discrete t u) [ yes e ↦ inl e | no ne ↦ inr ne ]

module _ {C : Type 0} ⦃completions : Slab Completion C⦄ where
  -- The completion of a token whose entry is in flight, with who keeps its memory.
  abbrev Owns : C → Ops → ℕ → List ℕ → Type 0
  Owns cs ops t memory =
      (c : Completion) × (completions.get cs t ≡ some c)
      × (c.completed ≡ none)
      × ((c.ignored_data ≡ some memory)
          ⊎ ((i : ℕ) × (op : LiveOp) × (ops i ≡ some op)
              × (op.completion_token ≡ some t)
              × (op.memory ≡ memory)))

  pub record IsSafe (cs : C) (es : List Entry) (ops : Ops) : Type 0 where
    pub live :
        (i : ℕ) (op : LiveOp) (t : ℕ)
        → ops i ≡ some op
        → op.completion_token ≡ some t
        → (c : Completion) × (completions.get cs t ≡ some c) × (c.ignored_data ≡ none)
    pub distinct :
        (i j : ℕ) (o p : LiveOp) (t : ℕ)
        → ops i ≡ some o
        → ops j ≡ some p
        → o.completion_token ≡ some t
        → p.completion_token ≡ some t
        → i ≡ j
    pub once : (k : ℕ) → k % 4 ≡ 1 → count k (keys es) ≤ 1
    pub known : (e : Entry) → In e es → IsKnown e
    pub owned : (e : Entry) → In e es → e.user_data % 4 ≡ 1 → Owns cs ops (e.user_data / 4) e.memory

  pub same_at :
      (cs : C) (t u : ℕ) (c d : Completion)
      → completions.get cs t ≡ some c
      → completions.get cs u ≡ some d
      → t ≡ u
      → d ≡ c
  same_at cs t u c d found at e = cc

  pub stored_self :
      (cs : C) (t : ℕ) (c a : Completion)
      → completions.get cs t ≡ some c
      → completions.get (completions.store cs t a) t ≡ some a
  stored_self cs t c a found = ground (arith, completions.get-store cs t a t (λ e. cc))

  pub stored_other :
      (cs : C) (t u : ℕ) (c a : Completion)
      → completions.get cs t ≡ some c
      → t ≢ u
      → completions.get (completions.store cs t a) u ≡ completions.get cs u
  stored_other cs t u c a found ne = ground (arith, completions.get-store cs t a u (λ e. cc))

  pub removed_other :
      (cs : C) (t u : ℕ)
      → t ≢ u
      → completions.get (completions.remove cs t) u ≡ completions.get cs u
  removed_other cs t u ne = ground (arith, completions.get-remove cs t u)

  pub ops-IsSafe :
      (cs : C) (es : List Entry) (ops ops' : Ops)
      → IsSafe cs es ops
      → Older ops ops'
      → Keeps es ops ops'
      → IsSafe cs es ops'
  ops-IsSafe cs es ops ops' safe older keeps = record {
    live = λ j p t h k. let (q, a, b) = older j p t h k in safe.live j q t a b;
    distinct = λ j l o p t h k m n.
        let (q, a, b) = older j o t h m in
        let (r, c, d) = older l p t k n in safe.distinct j l q r t a c b d;
    once = safe.once;
    known = safe.known;
    owned = λ e m k.
        let (c, found, running, owner) = safe.owned e m k in
        (
          c,
          found,
          running,
          elim owner [
            | inl left ↦ inl left
            | inr (j, q, a, b, same) ↦
                let (p, a', b', same') = keeps e j q m k a b in inr (j, p, a', b', same' ∙ same)
          ],
        );
  }

  -- A completion is written whose memory stays; its result too, unless it has come.
  pub store-IsSafe :
      (cs : C) (es : List Entry) (ops : Ops) (t : ℕ) (c c' : Completion)
      → IsSafe cs es ops
      → completions.get cs t ≡ some c
      → c'.ignored_data ≡ c.ignored_data
      → ((c'.completed ≡ c.completed) ⊎ IsIdle es t)
      → IsSafe (completions.store cs t c') es ops
  store-IsSafe cs es ops t c c' safe found same result = record {
    live = λ j p u h k.
        let (d, at, unignored) = safe.live j p u h k in
        elim (dec_token t u) [
          | inl e ↦ (
            c',
            subst (λ v. completions.get (completions.store cs t c') v ≡ some c') e
                (stored_self cs t c c' found),
            same ∙ ap (λ x. x.ignored_data) (sym (same_at cs t u c d found at e)) ∙ unignored,
          )
          | inr ne ↦ (d, stored_other cs t u c c' found ne ∙ at, unignored)
        ];
    distinct = safe.distinct;
    once = safe.once;
    known = safe.known;
    owned = λ e m k.
        let (d, at, running, owner) = safe.owned e m k in
        elim (dec_token t (e.user_data / 4)) [
          | inl eq ↦
              let d_is : d ≡ c = same_at cs t (e.user_data / 4) c d found at eq in
              (
                c',
                subst (λ v. completions.get (completions.store cs t c') v ≡ some c') eq
                    (stored_self cs t c c' found),
                elim result [
                  | inl kept ↦ kept ∙ ap (λ x. x.completed) (sym d_is) ∙ running
                  | inr idle ↦ absurd (idle e m k (sym eq))
                ],
                elim owner [
                  | inl left ↦ inl (same ∙ ap (λ x. x.ignored_data) (sym d_is) ∙ left)
                  | inr owns ↦ inr owns
                ],
              )
          | inr ne ↦ (d, stored_other cs t (e.user_data / 4) c c' found ne ∙ at, running, owner)
        ];
  }

  -- A completion is taken out that no operation and no entry in flight refers to.
  pub remove-IsSafe :
      (cs : C) (es : List Entry) (ops : Ops) (t : ℕ)
      → IsSafe cs es ops
      → ((j : ℕ) (p : LiveOp) → ops j ≡ some p → p.completion_token ≢ some t)
      → IsIdle es t
      → IsSafe (completions.remove cs t) es ops
  remove-IsSafe cs es ops t safe unused idle = record {
    live = λ j p u h k.
        let (d, at, unignored) = safe.live j p u h k in
        (
          d,
          removed_other cs t u (λ e. unused j p h (k ∙ ap (λ v. some v) (sym e))) ∙ at,
          unignored,
        );
    distinct = safe.distinct;
    once = safe.once;
    known = safe.known;
    owned = λ e m k.
        let (d, at, running, owner) = safe.owned e m k in
        (d, removed_other cs t (e.user_data / 4) (λ eq. idle e m k (sym eq)) ∙ at, running, owner);
  }

  -- An entry of another kind is pushed.
  pub push-IsSafe :
      (cs : C) (es : List Entry) (ops : Ops) (e : Entry)
      → IsSafe cs es ops
      → e.user_data % 4 ≢ 1
      → IsKnown e
      → IsSafe cs (es ++ e ∷ []) ops
  push-IsSafe cs es ops e safe other_kind has_kind = record {
    live = safe.live;
    distinct = safe.distinct;
    once = λ k kind. ground (arith, count-keys k es (e ∷ []), safe.once k kind);
    known = λ x m. elim (In-append x es (e ∷ []) m) [
      | inl old ↦ safe.known x old
      | inr (inl same) ↦ subst (λ y. IsKnown y) (sym same) has_kind
      | inr (inr never) ↦ absurd never
    ];
    owned = λ x m k. elim (In-append x es (e ∷ []) m) [
      | inl old ↦ safe.owned x old k
      | inr (inl same) ↦ absurd (other_kind (ap (λ y. y.user_data % 4) (sym same) ∙ k))
      | inr (inr never) ↦ absurd never
    ];
  }

  -- An entry has left the ring.
  pub less-IsSafe :
      (cs : C) (front back : List Entry) (ops : Ops) (e : Entry)
      → IsSafe cs (front ++ e ∷ back) ops
      → IsSafe cs (front ++ back) ops
  less-IsSafe cs front back ops e safe = record {
    live = safe.live;
    distinct = safe.distinct;
    once = λ k kind.
        ground (arith, count-keys k front (e ∷ back), count-keys k front back, safe.once k kind);
    known = λ x m. safe.known x (In-around x e front back m);
    owned = λ x m k. safe.owned x (In-around x e front back m) k;
  }

  -- No second entry has its key.
  pub gone-IsIdle :
      (cs : C) (front back : List Entry) (ops : Ops) (e : Entry)
      → IsSafe cs (front ++ e ∷ back) ops
      → e.user_data % 4 ≡ 1
      → IsIdle (front ++ back) (e.user_data / 4)
  gone-IsIdle cs front back ops e safe kind x m k same =
      let one = safe.once e.user_data kind in
      let again : x.user_data ≡ e.user_data = omega (arith, k, kind, same) in
      absurd (
        ground (
          arith,
          one,
          count-keys e.user_data front (e ∷ back),
          count-keys e.user_data front back,
          subst (λ key. 1 ≤ count key (keys (front ++ back))) again (In-count x (front ++ back) m),
        ))
