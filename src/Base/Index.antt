-- ===== src/Base/Index.antt =====
-- The dicts that the source builds from a table: by assignment, where the last row of a key wins,
-- and by `setdefault`, where the first does.
use Prim.Native.Nat.{suc, ◌+◌, ◌≤◌}
use mathlib.Core.Path.{◌≡◌, refl, sym, ap, ◌∙◌}
use mathlib.Core.Logic.{◌↔◌, ◌⊎◌, inl, inr}
use mathlib.Core.Bool.{Bool, true, false, not}
use mathlib.Core.Option.{Option, none, some}
use mathlib.Core.List.{List, [], ◌∷◌}
use native.Mathlib.Omega.{arith}
use loobric_server.Base.Tests.{if◌then◌else◌, Bool-cases, Option-cases, is_none}
use loobric_server.Base.Lists.{In, find?, find_last?, filter, length}
use loobric_server.Base.Dict.{
  Eq, Dict, lookup, insert, set_default, lookup-insert, lookup-set_default,
}

-- `key(x) == k`, where a row may have no key.
abbrev pub has_key : {K A : Type 0} ⦃e : Eq K⦄ → (A → Option K) → K → A → Bool
has_key ⦃e⦄ key k x = elim (key x) [ none ↦ false | some j ↦ e.beq j k ]

module _ {K V : Type 0} ⦃e : Eq K⦄ where
  -- `if k is not None: d[k] = v`
  abbrev pub put_last : Option K → V → Dict K V → Dict K V
  put_last none v d = d
  put_last (some k) v d = insert k v d

  -- `if k is not None: d.setdefault(k, v)`
  abbrev pub put_first : Option K → V → Dict K V → Dict K V
  put_first none v d = d
  put_first (some k) v d = set_default k v d

module _ {K V A : Type 0} ⦃e : Eq K⦄ (key : A → Option K) (val : A → V) where
  -- `for x in xs: if key(x) is not None: d[key(x)] = val(x)`
  unfoldable pub index_last : List A → Dict K V → Dict K V
  index_last [] d = d
  index_last (x ∷ xs) d = index_last xs (put_last (key x) (val x) d)

  -- `for x in xs: if key(x) is not None: d.setdefault(key(x), val(x))`
  unfoldable pub index_first : List A → Dict K V → Dict K V
  index_first [] d = d
  index_first (x ∷ xs) d = index_first xs (put_first (key x) (val x) d)

  lookup-put_last :
      (k : K) (x : A) (d : Dict K V)
      → lookup k (put_last (key x) (val x) d)
        ≡ (if has_key key k x then some (val x) else lookup k d)
  lookup-put_last k x d = elim (Option-cases (key x)) [
    | inl n ↦ ground arith
    | inr (j, s) ↦ ground (arith, lookup-insert j k (val x) d)
  ]

  lookup-put_first :
      (k : K) (x : A) (d : Dict K V)
      → lookup k (put_first (key x) (val x) d) ≡ (elim (lookup k d) [
        | some w ↦ some w
        | none ↦ if has_key key k x then some (val x) else none
      ])
  lookup-put_first k x d = elim (Option-cases (key x)) [
    | inl n ↦ ground arith
    | inr (j, s) ↦ ground (arith, lookup-set_default j k (val x) d)
  ]

  pub lookup-index_last :
      (k : K) (xs : List A) (d : Dict K V)
      → lookup k (index_last xs d)
        ≡ (elim (find_last? (has_key key k) xs) [ none ↦ lookup k d | some x ↦ some (val x) ])
  unfolding index_last
  lookup-index_last k [] d = refl
  lookup-index_last k (x ∷ xs) d =
      ground (arith, lookup-index_last k xs (put_last (key x) (val x) d), lookup-put_last k x d)

  pub lookup-index_first :
      (k : K) (xs : List A) (d : Dict K V)
      → lookup k (index_first xs d) ≡ (elim (lookup k d) [
        | some w ↦ some w
        | none ↦ elim (find? (has_key key k) xs) [ none ↦ none | some x ↦ some (val x) ]
      ])
  unfolding index_first
  lookup-index_first k [] d = ground arith
  lookup-index_first k (x ∷ xs) d =
      ground (arith, lookup-index_first k xs (put_first (key x) (val x) d), lookup-put_first k x d)

pub has_key_iff :
    {K A : Type 0} ⦃e : Eq K⦄ (key : A → Option K) (k : K) (x : A)
    → (has_key key k x ≡ true) ↔ (key x ≡ some k)
has_key_iff ⦃e⦄ key k x = elim (Option-cases (key x)) [
  | inl n ↦ (λ h. ground arith, λ h. ground arith)
  | inr (j, s) ↦ (λ h. ground (arith, e.beq_iff j k), λ h. ground (arith, e.beq_iff j k))
]

module _ {K V : Type 0} ⦃e : Eq K⦄ where
  -- What stands in a dict after an assignment.
  In-insert :
      (k : K) (v : V) (d : Dict K V) (j : K) (w : V)
      → In (j, w) (insert k v d)
      → ((j ≡ k) × (w ≡ v)) ⊎ In (j, w) d
  In-insert k v [] j w (inl q) = inl (ap (λ p. p.0) q, ap (λ p. p.1) q)
  In-insert k v [] j w (inr i) = absurd i
  In-insert k v ((h, u) ∷ d) j w i = elim (Bool-cases (e.beq h k)) [
    | inl t ↦
        let i' : In (j, w) ((h, v) ∷ d) = rw t at i in
        elim i' [
          | inl q ↦ inl (ap (λ p. p.0) q ∙ (e.beq_iff h k).0 t, ap (λ p. p.1) q)
          | inr m ↦ inr (inr m)
        ]
    | inr t ↦
        let i' : In (j, w) ((h, u) ∷ insert k v d) = rw t at i in
        elim i' [
          | inl q ↦ inr (inl q)
          | inr m ↦ elim (In-insert k v d j w m) [ inl q ↦ inl q | inr n ↦ inr (inr n) ]
        ]
  ]

  length-insert : (k : K) (v : V) (d : Dict K V) → length (insert k v d) ≤ suc (length d)
  length-insert k v [] = omega arith
  length-insert k v ((h, u) ∷ d) = ground (arith, length-insert k v d)

module _ {K V A : Type 0} ⦃e : Eq K⦄ (key : A → Option K) (val : A → V) where
  -- An item of the dict is the key and the value of a row.
  pub In-index_last :
      (xs : List A) (d : Dict K V) (k : K) (v : V)
      → In (k, v) (index_last key val xs d)
      → ((x : A) × In x xs × (key x ≡ some k) × (val x ≡ v)) ⊎ In (k, v) d
  unfolding index_last
  In-index_last [] d k v i = inr i
  In-index_last (x ∷ xs) d k v i = elim (In-index_last xs (put_last (key x) (val x) d) k v i) [
    | inl (y, m, a, b) ↦ inl (y, inr m, a, b)
    | inr m ↦ elim (Option-cases (key x)) [
      | inl n ↦ inr (rw n at m)
      | inr (j, s) ↦ elim (In-insert j (val x) d k v (rw s at m)) [
        | inl (a, b) ↦ inl (x, inl refl, s ∙ ap some (sym a), sym b)
        | inr o ↦ inr o
      ]
    ]
  ]

  -- It has no more items than there are rows with a key.
  pub length-index_last :
      (xs : List A) (d : Dict K V)
      → length (index_last key val xs d)
        ≤ length (filter (λ x. not (is_none (key x))) xs) + length d
  unfolding index_last
  length-index_last [] d = omega arith
  length-index_last (x ∷ xs) d = elim (Option-cases (key x)) [
    | inl n ↦ rw n (length-index_last xs d)
    | inr (j, s) ↦
        let rest = length-index_last xs (insert j (val x) d) in
        let one = length-insert j (val x) d in rw s (omega arith)
  ]
