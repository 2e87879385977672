-- ===== src/Base/Tables.antt =====
-- Queries over a table after a write: what an UPDATE, an INSERT and a DELETE leave for a later query.
use mathlib.Core.Path.{◌≡◌, refl, sym, ap, subst, ◌∙◌}
use mathlib.Core.Logic.{◌⊎◌, inl, inr}
use mathlib.Core.Bool.{Bool, true, false}
use mathlib.Core.Option.{none, some}
use mathlib.Core.List.{List, [], ◌∷◌, ◌++◌, map}
use native.Mathlib.Omega.{arith}
use loobric_server.Base.Tests.{if◌then◌else◌, Bool-cases}
use loobric_server.Base.Lists.{In, In-snoc, filter, find?, update_where, delete_where}

module _ {A : Type 0} (p : A → Bool) where
  pub find?-all_false : (xs : List A) → ((x : A) → In x xs → p x ≡ false) → find? p xs ≡ none
  find?-all_false [] h = refl
  find?-all_false (x ∷ xs) h =
      let here = h x (inl refl) in
      let rest = find?-all_false xs (λ y i. h y (inr i)) in ground arith

  -- A new last row is found if no row before it is.
  pub find?-append :
      (xs ys : List A)
      → find? p (xs ++ ys) ≡ (elim (find? p xs) [ some x ↦ some x | none ↦ find? p ys ])
  find?-append [] ys = refl
  find?-append (x ∷ xs) ys = ground (arith, find?-append xs ys)

  module _ (q : A → Bool) (f : A → A) where
    -- An update that changes the answer of the query on no row changes its result by the update.
    pub find?-update_where :
        (xs : List A)
        → ((x : A) → In x xs → p (if q x then f x else x) ≡ p x)
        → find? p (update_where q f xs)
          ≡ (elim (find? p xs) [ none ↦ none | some x ↦ some (if q x then f x else x) ])
    find?-update_where [] h = refl
    find?-update_where (x ∷ xs) h =
        let here = h x (inl refl) in
        let rest = find?-update_where xs (λ y i. h y (inr i)) in
        elim (Bool-cases (p x)) [ inl e ↦ ground arith | inr e ↦ ground arith ]

module _ {A : Type 0} (q : A → Bool) (f : A → A) where
  pub In-update_where :
      (x : A) (xs : List A)
      → In x (update_where q f xs)
      → (y : A) × In y xs × (((q y ≡ true) × (x ≡ f y)) ⊎ ((q y ≡ false) × (x ≡ y)))
  In-update_where x [] i = elim i [ ]
  In-update_where x (y ∷ ys) (inl e) = elim (Bool-cases (q y)) [
    | inl t ↦ (y, inl refl, inl (t, ground arith))
    | inr t ↦ (y, inl refl, inr (t, ground arith))
  ]
  In-update_where x (y ∷ ys) (inr i) = let (z, j, d) = In-update_where x ys i in (z, inr j, d)

  -- A row of the updated table, as what became of a row.
  pub In-updated :
      (x : A) (xs : List A)
      → In x (update_where q f xs)
      → (y : A) × In y xs × (x ≡ (if q y then f y else y))
  In-updated x [] i = elim i [ ]
  In-updated x (y ∷ ys) (inl e) = (y, inl refl, e)
  In-updated x (y ∷ ys) (inr i) = let (z, j, d) = In-updated x ys i in (z, inr j, d)

  pub update_where-none : (xs : List A) → find? q xs ≡ none → update_where q f xs ≡ xs
  update_where-none [] h = refl
  update_where-none (x ∷ xs) h = ground (arith, update_where-none xs)

  -- A column that the update leaves alone.
  pub map-update_where :
      {B : Type 0} (key : A → B)
      → ((x : A) → key (f x) ≡ key x)
      → (xs : List A) → map key (update_where q f xs) ≡ map key xs
  map-update_where key keep [] = refl
  map-update_where key keep (x ∷ xs) = ground (arith, keep x, map-update_where key keep xs)

  pub In-update_where_miss :
      (x : A) (xs : List A) → In x xs → q x ≡ false → In x (update_where q f xs)
  In-update_where_miss x [] i h = absurd i
  In-update_where_miss x (y ∷ ys) (inl e) h = inl (ground arith)
  In-update_where_miss x (y ∷ ys) (inr i) h = inr (In-update_where_miss x ys i h)

  pub In-update_where_hit :
      (x : A) (xs : List A) → In x xs → q x ≡ true → In (f x) (update_where q f xs)
  In-update_where_hit x [] i h = absurd i
  In-update_where_hit x (y ∷ ys) (inl e) h = inl (ground arith)
  In-update_where_hit x (y ∷ ys) (inr i) h = inr (In-update_where_hit x ys i h)

pub In-delete_where :
    {A : Type 0} (q : A → Bool) (x : A) (xs : List A)
    → In x (delete_where q xs)
    → In x xs × (q x ≡ false)
In-delete_where q x [] i = elim i [ ]
In-delete_where q x (y ∷ ys) i = elim (Bool-cases (q y)) [
  | inl t ↦
      let i' : In x (delete_where q ys) = rw t at i in
      let (j, f) = In-delete_where q x ys i' in (inr j, f)
  | inr t ↦
      let i' : (x ≡ y) ⊎ In x (delete_where q ys) = rw t at i in
      elim i' [
        | inl e ↦ (inl e, ground arith)
        | inr j ↦ let (k, f) = In-delete_where q x ys j in (inr k, f)
      ]
]

pub In-delete_where_miss :
    {A : Type 0} (q : A → Bool) (x : A) (xs : List A)
    → In x xs
    → q x ≡ false
    → In x (delete_where q xs)
In-delete_where_miss q x [] i h = absurd i
In-delete_where_miss q x (y ∷ ys) (inl e) h = rw (sym e, h) (inl refl)
In-delete_where_miss q x (y ∷ ys) (inr i) h =
    let rest = In-delete_where_miss q x ys i h in
    elim (Bool-cases (q y)) [ inl e ↦ rw e rest | inr e ↦ rw e (inr rest) ]

-- Rows that no two share a key, over an update that keeps the keys and over a new row.
module _ {A : Type 0} (Same : A → A → Type 0) where
  -- No two rows have the same key.
  abbrev pub IsKeyed : List A → Type 0
  IsKeyed xs = (x y : A) → In x xs → In y xs → Same x y → x ≡ y

  pub update_where-IsKeyed :
      (q : A → Bool) (f : A → A)
      → ((x y : A) → Same (if q x then f x else x) (if q y then f y else y) → Same x y)
      → (xs : List A) → IsKeyed xs
      → IsKeyed (update_where q f xs)
  update_where-IsKeyed q f keep xs keyed x y i j e =
      let (x0, i0, ex) = In-updated q f x xs i in
      let (y0, j0, ey) = In-updated q f y xs j in
      let g = λ (z : A). if q z then f z else z in
      ex
      ∙ ap g (
          keyed x0 y0 i0 j0
            (keep x0 y0 (subst (λ z. Same (g x0) z) ey (subst (λ z. Same z y) ex e))))
      ∙ sym ey

  pub append-IsKeyed :
      (xs : List A) (z : A)
      → IsKeyed xs
      → ((x : A) → In x xs → Same x z → ⊥)
      → ((x : A) → In x xs → Same z x → ⊥)
      → IsKeyed (xs ++ z ∷ [])
  append-IsKeyed xs z keyed no_left no_right x y i j e = elim (In-snoc x z xs i) [
    | inl a ↦ elim (In-snoc y z xs j) [
      | inl b ↦ keyed x y a b e
      | inr b ↦ absurd (no_left x a (subst (Same x) b e))
    ]
    | inr a ↦ elim (In-snoc y z xs j) [
      | inl b ↦ absurd (no_right y b (subst (λ w. Same w y) a e))
      | inr b ↦ a ∙ sym b
    ]
  ]

-- A query that selects no updated row, before or after the update, and no new row.
module _ {A : Type 0} (p : A → Bool) where
  pub filter-update_where :
      (q : A → Bool) (f : A → A) (xs : List A)
      → ((x : A) → In x xs → q x ≡ true → (p x ≡ false) × (p (f x) ≡ false))
      → filter p (update_where q f xs) ≡ filter p xs
  filter-update_where q f [] h = refl
  filter-update_where q f (x ∷ xs) h =
      let rest = filter-update_where q f xs (λ y i. h y (inr i)) in
      elim (Bool-cases (q x)) [
        | inl t ↦ let (a, b) = h x (inl refl) t in ground arith
        | inr t ↦ ground arith
      ]

  pub filter-snoc : (z : A) (xs : List A) → p z ≡ false → filter p (xs ++ z ∷ []) ≡ filter p xs
  filter-snoc z [] h = ground arith
  filter-snoc z (x ∷ xs) h = ground (arith, filter-snoc z xs h)
