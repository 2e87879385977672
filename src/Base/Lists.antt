-- ===== src/Base/Lists.antt =====
-- Lists as tables: the queries of the source filter rows by Boolean tests.
use Prim.Native.Nat.{ℕ, suc}
use mathlib.Core.Path.{◌≡◌, refl, ap, sym, subst}
use mathlib.Core.Logic.{◌⊎◌, inl, inr, ◌↔◌}
use mathlib.Core.Bool.{Bool, true, false, ◌&&◌, ◌||◌}
use mathlib.Core.Option.{Option, none, some}
use mathlib.Core.List.{List, [], ◌∷◌, ◌++◌, map}
use native.Mathlib.Omega.{arith}
use loobric_server.Base.Tests.{if◌then◌else◌, Bool-cases, Option-cases}

-- `x` stands in the list.
abbrev pub In : {A : Type 0} → A → List A → Type 0
In x [] = ⊥
In x (y ∷ ys) = (x ≡ y) ⊎ In x ys

abbrev pub All {κ} : {A : Type 0} → (A → Type κ) → List A → Type κ
All P [] = Unit
All P (x ∷ xs) = P x × All P xs

module _ {A : Type 0} where
  abbrev pub length : List A → ℕ
  length [] = 0
  length (x ∷ xs) = suc (length xs)

  -- `query.filter(p).all()`
  abbrev pub filter : (A → Bool) → List A → List A
  filter p [] = []
  filter p (x ∷ xs) = let rest = filter p xs in if p x then x ∷ rest else rest

  -- `query.filter(p).first()`
  abbrev pub find? : (A → Bool) → List A → Option A
  find? p [] = none
  find? p (x ∷ xs) = let rest = find? p xs in if p x then some x else rest

  -- The last row that the test selects.
  abbrev pub find_last? : (A → Bool) → List A → Option A
  find_last? p [] = none
  find_last? p (x ∷ xs) = elim (find_last? p xs) [
    | some y ↦ some y
    | none ↦ if p x then some x else none
  ]

  -- `any(p(x) for x in xs)`
  abbrev pub any : (A → Bool) → List A → Bool
  any p [] = false
  any p (x ∷ xs) = p x || any p xs

  -- An UPDATE of the rows that the test selects.
  abbrev pub update_where : (A → Bool) → (A → A) → List A → List A
  update_where p f [] = []
  update_where p f (x ∷ xs) = (if p x then f x else x) ∷ update_where p f xs

  -- A DELETE of the rows that the test selects.
  abbrev pub delete_where : (A → Bool) → List A → List A
  delete_where p [] = []
  delete_where p (x ∷ xs) = let rest = delete_where p xs in if p x then rest else x ∷ rest

  pub find?-In : (p : A → Bool) (x : A) (xs : List A) → find? p xs ≡ some x → In x xs × (p x ≡ true)
  find?-In p x [] h = ground arith
  find?-In p x (y ∷ ys) h = elim (Bool-cases (p y)) [
    | inl e ↦ let h' : some y ≡ some x = rw e at h in (inl (ground arith), ground arith)
    | inr e ↦ let r = find?-In p x ys (rw e at h) in (inr r.0, r.1)
  ]

  pub find?-none : (p : A → Bool) (x : A) (xs : List A) → find? p xs ≡ none → In x xs → p x ≡ false
  find?-none p x [] h i = absurd i
  find?-none p x (y ∷ ys) h (inl e) = ground arith
  find?-none p x (y ∷ ys) h (inr i) = ground (arith, find?-none p x ys)

  pub find_last?-In :
      (p : A → Bool) (x : A) (xs : List A) → find_last? p xs ≡ some x → In x xs × (p x ≡ true)
  find_last?-In p x [] h = ground arith
  find_last?-In p x (y ∷ ys) h = elim (Option-cases (find_last? p ys)) [
    | inl e ↦
        let h' : (if p y then some y else none) ≡ some x = rw e at h in
        (inl (ground arith), ground arith)
    | inr (z, e) ↦ let r = find_last?-In p x ys (ground arith) in (inr r.0, r.1)
  ]

  pub find_last?-none :
      (p : A → Bool) (x : A) (xs : List A) → find_last? p xs ≡ none → In x xs → p x ≡ false
  find_last?-none p x [] h i = absurd i
  find_last?-none p x (y ∷ ys) h (inl e) = ground arith
  find_last?-none p x (y ∷ ys) h (inr i) = find_last?-none p x ys (ground arith) i

  pub filter-In :
      (p : A → Bool) (x : A) (xs : List A) → In x (filter p xs) ↔ (In x xs × (p x ≡ true))
  filter-In p x [] = (λ h. absurd h, λ h. h.0)
  filter-In p x (y ∷ ys) = elim (Bool-cases (p y)) [
    | inl e ↦
        rw e (λ h. ground (arith, (filter-In p x ys).0), λ h. ground (arith, (filter-In p x ys).1))
    | inr e ↦
        rw e (λ h. ground (arith, (filter-In p x ys).0), λ h. ground (arith, (filter-In p x ys).1))
  ]

  pub In-append : (x : A) (xs ys : List A) → In x (xs ++ ys) → In x xs ⊎ In x ys
  In-append x [] ys h = inr h
  In-append x (y ∷ xs) ys (inl e) = inl (inl e)
  In-append x (y ∷ xs) ys (inr h) = elim (In-append x xs ys h) [
    | inl a ↦ inl (inr a)
    | inr b ↦ inr b
  ]

  pub In-snoc : (x y : A) (xs : List A) → In x (xs ++ y ∷ []) → In x xs ⊎ (x ≡ y)
  In-snoc x y xs h = elim (In-append x xs (y ∷ []) h) [
    | inl a ↦ inl a
    | inr b ↦ elim b [ inl e ↦ inr e | inr c ↦ elim c [ ] ]
  ]

  pub In-append_left : (x : A) (xs ys : List A) → In x xs → In x (xs ++ ys)
  In-append_left x [] ys h = elim h [ ]
  In-append_left x (y ∷ xs) ys (inl e) = inl e
  In-append_left x (y ∷ xs) ys (inr h) = inr (In-append_left x xs ys h)

  pub In-append_right : (x : A) (xs ys : List A) → In x ys → In x (xs ++ ys)
  In-append_right x [] ys h = h
  In-append_right x (y ∷ xs) ys h = inr (In-append_right x xs ys h)

  pub any_iff : (p : A → Bool) (xs : List A) → any p xs ≡ true → (x : A) × In x xs × (p x ≡ true)
  any_iff p [] h = ground arith
  any_iff p (y ∷ ys) h = elim (Bool-cases (p y)) [
    | inl e ↦ (y, inl refl, e)
    | inr e ↦ let (x, i, q) = any_iff p ys (ground arith) in (x, inr i, q)
  ]

  pub any-In : (p : A → Bool) (x : A) (xs : List A) → In x xs → p x ≡ true → any p xs ≡ true
  any-In p x [] i h = elim i [ ]
  any-In p x (y ∷ ys) (inl e) h = ground arith
  any-In p x (y ∷ ys) (inr i) h = ground (arith, any-In p x ys i h)

-- `all(p(x) for x in xs)`
abbrev pub every : {A : Type 0} → (A → Bool) → List A → Bool
every p [] = true
every p (x ∷ xs) = p x && every p xs

-- The two lists go together item by item, each pair in `R`.
abbrev pub Each : {A B : Type 0} → (A → B → Type 0) → List A → List B → Type 0
Each R [] [] = Unit
Each R [] (y ∷ ys) = ⊥
Each R (x ∷ xs) [] = ⊥
Each R (x ∷ xs) (y ∷ ys) = R x y × Each R xs ys

pub Each-map :
    {A B : Type 0} (R : A → B → Type 0) (f : A → B)
    → ((x : A) → R x (f x))
    → (xs : List A) → Each R xs (map f xs)
Each-map R f each [] = tt
Each-map R f each (x ∷ xs) = (each x, Each-map R f each xs)

pub Each-All :
    {A B : Type 0} (R : A → B → Type 0) (P : A → Type 0) (Q : B → Type 0)
    → ((x : A) (y : B) → R x y → P x ↔ Q y)
    → (xs : List A) (ys : List B) → Each R xs ys
    → All P xs ↔ All Q ys
Each-All R P Q each [] [] h = (λ a. a, λ a. a)
Each-All R P Q each [] (y ∷ ys) h = absurd h
Each-All R P Q each (x ∷ xs) [] h = absurd h
Each-All R P Q each (x ∷ xs) (y ∷ ys) h =
    let (to, from) = each x y h.0 in
    let (on, back) = Each-All R P Q each xs ys h.1 in
    (λ a. (to a.0, on a.1), λ a. (from a.0, back a.1))

module _ {A B : Type 0} (f : A → B) where
  pub In-map : (x : A) (xs : List A) → In x xs → In (f x) (map f xs)
  In-map x [] i = elim i [ ]
  In-map x (y ∷ ys) (inl e) = inl (ap f e)
  In-map x (y ∷ ys) (inr i) = inr (In-map x ys i)

  pub In-map_inv : (y : B) (xs : List A) → In y (map f xs) → (x : A) × In x xs × (y ≡ f x)
  In-map_inv y [] i = elim i [ ]
  In-map_inv y (x ∷ xs) (inl e) = (x, inl refl, e)
  In-map_inv y (x ∷ xs) (inr i) = let (z, j, e) = In-map_inv y xs i in (z, inr j, e)

pub All-In {κ} : {A : Type 0} (P : A → Type κ) (xs : List A) → All P xs → (x : A) → In x xs → P x
All-In P [] a x i = absurd i
All-In P (y ∷ ys) a x (inl e) = subst P (sym e) a.0
All-In P (y ∷ ys) a x (inr i) = All-In P ys a.1 x i
