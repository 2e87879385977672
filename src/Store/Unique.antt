-- ===== src/Store/Unique.antt =====
-- What a UNIQUE index says of the rows.
use loobric_server.Base.{
  ◌≡◌, refl, ◌↔◌, inl, inr, Bool, true, false, Option, none, some, List, [], ◌∷◌, ◌++◌, String,
  arith, In, any, any-In, any_iff, In-append, In-append_right, ap, sym, ◌∙◌, map, update_where,
  delete_where, if◌then◌else◌, opt_is, opt_is_iff, Bool-cases, Option-cases, ◌≢◌, str_eq,
  str_eq_iff,
}
use loobric_server.Base.Tables.{map-update_where, In-update_where, In-delete_where}
use loobric_server.Store.{Db, unique_on, active_machine, constraints_hold}
use loobric_server.Store.Rows.{EntryRow}

module _ {A : Type 0} (key : A → Option String) where
  -- A row whose key is `k` clashes with no row behind it.
  unique_on-head :
      (k : String) (x y : A) (xs : List A)
      → key x ≡ some k
      → unique_on key (x ∷ xs) ≡ true
      → In y xs
      → key y ≡ some k
      → ⊥
  unfolding unique_on
  unique_on-head k x y xs hx u i hy =
      ground (arith, any-In (λ z. opt_is (key z) k) y xs i, opt_is_iff (key y) k)

  unique_on-tail : (x : A) (xs : List A) → unique_on key (x ∷ xs) ≡ true → unique_on key xs ≡ true
  unfolding unique_on
  unique_on-tail x xs u = ground arith

  -- Two rows with one key are the same row.
  pub unique_on-eq :
      (k : String) (x y : A) (xs : List A)
      → unique_on key xs ≡ true
      → In x xs
      → In y xs
      → key x ≡ some k
      → key y ≡ some k
      → x ≡ y
  unique_on-eq k x y [] u i j hx hy = absurd i
  unique_on-eq k x y (z ∷ zs) u (inl a) (inl b) hx hy = ground arith
  unique_on-eq k x y (z ∷ zs) u (inl a) (inr j) hx hy =
      absurd (unique_on-head k z y zs (ground arith) u j hy)
  unique_on-eq k x y (z ∷ zs) u (inr i) (inl b) hx hy =
      absurd (unique_on-head k z x zs (ground arith) u i hx)
  unique_on-eq k x y (z ∷ zs) u (inr i) (inr j) hx hy =
      unique_on-eq k x y zs (unique_on-tail z zs u) i j hx hy

  any-map :
      (k : String) (xs : List A)
      → any (λ x. opt_is (key x) k) xs ≡ any (λ o. opt_is o k) (map key xs)
  any-map k [] = refl
  any-map k (x ∷ xs) = ground (arith, any-map k xs)

  -- Uniqueness is a matter of the keys alone.
  pub unique_on-map : (xs : List A) → unique_on key xs ≡ unique_on (λ o. o) (map key xs)
  unfolding unique_on
  unique_on-map [] = refl
  unique_on-map (x ∷ xs) = elim (Option-cases (key x)) [
    | inl n ↦ ground (arith, unique_on-map xs)
    | inr (k, s) ↦ ground (arith, unique_on-map xs, any-map k xs)
  ]

  -- An update that keeps the keys keeps the index.
  pub unique_on-update_where :
      (p : A → Bool) (f : A → A)
      → ((x : A) → key (f x) ≡ key x)
      → (xs : List A) → unique_on key (update_where p f xs) ≡ unique_on key xs
  unique_on-update_where p f keep xs =
      unique_on-map (update_where p f xs)
      ∙ ap (unique_on (λ o. o)) (map-update_where p f key keep xs)
      ∙ sym (unique_on-map xs)

  -- Whether a row has the key `k`.
  abbrev pub taken : String → List A → Bool
  taken k xs = any (λ y. opt_is (key y) k) xs

  taken-false :
      (k : String) (xs : List A) → ((y : A) → In y xs → key y ≡ some k → ⊥) → taken k xs ≡ false
  taken-false k xs h = elim (Bool-cases (taken k xs)) [
    | inr e ↦ e
    | inl e ↦
        let (y, row, t) = any_iff (λ z. opt_is (key z) k) xs e in
        absurd (h y row ((opt_is_iff (key y) k).0 t))
  ]

  pub unique_on-cons :
      (x : A) (xs : List A)
      → ((k : String) (y : A) → key x ≡ some k → In y xs → key y ≡ some k → ⊥)
      → unique_on key xs ≡ true
      → unique_on key (x ∷ xs) ≡ true
  unfolding unique_on
  unique_on-cons x xs h u = elim (Option-cases (key x)) [
    | inl n ↦ ground arith
    | inr (k, e) ↦ ground (arith, taken-false k xs (λ y row q. h k y e row q))
  ]

  -- An update that takes keys away keeps the index.
  pub unique_on-cleared :
      (p : A → Bool) (f : A → A)
      → ((x : A) → key (f x) ≡ none)
      → (xs : List A) → unique_on key xs ≡ true
      → unique_on key (update_where p f xs) ≡ true
  unfolding unique_on
  unique_on-cleared p f clear [] u = refl
  unique_on-cleared p f clear (x ∷ xs) u =
      unique_on-cons (if p x then f x else x) (update_where p f xs)
        (λ k y e row q.
          let (z, z_row, d) = In-update_where p f y xs row in
          elim d [
            | inl (t, w) ↦ ground (arith, clear z, ap key w)
            | inr (t, w) ↦ elim (Bool-cases (p x)) [
              | inl t' ↦ ground (arith, clear x)
              | inr t' ↦ unique_on-head k x z xs (ground arith) u z_row (ap key (sym w) ∙ q)
            ]
          ])
        (unique_on-cleared p f clear xs (unique_on-tail x xs u))

  -- A new row whose key no row has.
  pub unique_on-append :
      (y : A) (xs : List A)
      → unique_on key xs ≡ true
      → ((x : A) (k : String) → In x xs → key x ≡ some k → key y ≡ some k → ⊥)
      → unique_on key (xs ++ y ∷ []) ≡ true
  unique_on-append y [] u h = unique_on-cons y [] (λ k z e i q. absurd i) u
  unique_on-append y (x ∷ xs) u h =
      unique_on-cons x (xs ++ y ∷ [])
        (λ k z e row q. elim (In-append z xs (y ∷ []) row) [
          | inl i ↦ unique_on-head k x z xs e u i q
          | inr (inl w) ↦ h x k (inl refl) e (ap key (sym w) ∙ q)
          | inr (inr w) ↦ absurd w
        ])
        (unique_on-append y xs (unique_on-tail x xs u) (λ z k i. h z k (inr i)))

-- The two indexes.
pub constraints_iff :
    (db : Db)
    → (constraints_hold db ≡ true) ↔ (
        (unique_on active_machine db.maps ≡ true)
        × (unique_on (λ (e : EntryRow). e.bound_instance_id) db.entries ≡ true))
unfolding constraints_hold
constraints_iff db = (λ h. (ground arith, ground arith), λ h. ground arith)

-- A new row whose key a row has already.
pub unique_on-clash :
    {A : Type 0} (key : A → Option String) (k : String) (x y : A) (xs : List A)
    → In x xs
    → key x ≡ some k
    → key y ≡ some k
    → unique_on key (xs ++ y ∷ []) ≡ false
unfolding unique_on
unique_on-clash key k x y [] i hx hy = absurd i
unique_on-clash key k x y (z ∷ zs) (inl e) hx hy =
    let hz : key z ≡ some k = ap key (sym e) ∙ hx in
    let hit =
      any-In (λ w. opt_is (key w) k) y (zs ++ y ∷ []) (In-append_right y zs (y ∷ []) (inl refl))
        ((opt_is_iff (key y) k).1 hy) in
    rw (hz, hit) refl
unique_on-clash key k x y (z ∷ zs) (inr i) hx hy =
    ground (arith, unique_on-clash key k x y zs i hx hy)

-- Two rows that differ share a key.
pub unique_on-two :
    {A : Type 0} (key : A → Option String) (k : String) (x y : A) (xs : List A)
    → In x xs
    → In y xs
    → x ≢ y
    → key x ≡ some k
    → key y ≡ some k
    → unique_on key xs ≡ false
unique_on-two key k x y xs i j ne hx hy = elim (Bool-cases (unique_on key xs)) [
  | inl u ↦ absurd (ne (unique_on-eq key k x y xs u i j hx hy))
  | inr u ↦ u
]

-- A DELETE keeps the index.
pub unique_on-delete_where :
    {A : Type 0} (key : A → Option String) (p : A → Bool) (xs : List A)
    → unique_on key xs ≡ true
    → unique_on key (delete_where p xs) ≡ true
unique_on-delete_where key p [] u = u
unique_on-delete_where key p (x ∷ xs) u = elim (Bool-cases (p x)) [
  | inl e ↦ rw e (unique_on-delete_where key p xs (unique_on-tail key x xs u))
  | inr e ↦ rw e (
      unique_on-cons key x (delete_where p xs)
        (λ k y hx i hy. unique_on-head key k x y xs hx u (In-delete_where p y xs i).0 hy)
        (unique_on-delete_where key p xs (unique_on-tail key x xs u)))
]

-- One row, named by its id, gets a key that no other row has.
pub unique_on-assign :
    {A : Type 0} (id : A → String) (key : A → Option String) (k rid : String) (f : A → A)
    → ((x : A) → key (f x) ≡ some k)
    → (xs : List A) → unique_on (λ x. some (id x)) xs ≡ true
    → unique_on key xs ≡ true
    → ((x : A) → In x xs → id x ≢ rid → key x ≢ some k)
    → unique_on key (update_where (λ x. str_eq (id x) rid) f xs) ≡ true
unfolding unique_on
unique_on-assign id key k rid f gives [] ids u free = refl
unique_on-assign {A} id key k rid f gives (x ∷ xs) ids u free =
    let hit = λ (y : A). str_eq (id y) rid in
    unique_on-cons key (if hit x then f x else x) (update_where hit f xs)
      (λ j y e row q.
        let (z, z_row, d) = In-update_where hit f y xs row in
        elim (Bool-cases (hit x)) [
          | inl t ↦
              let e' : key (f x) ≡ some j = rw t at e in
              elim d [
                | inl (t', w) ↦
                    unique_on-head (λ y. some (id y)) rid x z xs (ap (λ y. some y) (is_id x t)) ids
                      z_row (ap (λ y. some y) (is_id z t'))
                | inr (t', w) ↦
                    free z (inr z_row) (not_id z t') (ap key (sym w) ∙ q ∙ sym e' ∙ gives x)
              ]
          | inr t ↦
              let e' : key x ≡ some j = rw t at e in
              elim d [
                | inl (t', w) ↦ free x (inl refl) (not_id x t) (e' ∙ sym q ∙ ap key w ∙ gives z)
                | inr (t', w) ↦ unique_on-head key j x z xs e' u z_row (ap key (sym w) ∙ q)
              ]
        ])
      (unique_on-assign id key k rid f gives xs (unique_on-tail (λ y. some (id y)) x xs ids)
        (unique_on-tail key x xs u) (λ y i. free y (inr i)))
  where
    is_id : (y : A) → str_eq (id y) rid ≡ true → id y ≡ rid
    is_id y t = (str_eq_iff (id y) rid).0 t

    not_id : (y : A) → str_eq (id y) rid ≡ false → id y ≢ rid
    not_id y t e = ground (arith, str_eq_iff (id y) rid)
