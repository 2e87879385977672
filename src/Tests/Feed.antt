-- ===== src/Tests/Feed.antt =====
-- Two changed tools in the feed of changes, with a database that sorts by insertion.
use loobric_server.Base.{
  ℕ, ◌≤◌, ◌≡◌, refl, ◌⊎◌, inl, inr, ◌↔◌, String, false, none, some, List, [], ◌∷◌, In, All, leb,
  arith, Bool-cases, if◌then◌else◌,
}
use loobric_server.Base.Exec.{ok}
use loobric_server.Changes.{
  EntityRow, Tables, table_of, User, visible, page_limit, ChangesResponse, get_changes_by_version,
  get_changes_by_timestamp, get_changes_since_version, get_changes_since_timestamp, get_max_version,
}
use loobric_server.Changes.Page.{Ascending, IsOrdering, IsAnswer, changes-IsAnswer}
use loobric_server.Changes.Caught.{edit, touched-unseen}

module _ (key : EntityRow → ℕ) where
  abbrev put : EntityRow → List EntityRow → List EntityRow
  put x [] = x ∷ []
  put x (y ∷ ys) = let rest = put x ys in if leb (key x) (key y) then x ∷ y ∷ ys else y ∷ rest

  abbrev sorted : List EntityRow → List EntityRow
  sorted [] = []
  sorted (x ∷ xs) = put x (sorted xs)

  In-put : (z x : EntityRow) (ys : List EntityRow) → In z (put x ys) ↔ ((z ≡ x) ⊎ In z ys)
  In-put z x [] = (λ h. h, λ h. h)
  In-put z x (y ∷ ys) = elim (Bool-cases (leb (key x) (key y))) [
    | inl e ↦ rw e (λ h. h, λ h. h)
    | inr e ↦
        let (to, from) = In-put z x ys in
        rw e (
          λ h. elim h [
            | inl d ↦ inr (inl d)
            | inr i ↦ elim (to i) [ inl d ↦ inl d | inr j ↦ inr (inr j) ]
          ],
          λ h. elim h [
            | inl d ↦ inr (from (inl d))
            | inr i ↦ elim i [ inl d ↦ inl d | inr j ↦ inr (from (inr j)) ]
          ],
        )
  ]

  In-sorted : (z : EntityRow) (xs : List EntityRow) → In z (sorted xs) ↔ In z xs
  In-sorted z [] = (λ h. h, λ h. h)
  In-sorted z (x ∷ xs) =
      let (to, from) = In-put z x (sorted xs) in
      let (on, back) = In-sorted z xs in
      (
        λ h. elim (to h) [ inl d ↦ inl d | inr i ↦ inr (on i) ],
        λ h. elim h [ inl d ↦ from (inl d) | inr i ↦ from (inr (back i)) ],
      )

  All-weaken :
      (m n : ℕ) (ys : List EntityRow) → m ≤ n → All (λ y. n ≤ key y) ys → All (λ y. m ≤ key y) ys
  All-weaken m n [] h a = tt
  All-weaken m n (y ∷ ys) h a = let b = a.0 in (omega arith, All-weaken m n ys h a.1)

  All-put :
      (n : ℕ) (x : EntityRow) (ys : List EntityRow)
      → n ≤ key x
      → All (λ y. n ≤ key y) ys
      → All (λ y. n ≤ key y) (put x ys)
  All-put n x [] h a = (h, tt)
  All-put n x (y ∷ ys) h a = elim (Bool-cases (leb (key x) (key y))) [
    | inl e ↦ rw e (h, a)
    | inr e ↦ rw e (a.0, All-put n x ys h a.1)
  ]

  put-Ascending :
      (x : EntityRow) (ys : List EntityRow) → Ascending key ys → Ascending key (put x ys)
  put-Ascending x [] a = (tt, tt)
  put-Ascending x (y ∷ ys) a = elim (Bool-cases (leb (key x) (key y))) [
    | inl e ↦
        let le : key x ≤ key y = ground arith in
        rw e ((le, All-weaken (key x) (key y) ys le a.0), a)
    | inr e ↦
        let le : key y ≤ key x = ground arith in
        rw e (All-put (key y) x ys le a.0, put-Ascending x ys a.1)
  ]

  sorted-Ascending : (xs : List EntityRow) → Ascending key (sorted xs)
  sorted-Ascending [] = tt
  sorted-Ascending (x ∷ xs) = put-Ascending x (sorted xs) (sorted-Ascending xs)

sorted-IsOrdering : IsOrdering sorted
sorted-IsOrdering = record { same_rows = In-sorted; ascending = sorted-Ascending }

abbrev row : String → ℕ → ℕ → EntityRow
row id version updated_at = record {
  id = id;
  user_id = "ann";
  version = version;
  updated_at = updated_at;
}

abbrev tools : List EntityRow
tools = row "i1" 5 20 ∷ row "i2" 2 10 ∷ []

abbrev tables : Tables
tables = record {
  machine_records = [];
  tool_instance_records = tools;
  tool_catalog_records = [];
  tool_table_entry_records = [];
  tool_set_records = [];
}

abbrev ann : User
ann = record { id = "ann"; is_admin = false }

changes-IsAnswer_example :
    ((r : ChangesResponse) × (get_changes_by_version sorted tables ann "tool_instance_records" 1
          (some 1)
        ≡ ok r)
      × IsAnswer (λ x. x.version) 1 1 ann tools r)
    × ((r : ChangesResponse) × (get_changes_by_timestamp sorted tables ann "tool_instance_records" 1
            (some 1)
          ≡ ok r)
        × IsAnswer (λ x. x.updated_at) 1 1 ann tools r)
unfolding table_of page_limit
changes-IsAnswer_example =
    changes-IsAnswer sorted sorted-IsOrdering tables ann "tool_instance_records" 1 (some 1) tools 1
      refl refl

touched-unseen_example :
    (¬ (
      In (row "i2" 3 30) (
        get_changes_since_version sorted
          (edit "i2" 30 tools)
          (get_max_version tools ann)
          ann
          (some 10))))
    × In (row "i2" 3 30) (get_changes_since_timestamp sorted (edit "i2" 30 tools) 20 ann none)
unfolding visible get_max_version
touched-unseen_example =
    touched-unseen sorted sorted-IsOrdering ann tools (row "i2" 2 10) 30 20 (some 10)
      (inr (inl refl)) refl (omega arith) (omega arith)
