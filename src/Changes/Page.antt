-- ===== src/Changes/Page.antt =====
-- A page of changes against the table: what stands in it, and what it leaves for a later one.
use loobric_server.Base.{
  ℕ, zero, suc, ◌≤◌, ◌≡◌, refl, sym, subst, ◌⊎◌, inl, inr, ◌↔◌, String, Bool, true, ◌&&◌, Option,
  none, some, List, [], ◌∷◌, filter, filter-In, In, All, All-In, length, ltb, arith,
}
use loobric_server.Base.Exec.{ok}
use loobric_server.Changes.{
  EntityRow, Tables, table_of, OrderBy, User, visible, take, limited, get_changes_since_version,
  get_changes_since_timestamp, get_max_version, page_limit, ChangesResponse, get_changes_by_version,
  get_changes_by_timestamp,
}

-- In ascending order of the key.
abbrev pub Ascending : (EntityRow → ℕ) → List EntityRow → Type 0
Ascending key [] = Unit
Ascending key (row ∷ rows) = All (λ later. key row ≤ key later) rows × Ascending key rows

-- What ORDER BY promises.
pub record IsOrdering (order_by : OrderBy) : Type 0 where
  pub same_rows :
      (key : EntityRow → ℕ) (x : EntityRow) (rows : List EntityRow)
      → In x (order_by key rows) ↔ In x rows
  pub ascending : (key : EntityRow → ℕ) (rows : List EntityRow) → Ascending key (order_by key rows)

-- A page of at most `limit` rows of the table that the test wants, in the order of the key. A wanted
-- row is missing from a full page only, and then no row of the page comes after it.
pub record IsPage (key : EntityRow → ℕ) (limit : ℕ) (wanted : EntityRow → Bool)
    (table page : List EntityRow) : Type 0 where
  pub only : (x : EntityRow) → In x page → In x table × (wanted x ≡ true)
  pub bound : length page ≤ limit
  pub order : Ascending key page
  pub complete :
      (x : EntityRow)
      → In x table
      → wanted x ≡ true
      → In x page ⊎ ((length page ≡ limit) × All (λ y. key y ≤ key x) page)

module _ (key : EntityRow → ℕ) where
  All-take :
      (P : EntityRow → Type 0) (n : ℕ) (rows : List EntityRow) → All P rows → All P (take n rows)
  All-take P zero rows a = tt
  All-take P (suc n) [] a = tt
  All-take P (suc n) (row ∷ rows) a = (a.0, All-take P n rows a.1)

  In-take : (n : ℕ) (x : EntityRow) (rows : List EntityRow) → In x (take n rows) → In x rows
  In-take zero x rows i = absurd i
  In-take (suc n) x [] i = absurd i
  In-take (suc n) x (row ∷ rows) (inl e) = inl e
  In-take (suc n) x (row ∷ rows) (inr i) = inr (In-take n x rows i)

  length-take : (n : ℕ) (rows : List EntityRow) → length (take n rows) ≤ n
  length-take zero rows = omega arith
  length-take (suc n) [] = omega arith
  length-take (suc n) (row ∷ rows) = let h = length-take n rows in omega arith

  take-Ascending :
      (n : ℕ) (rows : List EntityRow) → Ascending key rows → Ascending key (take n rows)
  take-Ascending zero rows a = tt
  take-Ascending (suc n) [] a = tt
  take-Ascending (suc n) (row ∷ rows) a =
      (All-take (λ later. key row ≤ key later) n rows a.0, take-Ascending n rows a.1)

  take-rest :
      (n : ℕ) (x : EntityRow) (rows : List EntityRow)
      → Ascending key rows
      → In x rows
      → In x (take n rows) ⊎ ((length (take n rows) ≡ n) × All (λ y. key y ≤ key x) (take n rows))
  take-rest zero x rows a i = inr (refl, tt)
  take-rest (suc n) x [] a i = absurd i
  take-rest (suc n) x (row ∷ rows) a (inl e) = inl (inl e)
  take-rest (suc n) x (row ∷ rows) a (inr i) = elim (take-rest n x rows a.1 i) [
    | inl j ↦ inl (inr j)
    | inr (full, before) ↦ inr (omega arith, (All-In (λ y. key row ≤ key y) rows a.0 x i, before))
  ]

  pub In-limited :
      (limit : Option ℕ) (x : EntityRow) (rows : List EntityRow)
      → In x (limited limit rows)
      → In x rows
  unfolding limited
  In-limited none x rows i = i
  In-limited (some zero) x rows i = i
  In-limited (some (suc n)) x rows i = In-take (suc n) x rows i

  module _ (order_by : OrderBy) (law : IsOrdering order_by) where
    query-IsPage :
        (n : ℕ) (wanted seen : EntityRow → Bool) (table : List EntityRow)
        → IsPage key
            (suc n)
            (λ x. wanted x && seen x)
            table
            (limited (some (suc n)) (order_by key (filter seen (filter wanted table))))
    unfolding limited
    query-IsPage n wanted seen table = record {
      only = λ x i.
          let j = (law.same_rows key x rows).0 (In-take (suc n) x (order_by key rows) i) in
          let (k, s) = (filter-In seen x (filter wanted table)).0 j in
          let (l, w) = (filter-In wanted x table).0 k in (l, ground arith);
      bound = length-take (suc n) (order_by key rows);
      order = take-Ascending (suc n) (order_by key rows) (law.ascending key rows);
      complete = λ x i h.
          let k = (filter-In wanted x table).1 (i, ground arith) in
          let j = (filter-In seen x (filter wanted table)).1 (k, ground arith) in
          take-rest (suc n) x (order_by key rows) (law.ascending key rows)
            ((law.same_rows key x rows).1 j);
    }
      where
        rows : List EntityRow
        rows = filter seen (filter wanted table)

page_limit-bounds :
    (limit : Option ℕ) (n : ℕ) → page_limit limit ≡ some n → (m : ℕ) × (n ≡ suc m) × (n ≤ 1000)
unfolding page_limit
page_limit-bounds none n h = (99, ground arith, ground arith)
page_limit-bounds (some zero) n h = ground arith
page_limit-bounds (some (suc m)) n h = (m, ground arith, ground arith)

-- What a response tells of the table.
pub record IsAnswer (key : EntityRow → ℕ) (limit since : ℕ) (user : User) (table : List EntityRow)
    (r : ChangesResponse) : Type 0 where
  pub page : IsPage key limit (λ x. ltb since (key x) && visible user x) table r.changes
  pub counted : r.count ≡ length r.changes
  pub few : r.count ≤ 1000
  pub newest : r.max_version ≡ get_max_version table user

module _ (order_by : OrderBy) (law : IsOrdering order_by) (user : User)
    (table : List EntityRow) where
  answer :
      (key : EntityRow → ℕ) (m since : ℕ) (r : ChangesResponse)
      → suc m ≤ 1000
      → r.changes
        ≡ limited
            (some (suc m))
            (order_by key (filter (visible user) (filter (λ x. ltb since (key x)) table)))
      → r.count ≡ length r.changes
      → r.max_version ≡ get_max_version table user
      → IsAnswer key (suc m) since user table r
  answer key m since r top e counted newest =
      let page' = query-IsPage key order_by law m (λ x. ltb since (key x)) (visible user) table in
      let page =
        subst (IsPage key (suc m) (λ x. ltb since (key x) && visible user x) table) (sym e) page' in
      let bound = page.bound in
      record { page = page; counted = counted; few = omega arith; newest = newest }

-- When the table and the limit are accepted, both endpoints answer: at most the limit and never more
-- than 1000 of the user's changes since the point asked for, oldest first, and a change is missing
-- only from a full page none of whose rows is newer.
pub changes-IsAnswer :
    (order_by : OrderBy)
    → IsOrdering order_by
    → (tables : Tables) (user : User) (entity_type : String) (since : ℕ) (limit : Option ℕ)
      (table : List EntityRow) (n : ℕ)
    → table_of tables entity_type ≡ some table
    → page_limit limit ≡ some n
    → ((r : ChangesResponse) × (get_changes_by_version order_by tables user entity_type since limit
          ≡ ok r)
        × IsAnswer (λ x. x.version) n since user table r)
      × ((r : ChangesResponse) × (get_changes_by_timestamp order_by tables user entity_type since
              limit
            ≡ ok r)
          × IsAnswer (λ x. x.updated_at) n since user table r)
unfolding get_changes_by_version get_changes_by_timestamp get_changes_since_version
    get_changes_since_timestamp
changes-IsAnswer order_by law tables user entity_type since limit table n found accepted =
    let (m, e, top) = page_limit-bounds limit n accepted in
    (rw (accepted, found, e)
      (
        (
          _,
          refl,
          answer order_by law user table (λ x. x.version) m since _ (omega arith) refl refl refl,
        ),
        (
          _,
          refl,
          answer order_by law user table (λ x. x.updated_at) m since _ (omega arith) refl refl refl,
        ),
      ))
