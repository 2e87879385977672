-- ===== src/Changes/Caught.antt =====
-- A client that follows the versions: where it is when it has caught up, and what it no longer sees.
use loobric_server.Base.{
  ℕ, zero, suc, ◌≤◌, ◌<◌, ◌≡◌, refl, ap, subst, ◌⊎◌, inl, inr, ◌↔◌, String, true, Option, none,
  some, List, [], ◌∷◌, filter, filter-In, In, update_where, ltb, leb, str_eq, str_eq_iff, ltb→lt,
  ◌≢◌, arith, Bool-cases,
}
use loobric_server.Base.Tables.{In-update_where_hit}
use loobric_server.Changes.{
  EntityRow, OrderBy, User, visible, limited, max_version_in, get_changes_since_version,
  get_changes_since_timestamp, get_max_version,
}
use loobric_server.Changes.Page.{IsOrdering, In-limited}

max_version_in_ge :
    (x : EntityRow) (rows : List EntityRow) → In x rows → x.version ≤ max_version_in rows
max_version_in_ge x [] i = absurd i
max_version_in_ge x (y ∷ ys) (inl e) = let v = ap (λ r. r.version) e in ground arith
max_version_in_ge x (y ∷ ys) (inr i) = let h = max_version_in_ge x ys i in ground arith

max_version_in-In :
    (rows : List EntityRow)
    → (max_version_in rows ≡ 0) ⊎ ((x : EntityRow) × In x rows × (x.version ≡ max_version_in rows))
max_version_in-In [] = inl refl
max_version_in-In (y ∷ ys) = elim (Bool-cases (leb y.version (max_version_in ys))) [
  | inl e ↦ elim (max_version_in-In ys) [
    | inl z ↦ inl (ground arith)
    | inr (x, i, v) ↦ inr (x, inr i, ground arith)
  ]
  | inr e ↦ inr (y, inl refl, ground arith)
]

-- What every edit does to the row of a record: `row.version += 1`, and `onupdate` on `updated_at`.
abbrev pub touched : ℕ → EntityRow → EntityRow
touched now row = record row { version = suc row.version; updated_at = now }

abbrev pub edit : String → ℕ → List EntityRow → List EntityRow
edit id now table = update_where (λ row. str_eq row.id id) (touched now) table

str_eq_refl : (t : String) → str_eq t t ≡ true
str_eq_refl t = (str_eq_iff t t).1 refl

module _ (order_by : OrderBy) (law : IsOrdering order_by) (user : User) where
  since_version-newer :
      (table : List EntityRow) (since : ℕ) (limit : Option ℕ) (x : EntityRow)
      → In x (get_changes_since_version order_by table since user limit)
      → In x table × (visible user x ≡ true) × (since < x.version)
  unfolding get_changes_since_version
  since_version-newer table since limit x i =
      let rows = filter (λ row. ltb since row.version) table in
      let j = (law.same_rows (λ row. row.version) x (filter (visible user) rows)).0 (
        In-limited (λ row. row.version) limit x
          (order_by (λ row. row.version) (filter (visible user) rows)) i) in
      let (k, v) = (filter-In (visible user) x rows).0 j in
      let (l, n) = (filter-In (λ row. ltb since row.version) x table).0 k in (l, v, ground arith)

  since_timestamp-all :
      (table : List EntityRow) (since : ℕ) (x : EntityRow)
      → In x table
      → visible user x ≡ true
      → since < x.updated_at
      → In x (get_changes_since_timestamp order_by table since user none)
  unfolding get_changes_since_timestamp limited
  since_timestamp-all table since x i v n =
      let rows = filter (λ row. ltb since row.updated_at) table in
      (law.same_rows (λ row. row.updated_at) x (filter (visible user) rows)).1 (
        (filter-In (visible user) x rows).1
          ((filter-In (λ row. ltb since row.updated_at) x table).1 (i, ground arith), v))

  pub get_max_version-ge :
      (table : List EntityRow) (x : EntityRow)
      → In x table
      → visible user x ≡ true
      → x.version ≤ get_max_version table user
  unfolding get_max_version
  get_max_version-ge table x i v =
      max_version_in_ge x (filter (visible user) table)
        ((filter-In (visible user) x table).1 (i, v))

  visible-touched :
      (now : ℕ) (x : EntityRow) → visible user x ≡ true → visible user (touched now x) ≡ true
  unfolding visible
  visible-touched now x v = v

  limited_empty : (limit : Option ℕ) (rows : List EntityRow) → limited limit rows ≡ [] → rows ≡ []
  unfolding limited
  limited_empty none rows h = h
  limited_empty (some zero) rows h = h
  limited_empty (some (suc n)) [] h = refl
  limited_empty (some (suc n)) (row ∷ rows) h = ground arith

  In_none : (rows : List EntityRow) → ((x : EntityRow) → In x rows → ⊥) → rows ≡ []
  In_none [] h = refl
  In_none (row ∷ rows) h = absurd (h row (inl refl))

  since_version-all :
      (table : List EntityRow) (since : ℕ) (limit : Option ℕ) (x : EntityRow)
      → In x table
      → visible user x ≡ true
      → since < x.version
      → get_changes_since_version order_by table since user limit ≢ []
  unfolding get_changes_since_version
  since_version-all table since limit x i v n e =
      let rows = filter (λ row. ltb since row.version) table in
      let none_left =
        limited_empty limit (order_by (λ row. row.version) (filter (visible user) rows)) e in
      let j = (law.same_rows (λ row. row.version) x (filter (visible user) rows)).1 (
        (filter-In (visible user) x rows).1
          ((filter-In (λ row. ltb since row.version) x table).1 (i, ground arith), v)) in
      subst (In x) none_left j

  -- There are no changes since a version exactly when `get_max_version` is not above it, whatever
  -- the limit: the version that a response reports is the one at which its client has caught up.
  pub since_version-get_max_version :
      (table : List EntityRow) (since : ℕ) (limit : Option ℕ)
      → (get_changes_since_version order_by table since user limit ≡ [])
        ↔ (get_max_version table user ≤ since)
  unfolding get_max_version
  since_version-get_max_version table since limit = (
    λ e. elim (max_version_in-In (filter (visible user) table)) [
      | inl z ↦ ground arith
      | inr (x, i, v) ↦
          let (j, seen) = (filter-In (visible user) x table).0 i in
          elim (Bool-cases (ltb since x.version)) [
            | inl t ↦
                absurd (since_version-all table since limit x j seen (ltb→lt since x.version t) e)
            | inr f ↦ ground arith
          ]
    ],
    λ h. In_none (get_changes_since_version order_by table since user limit) λ x i.
        let (j, seen, newer) = since_version-newer table since limit x i in
        let top = get_max_version-ge table x j seen in omega arith,
  )

  -- An edit of a row whose new version does not pass the highest version of the user's rows is
  -- missing from the changes since that version, under any limit, while the changes since any
  -- earlier time have it.
  pub touched-unseen :
      (table : List EntityRow) (x : EntityRow) (now earlier : ℕ) (limit : Option ℕ)
      → In x table
      → visible user x ≡ true
      → suc x.version ≤ get_max_version table user
      → earlier < now
      → (¬ (
          In (touched now x) (
            get_changes_since_version order_by
              (edit x.id now table)
              (get_max_version table user)
              user
              limit)))
        × In
            (touched now x)
            (get_changes_since_timestamp order_by (edit x.id now table) earlier user none)
  touched-unseen table x now earlier limit i v low e = (
    λ j.
        let (k, seen, newer) =
          since_version-newer (edit x.id now table) (get_max_version table user) limit
            (touched now x) j in
        omega arith,
    since_timestamp-all (edit x.id now table) earlier (touched now x)
        (In-update_where_hit (λ r. str_eq r.id x.id) (touched now) x table i (str_eq_refl x.id))
        (visible-touched now x v) e,
  )
