-- ===== src/Presets/Contributed.antt =====
-- One contribution written to the table: what becomes of the contribution rows.
use loobric_server.Base.{
  ◌≡◌, ◌≢◌, refl, sym, ap, ◌∙◌, subst, inl, inr, String, Bool, true, false, ◌&&◌, Option, none,
  some, List, [], ◌∷◌, ◌++◌, map, filter, find?, find?-In, find?-none, update_where, In,
  In-append_right, In-snoc, str_eq, str_eq_iff, Bool-cases, arith, if◌then◌else◌,
}
use loobric_server.Base.Tables.{
  IsKeyed, update_where-IsKeyed, append-IsKeyed, filter-update_where, filter-snoc, In-updated,
  In-update_where_hit,
}
use loobric_server.Contract.{Field, PresetEntry}
use loobric_server.Store.Rows.{InstanceRow, PresetRow, RecordKind, catalog, instance}
use loobric_server.Presets.{Normalized}
use loobric_server.Presets.Floor.{IsPreset}
use loobric_server.Presets.Door.{
  is_of, is_contribution, contributed, new_contribution, entry_view, entry_check, union_leaf,
  same_kind,
}

-- Two rows of one record, from one origin, under one label.
pub record SameContribution (a b : PresetRow) : Type 0 where
  pub user : a.user_id ≡ b.user_id
  pub kind : a.record_kind ≡ b.record_kind
  pub record_id : a.record_id ≡ b.record_id
  pub origin : a.origin ≡ b.origin
  pub label : a.label ≡ b.label

-- Whose row it is, and of which instance.
abbrev pub is_row_of : String → String → PresetRow → Bool
is_row_of user id r = elim r.record_kind [
  | catalog ↦ false
  | instance ↦ str_eq r.user_id user && str_eq r.record_id id
]

-- A row as the union shows it: all of it but its owner and its record.
abbrev pub shown_row : PresetRow → PresetEntry
shown_row r = record {
  id = r.id;
  origin = r.origin;
  label = r.label;
  op_type = r.op_type;
  machine_id = r.machine_id;
  contents = r.contents;
  preset_schema = r.preset_schema;
  source = r.source;
}

-- The union of rows: every one of them, in their order, or no leaf where there is none.
abbrev pub union_of : List PresetRow → Option (Field (List PresetEntry))
union_of [] = none
union_of (r ∷ rows) = some (record {
  value = some (shown_row r ∷ map shown_row rows);
  unit = none;
  source = "derived:preset-union";
})

-- The contributions have ids and identities of their own and pass the contract's validator, and every
-- instance of the user shows the union of its rows.
pub record IsCurated (user : String) (instances : List InstanceRow) (presets : List PresetRow)
    : Type 0 where
  pub filled : (r : PresetRow) → In r presets → r.id ≢ ""
  pub ids : IsKeyed (λ a b. a.id ≡ b.id) presets
  pub identities : IsKeyed SameContribution presets
  pub valid : (r : PresetRow) → In r presets → entry_check (entry_view r) ≡ true
  pub shown :
      (i : InstanceRow)
      → In i instances
      → i.user_id ≡ user
      → i.canonical.presets ≡ union_of (filter (is_row_of user i.id) presets)

-- The code's union is the union of those rows.
pub union_leaf-union_of :
    (user id : String) (rows : List PresetRow)
    → union_leaf (map entry_view (filter (is_of user instance id) rows))
      ≡ union_of (filter (is_row_of user id) rows)
unfolding union_leaf entry_view is_of
union_leaf-union_of user id rows = rw (own rows) (leaf (filter (is_row_of user id) rows))
  where
    own : (rs : List PresetRow) → filter (is_of user instance id) rs ≡ filter (is_row_of user id) rs
    own [] = refl
    own (r ∷ rs) = ground (arith, own rs, same r.record_kind refl)
      where
        same : (k : RecordKind) → r.record_kind ≡ k → is_of user instance id r ≡ is_row_of user id r
        same catalog e = ground arith
        same instance e = ground arith

    leaf : (rs : List PresetRow) → union_leaf (map entry_view rs) ≡ union_of rs
    leaf [] = refl
    leaf (r ∷ rs) = refl

flip : {a b : PresetRow} → SameContribution a b → SameContribution b a
flip e = record {
  user = sym e.user;
  kind = sym e.kind;
  record_id = sym e.record_id;
  origin = sym e.origin;
  label = sym e.label;
}

chain : {a b c : PresetRow} → SameContribution a b → SameContribution b c → SameContribution a c
chain d e = record {
  user = d.user ∙ e.user;
  kind = d.kind ∙ e.kind;
  record_id = d.record_id ∙ e.record_id;
  origin = d.origin ∙ e.origin;
  label = d.label ∙ e.label;
}

same_kind_refl : (k : RecordKind) → same_kind k k ≡ true
same_kind_refl catalog = refl
same_kind_refl instance = refl

same_kind_eq : (a b : RecordKind) → same_kind a b ≡ true → a ≡ b
same_kind_eq catalog catalog h = refl
same_kind_eq catalog instance h = ground arith
same_kind_eq instance catalog h = ground arith
same_kind_eq instance instance h = refl

pub is_of_inv :
    (user : String) (kind : RecordKind) (id : String) (r : PresetRow)
    → is_of user kind id r ≡ true
    → (r.user_id ≡ user) × (r.record_kind ≡ kind) × (r.record_id ≡ id)
unfolding is_of
is_of_inv user kind id r h = (
  ground (arith, str_eq_iff r.user_id user),
  same_kind_eq r.record_kind kind (ground arith),
  ground (arith, str_eq_iff r.record_id id),
)

pub is_contribution_inv :
    (user : String) (kind : RecordKind) (id origin label : String) (r : PresetRow)
    → is_contribution user kind id origin label r ≡ true
    → (is_of user kind id r ≡ true) × (r.origin ≡ origin) × (r.label ≡ label)
unfolding is_contribution
is_contribution_inv user kind id origin label r h = (
  ground arith,
  ground (arith, str_eq_iff r.origin origin),
  ground (arith, str_eq_iff r.label label),
)

-- A row of another record is none of this one.
is_of-other :
    (user : String) (id other : String) (r : PresetRow)
    → is_of user instance id r ≡ true
    → other ≢ id
    → is_of user instance other r ≡ false
unfolding is_of
is_of-other user id other r h ne =
    let (_, _, e) = is_of_inv user instance id r h in
    ground (arith, str_eq_iff r.record_id other, e, ne)

module _ (user id : String) (n : Normalized) (source : String) where
  abbrev pub is_mine : PresetRow → Bool
  is_mine r = is_contribution user instance id n.origin n.label r

  -- A row of the record with the values of a preset.
  checked :
      (r : PresetRow)
      → IsPreset n
      → r.op_type ≡ n.op_type
      → r.contents ≡ n.contents
      → entry_check (entry_view r) ≡ true
  unfolding entry_check entry_view
  checked r p op c = rw (op, c) (ground (arith, p.operation, p.engineering))

  -- The contributions after a preset is put among them.
  pub record IsPut (before after : List PresetRow) : Type 0 where
    pub filled : (r : PresetRow) → In r after → r.id ≢ ""
    pub ids : IsKeyed (λ a b. a.id ≡ b.id) after
    pub identities : IsKeyed SameContribution after
    pub valid : (r : PresetRow) → In r after → entry_check (entry_view r) ≡ true
    pub others :
        (other : String)
        → other ≢ id
        → filter (is_of user instance other) after ≡ filter (is_of user instance other) before
    pub put :
        (r : PresetRow) × In r after
        × (is_mine r ≡ true)
        × (r.contents ≡ n.contents)
        × (r.source ≡ source)

  module _ (instances : List InstanceRow) (rows : List PresetRow)
      (c : IsCurated user instances rows) (p : IsPreset n) where
    -- What the assignments keep of a row.
    kept :
        (q : PresetRow → Bool) (x : PresetRow)
        → let y = if q x then contributed user n source x else x in
          (y.id ≡ x.id) × SameContribution y x
    unfolding contributed
    kept q x = elim (Bool-cases (q x)) [
      | inl t ↦
          rw t (
            refl,
            record { user = refl; kind = refl; record_id = refl; origin = refl; label = refl },
          )
      | inr t ↦
          rw t (
            refl,
            record { user = refl; kind = refl; record_id = refl; origin = refl; label = refl },
          )
    ]

    pub replaced-IsPut :
        (r : PresetRow)
        → find? is_mine rows ≡ some r
        → IsPut rows (update_where (λ q. str_eq q.id r.id) (contributed user n source) rows)
    unfolding contributed is_contribution is_of
    replaced-IsPut r found =
        let (i, mine) = find?-In is_mine r rows found in
        let q : PresetRow → Bool = λ x. str_eq x.id r.id in
        let f = contributed user n source in
        record {
          filled = λ x j.
              let (y, k, e) = In-updated q f x rows j in
              λ z. c.filled y k (sym (kept q y).0 ∙ ap (λ w. w.id) (sym e) ∙ z);
          ids =
              update_where-IsKeyed (λ a b. a.id ≡ b.id) q f
                (λ x y e. sym (kept q x).0 ∙ e ∙ (kept q y).0) rows c.ids;
          identities =
              update_where-IsKeyed SameContribution q f
                (λ x y e. chain (flip (kept q x).1) (chain e (kept q y).1)) rows c.identities;
          valid = λ x j.
              let (y, k, e) = In-updated q f x rows j in
              elim (Bool-cases (q y)) [
                | inl t ↦
                    let e' : x ≡ f y = rw t at e in
                    checked x p (ap (λ w. w.op_type) e') (ap (λ w. w.contents) e')
                | inr t ↦
                    let e' : x ≡ y = rw t at e in
                    subst (λ w. entry_check (entry_view w) ≡ true) (sym e') (c.valid y k)
              ];
          others = λ other ne. filter-update_where (is_of user instance other) q f rows λ x j t.
              let same = c.ids x r j i ((str_eq_iff x.id r.id).0 t) in
              let no =
                subst (λ w. is_of user instance other w ≡ false) (sym same)
                  (is_of-other user id other r
                    (is_contribution_inv user instance id n.origin n.label r mine).0 ne) in
              (no, no);
          put = (
            f r,
            In-update_where_hit q f r rows i ((str_eq_iff r.id r.id).1 refl),
            mine,
            refl,
            refl,
          );
        }

    pub added-IsPut :
        (fresh : String)
        → fresh ≢ ""
        → ((r : PresetRow) → In r rows → r.id ≢ fresh)
        → find? is_mine rows ≡ none
        → IsPut rows (rows ++ new_contribution user instance id n source fresh ∷ [])
    unfolding new_contribution is_contribution is_of
    added-IsPut fresh filled unused absent =
        let z = new_contribution user instance id n source fresh in
        let own : is_mine z ≡ true = ground (
          arith,
          str_eq_iff user user,
          str_eq_iff id id,
          str_eq_iff n.origin n.origin,
          str_eq_iff n.label n.label,
        ) in
        record {
          filled = λ x j. elim (In-snoc x z rows j) [
            | inl a ↦ c.filled x a
            | inr b ↦ λ e. filled (ap (λ w. w.id) (sym b) ∙ e)
          ];
          ids =
              append-IsKeyed (λ a b. a.id ≡ b.id) rows z c.ids (λ x a e. unused x a e)
                (λ x a e. unused x a (sym e));
          identities =
              append-IsKeyed SameContribution rows z c.identities (λ x a e. not_mine x a e)
                (λ x a e. not_mine x a (flip e));
          valid = λ x j. elim (In-snoc x z rows j) [
            | inl a ↦ c.valid x a
            | inr b ↦ checked x p (ap (λ w. w.op_type) b) (ap (λ w. w.contents) b)
          ];
          others = λ other ne. filter-snoc (is_of user instance other) z rows (
              is_of-other user id other z
                (is_contribution_inv user instance id n.origin n.label z own).0 ne);
          put = (z, In-append_right z rows (z ∷ []) (inl refl), own, refl, refl);
        }
      where
        not_mine :
            (x : PresetRow)
            → In x rows
            → SameContribution x (new_contribution user instance id n source fresh)
            → ⊥
        not_mine x a e =
            let no = find?-none is_mine x rows absent a in
            let yes : is_mine x ≡ true = ground (
              arith,
              str_eq_iff x.user_id user,
              str_eq_iff x.record_id id,
              str_eq_iff x.origin n.origin,
              str_eq_iff x.label n.label,
              e.user,
              e.kind,
              e.record_id,
              e.origin,
              e.label,
            ) in
            ground arith
