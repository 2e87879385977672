-- ===== src/Presets/Union.antt =====
-- The derived union on an instance and its contribution rows, over the contribution door.
use loobric_server.Base.{
  ◌≡◌, ◌≢◌, refl, sym, ap, ◌∙◌, subst, inl, inr, String, true, some, List, [], ◌∷◌, ◌++◌, map,
  filter, find?, find?-In, update_where, In, every, str_eq, str_eq_iff, Bool-cases, Option-cases,
  arith,
}
use loobric_server.Base.Tables.{In-updated}
use loobric_server.Base.Json.{Json}
use loobric_server.Base.Exec.{ok, pure, gets, modify, ◌>>=◌}
use loobric_server.Contract.Provenance.{asserted}
use loobric_server.Store.{Session, constraints_hold}
use loobric_server.Store.Frame.{IsSound, draw_ok, flush_ok, audit_ok, commit_ok, audited, drawn}
use loobric_server.Store.Rows.{InstanceRow, PresetRow, instance}
use loobric_server.Binding.Bridge.Frame.{IsFramed}
use loobric_server.Presets.{Texts, Normalized, normalize_contribution}
use loobric_server.Presets.Floor.{IsPreset, normalize_contribution-IsPreset}
use loobric_server.Presets.Door.{
  is_of, contributed, new_contribution, put_contribution, contribute_normalized, contribute,
  entry_view, record_entries, entry_check, union_leaf, with_union, stamp_union, materialize,
  owned_instance, refuse_preset, contribute_preset,
}
use loobric_server.Presets.Contributed.{
  union_of, is_row_of, union_leaf-union_of, is_of_inv, is_contribution_inv, IsCurated, is_mine,
  IsPut, added-IsPut, replaced-IsPut,
}

module _ (user : String) (named : user ≢ "") (id : String) (n : Normalized) (actor : String) where
  -- The session with other contributions.
  abbrev with_presets : List PresetRow → Session → Session
  with_presets rows s = record s { db = record s.db { presets = rows } }

  contribute_ok :
      (s : Session)
      → IsSound s
      → IsCurated user s.db.instances s.db.presets
      → ((r : PresetRow) → In r s.db.presets → r.id ≢ s.uuid s.drawn)
      → IsPreset n
      → (entry_id : String) × (t : Session) × (contribute_normalized user instance id actor n s
          ≡ (ok entry_id, audited user "ASSERT" "preset_contribution" entry_id t))
        × IsPut user id n (asserted actor) s.db.presets t.db.presets
        × IsFramed s.db s.uuid t
  unfolding contribute_normalized put_contribution pure gets modify ◌>>=◌ constraints_hold
  contribute_ok s h c unused p =
      elim (Option-cases (find? (is_mine user id n (asserted actor)) s.db.presets)) [
        | inl absent ↦
            let rows =
              s.db.presets
              ++ new_contribution user instance id n (asserted actor) (s.uuid s.drawn) ∷ [] in
            let t = with_presets rows (drawn s) in
            (
              s.uuid s.drawn,
              t,
              rw
                  (
                    absent,
                    draw_ok s,
                    flush_ok t h.holds,
                    audit_ok user "ASSERT" "preset_contribution" (s.uuid s.drawn) t named
                        (λ e. cc e) (λ e. cc e) (h.ids s.drawn) h.holds,
                  )
                  refl,
              added-IsPut user id n (asserted actor) s.db.instances s.db.presets c p
                  (s.uuid s.drawn) (h.ids s.drawn) unused absent,
              record {
                instances_eq = refl;
                entries_eq = refl;
                sets_eq = refl;
                maps_eq = refl;
                ledger_eq = refl;
                supply_eq = refl;
                sound = record { holds = h.holds; ids = h.ids };
              },
            )
        | inr (r, found) ↦
            let rows =
              update_where (λ q. str_eq q.id r.id) (contributed user n (asserted actor))
                s.db.presets in
            let t = with_presets rows s in
            let (i, _) = find?-In (is_mine user id n (asserted actor)) r s.db.presets found in
            (
              r.id,
              t,
              rw
                  (
                    found,
                    flush_ok t h.holds,
                    audit_ok user "ASSERT" "preset_contribution" r.id t named (λ e. cc e)
                        (λ e. cc e) (c.filled r i) h.holds,
                  )
                  refl,
              replaced-IsPut user id n (asserted actor) s.db.instances s.db.presets c p r found,
              record {
                instances_eq = refl;
                entries_eq = refl;
                sets_eq = refl;
                maps_eq = refl;
                ledger_eq = refl;
                supply_eq = refl;
                sound = record { holds = h.holds; ids = h.ids };
              },
            )
      ]

  -- The session with the union on the record.
  abbrev stamped : Session → Session
  stamped s = record s {
    db = record s.db {
      instances =
          update_where (λ i. str_eq i.id id)
            (with_union user (map entry_view (filter (is_of user instance id) s.db.presets)))
            s.db.instances;
    };
  }

  every-valid :
      (rows all : List PresetRow)
      → ((r : PresetRow) → In r rows → entry_check (entry_view r) ≡ true)
      → every entry_check (map entry_view (filter (is_of user instance id) rows)) ≡ true
  every-valid [] all v = refl
  every-valid (r ∷ rows) all v =
      let rest = every-valid rows all (λ x i. v x (inr i)) in
      let here = v r (inl refl) in
      elim (Bool-cases (is_of user instance id r)) [
        | inl t ↦ rw t (ground arith)
        | inr t ↦ rw t rest
      ]

  materialize_ok :
      (s : Session)
      → id ≢ ""
      → IsSound s
      → ((r : PresetRow) → In r s.db.presets → entry_check (entry_view r) ≡ true)
      → materialize user instance id s
        ≡ (ok tt, audited user "DERIVE" "tool_instance_record" id (stamped s))
  unfolding materialize stamp_union record_entries gets modify ◌>>=◌ constraints_hold
  materialize_ok s filled h v = rw (every-valid s.db.presets s.db.presets v) (
      audit_ok user "DERIVE" "tool_instance_record" id (stamped s) named (λ e. cc e) (λ e. cc e)
        filled h.holds)

  stamped-IsCurated :
      (instances : List InstanceRow) (before after : List PresetRow) (source : String)
      → IsCurated user instances before
      → IsPut user id n source before after
      → IsCurated user
          (update_where
            (λ i. str_eq i.id id)
            (with_union user (map entry_view (filter (is_of user instance id) after)))
            instances)
          after
  unfolding with_union
  stamped-IsCurated instances before after source c put = record {
    filled = put.filled;
    ids = put.ids;
    identities = put.identities;
    valid = put.valid;
    shown = λ i j mine.
        let entries = map entry_view (filter (is_of user instance id) after) in
        let (y, k, e) = In-updated (λ i. str_eq i.id id) (with_union user entries) i instances j in
        elim (Bool-cases (str_eq y.id id)) [
          | inl t ↦
              let e' : i ≡ with_union user entries y = rw t at e in
              let same : i.id ≡ id = ap (λ (w : InstanceRow). w.id) e' ∙ (str_eq_iff y.id id).0 t in
              ap (λ (w : InstanceRow). w.canonical.presets) e'
              ∙ union_leaf-union_of user id after
              ∙ ap (λ x. union_of (filter (is_row_of user x) after)) (sym same)
          | inr t ↦
              let e' : i ≡ y = rw t at e in
              let other : i.id ≢ id =
                λ q. ground (arith, str_eq_iff y.id id, ap (λ (w : InstanceRow). w.id) e', q) in
              ap (λ (w : InstanceRow). w.canonical.presets) e'
              ∙ c.shown y k (ap (λ (w : InstanceRow). w.user_id) (sym e') ∙ mine)
              ∙ ap (λ (w : InstanceRow). union_of (filter (is_row_of user w.id) before)) (sym e')
              ∙ sym (union_leaf-union_of user i.id before)
              ∙ ap (λ rows. union_leaf (map entry_view rows)) (sym (put.others i.id other))
              ∙ union_leaf-union_of user i.id after
        ];
  }

-- What the door leaves: a curated table, the instance's row among it, and its union on the instance.
pub record IsContributed (user id : String) (n : Normalized) (s : Session) : Type 0 where
  pub curated : IsCurated user s.db.instances s.db.presets
  pub committed : s.committed ≡ s.db
  pub row : PresetRow
  pub stands : In row s.db.presets
  pub owner : (row.user_id ≡ user) × (row.record_kind ≡ instance) × (row.record_id ≡ id)
  pub origin : row.origin ≡ n.origin
  pub label : row.label ≡ n.label
  pub contents : row.contents ≡ n.contents

-- By a named user, on a sound session whose contributions are curated and whose next id is not one of
-- theirs, a contribution that passes the checks to an owned instance with an id returns, commits, and
-- leaves them curated: one row for each record, origin and label, every row such that the
-- contract's validator passes it, and on every instance of the user the list of all its rows as they
-- stand, or no presets where it has none. The instance has a row with the contents sent, under the
-- origin and label sent.
pub contribute_preset-IsCurated :
    (py : Texts) (user record_id actor : String) (payload : Json) (n : Normalized) (i : InstanceRow)
    (s : Session)
    → user ≢ ""
    → i.id ≢ ""
    → IsSound s
    → IsCurated user s.db.instances s.db.presets
    → ((r : PresetRow) → In r s.db.presets → r.id ≢ s.uuid s.drawn)
    → normalize_contribution py payload ≡ some n
    → owned_instance s.db user record_id ≡ some i
    → (s' : Session) × (contribute_preset py user record_id payload actor s ≡ (ok i.id, s'))
      × IsContributed user i.id n s'
unfolding contribute_preset contribute refuse_preset gets pure ◌>>=◌ constraints_hold
contribute_preset-IsCurated py user record_id actor payload n i s named filled h c unused valid
      owned =
    let p = normalize_contribution-IsPreset py payload n valid in
    let (entry_id, t, run, put, fr) =
      contribute_ok user named i.id n (py.strip actor) s h c unused p in
    let t1 = audited user "ASSERT" "preset_contribution" entry_id t in
    let mat =
      materialize_ok user named i.id n actor t1 filled
        (record { holds = fr.sound.holds; ids = fr.sound.ids }) put.valid in
    let t2 =
      audited user "DERIVE" "tool_instance_record" i.id (stamped user named i.id n actor t1) in
    let curated =
      stamped-IsCurated user named i.id n actor t.db.instances s.db.presets t.db.presets
        (asserted (py.strip actor))
        (subst (λ xs. IsCurated user xs s.db.presets) (sym fr.instances_eq) c) put in
    let (row, stands, own, contents, _) = put.put in
    let (of, origin, label) = is_contribution_inv user instance i.id n.origin n.label row own in
    rw (owned, valid, run, mat, commit_ok t2 fr.sound.holds)
      (
        _,
        refl,
        record {
          curated = curated;
          committed = refl;
          row = row;
          stands = stands;
          owner = is_of_inv user instance i.id row of;
          origin = origin;
          label = label;
          contents = contents;
        },
      )
