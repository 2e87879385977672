-- ===== src/Entries/Vacate.antt =====
-- The steps of `bind_instance`: the old entry is vacated, and the new one is bound.
use loobric_server.Base.{
  ◌≡◌, refl, ◌≢◌, ◌⊎◌, inl, inr, ap, sym, ◌∙◌, String, Bool, true, false, not, ◌&&◌, Option, none,
  some, List, In, find?, find?-In, find?-none, update_where, is_none, arith, str_eq, str_eq_iff,
  opt_is, opt_is_iff,
}
use loobric_server.Base.Tables.{find?-update_where, In-update_where}
use loobric_server.Base.Exec.{ok, ◌>>=◌, pure}
use loobric_server.Store.{Session, Db, constraints_hold, unique_on}
use loobric_server.Store.Frame.{IsSound, audit_ok, commit_ok, audited, committed}
use loobric_server.Store.Unique.{
  unique_on-eq, constraints_iff, unique_on-update_where, unique_on-cleared, unique_on-assign,
}
use loobric_server.Store.Rows.{EntryRow}
use loobric_server.Binding.Proposals.{close_open_proposal_on_bind}
use loobric_server.Entries.{owned, bound_row, elsewhere, vacate, commit_or_conflict, install}

-- No two entries share an id: the primary key.
abbrev pub HasEntryKeys : Db → Type 0
HasEntryKeys db = unique_on (λ (e : EntryRow). some e.id) db.entries ≡ true

-- No entry but that one holds the instance.
abbrev pub IsFree : String → String → Db → Type 0
IsFree record_id instance_id db =
    (e : EntryRow) → In e db.entries → e.id ≢ record_id → e.bound_instance_id ≢ some instance_id

elsewhere-row :
    (db : Db) (user record_id instance_id : String) (y : EntryRow)
    → elsewhere db user record_id instance_id ≡ some y
    → In y db.entries × (y.id ≢ record_id) × (y.bound_instance_id ≡ some instance_id)
unfolding elsewhere
elsewhere-row db user record_id instance_id y h =
    let (i, t) =
      find?-In
        (λ x.
          str_eq x.user_id user
          && opt_is x.bound_instance_id instance_id
          && not (str_eq x.id record_id))
        y db.entries h in
    (
      i,
      λ e. ground (arith, str_eq_iff y.id record_id),
      (opt_is_iff y.bound_instance_id instance_id).0 (ground arith),
    )

pub owned-row :
    (db : Db) (user record_id : String) (row : EntryRow)
    → owned db user record_id ≡ some row
    → In row db.entries × (row.id ≡ record_id)
unfolding owned
owned-row db user record_id row h =
    let (i, t) = find?-In (λ r. str_eq r.id record_id && str_eq r.user_id user) row db.entries h in
    (i, (str_eq_iff row.id record_id).0 (ground arith))

-- The user's own entry while another one is vacated.
owned-update :
    (db : Db) (user record_id actor : String) (row y : EntryRow)
    → owned db user record_id ≡ some row
    → y.id ≢ record_id
    → find?
        (λ r. str_eq r.id record_id && str_eq r.user_id user)
        (update_where (λ x. str_eq x.id y.id) (bound_row user none actor) db.entries)
      ≡ some row
unfolding owned bound_row
owned-update db user record_id actor row y found other =
    let (i, same) = owned-row db user record_id row found in
    find?-update_where (λ r. str_eq r.id record_id && str_eq r.user_id user) (λ x. str_eq x.id y.id)
      (bound_row user none actor) db.entries (λ r j. ground arith)
    ∙ rw (found, differ same) refl
  where
    differ : row.id ≡ record_id → str_eq row.id y.id ≡ false
    differ same = ground (arith, str_eq_iff row.id y.id)

-- The user's own entry once it is bound.
pub owned-placed :
    (entries : List EntryRow) (user record_id instance_id actor : String) (row : EntryRow)
    → find? (λ r. str_eq r.id record_id && str_eq r.user_id user) entries ≡ some row
    → find?
        (λ r. str_eq r.id record_id && str_eq r.user_id user)
        (update_where
          (λ e. str_eq e.id record_id)
          (bound_row user (some instance_id) actor)
          entries)
      ≡ some (bound_row user (some instance_id) actor row)
unfolding bound_row
owned-placed entries user record_id instance_id actor row found =
    let (i, t) = find?-In (λ r. str_eq r.id record_id && str_eq r.user_id user) row entries found in
    let same : str_eq row.id record_id ≡ true = ground arith in
    find?-update_where (λ r. str_eq r.id record_id && str_eq r.user_id user)
      (λ x. str_eq x.id record_id) (bound_row user (some instance_id) actor) entries
      (λ r j. ground arith)
    ∙ rw (found, same) refl

module _ (user record_id instance_id actor : String) (named : user ≢ "") where
  abbrev placed : List EntryRow → List EntryRow
  placed entries =
      update_where (λ e. str_eq e.id record_id) (bound_row user (some instance_id) actor) entries

  pub install_ok :
      (s : Session)
      → record_id ≢ ""
      → IsSound s
      → HasEntryKeys s.db
      → IsFree record_id instance_id s.db
      → (s' : Session) × (install user record_id instance_id actor s ≡ (ok record_id, s'))
        × (s'.db.entries ≡ placed s.db.entries)
        × (s'.db.instances ≡ s.db.instances)
        × (constraints_hold s'.db ≡ true)
  unfolding install close_open_proposal_on_bind commit_or_conflict ◌>>=◌ constraints_hold bound_row
  install_ok s ne h keys free =
      let u : Session = record s { db = record s.db { entries = placed s.db.entries } } in
      let t = (close_open_proposal_on_bind user record_id instance_id u).1 in
      let parts = (constraints_iff s.db).0 h.holds in
      let holds : constraints_hold t.db ≡ true = (constraints_iff t.db).1 (
        parts.0,
        unique_on-assign (λ (e : EntryRow). e.id) (λ (e : EntryRow). e.bound_instance_id)
            instance_id record_id (bound_row user (some instance_id) actor) (λ e. refl) s.db.entries
            keys parts.1 free,
      ) in
      let v = audited user "BIND" "tool_table_entry_record" record_id t in
      (
        committed v,
        rw
            (audit_ok user "BIND" "tool_table_entry_record" record_id t named (λ e. cc e)
              (λ e. cc e) ne holds)
            (rw (commit_ok v holds) refl),
        refl,
        refl,
        holds,
      )

  -- What the vacated entry leaves: the user's own entry is as it was and the instance is free.
  pub vacate_ok :
      (s : Session) (row : EntryRow) (move : Bool) (other : Option EntryRow)
      → elsewhere s.db user record_id instance_id ≡ other
      → (is_none other ≡ true) ⊎ (move ≡ true)
      → IsSound s
      → HasEntryKeys s.db
      → ((e : EntryRow) → In e s.db.entries → e.id ≢ "")
      → ((e : EntryRow)
          → In e s.db.entries
          → e.bound_instance_id ≡ some instance_id
          → e.user_id ≡ user)
      → owned s.db user record_id ≡ some row
      → (t : Session) × (vacate user actor move other s ≡ (ok tt, t))
        × IsSound t
        × HasEntryKeys t.db
        × IsFree record_id instance_id t.db
        × (find? (λ r. str_eq r.id record_id && str_eq r.user_id user) t.db.entries ≡ some row)
        × (t.db.instances ≡ s.db.instances)
  unfolding vacate elsewhere owned pure ◌>>=◌ constraints_hold bound_row
  vacate_ok s row move none e may h keys ids mine found = (
    s,
    refl,
    h,
    keys,
    λ x i ne on.
        let miss =
          find?-none
            (λ y.
              str_eq y.user_id user
              && opt_is y.bound_instance_id instance_id
              && not (str_eq y.id record_id))
            x s.db.entries e i in
        ground (
          arith,
          mine x i on,
          str_eq_iff x.user_id user,
          opt_is_iff x.bound_instance_id instance_id,
          str_eq_iff x.id record_id,
        ),
    found,
    refl,
  )
  vacate_ok s row move (some y) e may h keys ids mine found =
      let (y_row, y_other, y_on) = elsewhere-row s.db user record_id instance_id y e in
      let moves : move ≡ true = elim may [ inl n ↦ absurd (not_none n) | inr m ↦ m ] in
      let hit = λ (x : EntryRow). str_eq x.id y.id in
      let f = bound_row user none actor in
      let u : Session = record s {
        db = record s.db { entries = update_where hit f s.db.entries };
      } in
      let parts = (constraints_iff s.db).0 h.holds in
      let holds : constraints_hold u.db ≡ true = (constraints_iff u.db).1 (
        parts.0,
        unique_on-cleared (λ (x : EntryRow). x.bound_instance_id) hit f (λ x. refl) s.db.entries
            parts.1,
      ) in
      (
        audited user "UNBIND" "tool_table_entry_record" y.id u,
        rw moves (
            audit_ok user "UNBIND" "tool_table_entry_record" y.id u named (λ e. cc e) (λ e. cc e)
              (ids y y_row) holds),
        record { holds = holds; ids = h.ids },
        unique_on-update_where (λ (x : EntryRow). some x.id) hit f (λ x. refl) s.db.entries ∙ keys,
        λ x i ne on.
            let (z, z_row, d) = In-update_where hit f x s.db.entries i in
            elim d [
              | inl (q, w) ↦ none_ne (sym (ap (λ (r : EntryRow). r.bound_instance_id) w) ∙ on)
              | inr (q, w) ↦
                  let same =
                    unique_on-eq (λ (r : EntryRow). r.bound_instance_id) instance_id z y
                      s.db.entries parts.1 z_row y_row
                      (ap (λ (r : EntryRow). r.bound_instance_id) (sym w) ∙ on) y_on in
                  ground (arith, str_eq_iff z.id y.id, ap (λ (r : EntryRow). r.id) same)
            ],
        owned-update s.db user record_id actor row y found y_other,
        refl,
      )
    where
      none_ne : {x : String} → none ≡ some x → ⊥
      none_ne q = ground arith

      not_none : is_none (some y) ≡ true → ⊥
      not_none q = ground arith
