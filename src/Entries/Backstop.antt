-- ===== src/Entries/Backstop.antt =====
-- `bind_instance` for an instance that an entry of another user holds.
use loobric_server.Base.{
  ◌≡◌, refl, ◌≢◌, ap, sym, ◌∙◌, inl, inr, String, true, false, not, ◌&&◌, none, some, In, find?-In,
  update_where, arith, Bool-cases, str_eq, str_eq_iff, opt_is, opt_is_iff,
}
use loobric_server.Base.Tables.{find?-all_false, In-update_where_miss, In-update_where_hit}
use loobric_server.Base.Exec.{err, integrity_error, ◌>>=◌}
use loobric_server.Store.{Session, Db, constraints_hold, unique_on}
use loobric_server.Store.Frame.{audit_err}
use loobric_server.Store.Unique.{unique_on-eq, constraints_iff, unique_on-two}
use loobric_server.Store.Rows.{EntryRow}
use loobric_server.Binding.Proposals.{close_open_proposal_on_bind}
use loobric_server.Entries.{
  BindRequest, owned, bound_row, elsewhere, vacate, bind_target, install, bind_instance,
}

-- Only one entry holds the instance, so the user holds it at no other entry.
elsewhere-none :
    (db : Db) (user record_id instance_id : String) (e : EntryRow)
    → constraints_hold db ≡ true
    → In e db.entries
    → e.bound_instance_id ≡ some instance_id
    → e.user_id ≢ user
    → elsewhere db user record_id instance_id ≡ none
unfolding elsewhere
elsewhere-none db user record_id instance_id e h row holds foreign =
    find?-all_false
      (λ x.
        str_eq x.user_id user
        && opt_is x.bound_instance_id instance_id
        && not (str_eq x.id record_id))
      db.entries
      (λ x i.
        elim (Bool-cases (
          str_eq x.user_id user
          && opt_is x.bound_instance_id instance_id
          && not (str_eq x.id record_id))) [
            | inr q ↦ q
            | inl q ↦
                let same =
                  unique_on-eq (λ (r : EntryRow). r.bound_instance_id) instance_id x e db.entries
                    ((constraints_iff db).0 h).1 i row
                    ((opt_is_iff x.bound_instance_id instance_id).0 (ground arith)) holds in
                let own : x.user_id ≡ user = ground (arith, str_eq_iff x.user_id user) in
                absurd (foreign (ap (λ r. r.user_id) (sym same) ∙ own))
          ])

bound_row-holds :
    (user instance_id actor : String) (r : EntryRow)
    → ((bound_row user (some instance_id) actor r).bound_instance_id ≡ some instance_id)
      × ((bound_row user (some instance_id) actor r).id ≡ r.id)
unfolding bound_row
bound_row-holds user instance_id actor r = (refl, refl)

-- With the user's entry bound too, two entries hold the instance.
bound_twice :
    (db : Db) (user record_id instance_id actor : String) (row e : EntryRow)
    → In row db.entries
    → row.id ≡ record_id
    → In e db.entries
    → e.bound_instance_id ≡ some instance_id
    → e.id ≢ record_id
    → unique_on
        (λ (r : EntryRow). r.bound_instance_id)
        (update_where
          (λ r. str_eq r.id record_id)
          (bound_row user (some instance_id) actor)
          db.entries)
      ≡ false
bound_twice db user record_id instance_id actor row e i same j holds other =
    let f = bound_row user (some instance_id) actor in
    let (key, id) = bound_row-holds user instance_id actor row in
    unique_on-two (λ (r : EntryRow). r.bound_instance_id) instance_id (f row) e
      (update_where (λ r. str_eq r.id record_id) f db.entries)
      (In-update_where_hit (λ r. str_eq r.id record_id) f row db.entries i
        ((str_eq_iff row.id record_id).1 same))
      (In-update_where_miss (λ r. str_eq r.id record_id) f e db.entries j
        (ground (arith, str_eq_iff e.id record_id)))
      (λ q. other (ap (λ r. r.id) (sym q) ∙ id ∙ same)) key holds

install-taken :
    (user record_id instance_id actor : String) (s : Session)
    → user ≢ ""
    → record_id ≢ ""
    → unique_on
        (λ (r : EntryRow). r.bound_instance_id)
        (update_where
          (λ r. str_eq r.id record_id)
          (bound_row user (some instance_id) actor)
          s.db.entries)
      ≡ false
    → ((install user record_id instance_id actor s).0 ≡ err integrity_error)
      × ((install user record_id instance_id actor s).1.committed ≡ s.committed)
unfolding install close_open_proposal_on_bind ◌>>=◌ constraints_hold
install-taken user record_id instance_id actor s named ne clash =
    let u : Session = record s {
      db = record s.db {
        entries =
            update_where (λ r. str_eq r.id record_id) (bound_row user (some instance_id) actor)
              s.db.entries;
      };
    } in
    let t = (close_open_proposal_on_bind user record_id instance_id u).1 in
    let fails : constraints_hold t.db ≡ false = ground arith in
    let (e, kept) =
      audit_err user "BIND" "tool_table_entry_record" record_id t named (λ e. cc e) (λ e. cc e) ne
        fails in
    rw e (refl, kept)

-- A user binds their entry to an instance that an entry of another user holds, over a session whose
-- UNIQUE index holds. Whether or not `move` is set, the request ends in the IntegrityError of the
-- index and not in the 409 of the handler's `except`, and nothing is committed.
pub bind_instance-foreign :
    (user record_id instance_id : String) (req : BindRequest) (s : Session) (row e : EntryRow)
    → user ≢ ""
    → record_id ≢ ""
    → constraints_hold s.db ≡ true
    → req.instance_id ≡ some instance_id
    → owned s.db user record_id ≡ some row
    → In e s.db.entries
    → e.bound_instance_id ≡ some instance_id
    → e.user_id ≢ user
    → e.id ≢ record_id
    → ((bind_instance user record_id req s).0 ≡ err integrity_error)
      × ((bind_instance user record_id req s).1.committed ≡ s.committed)
unfolding bind_instance bind_target vacate owned ◌>>=◌
bind_instance-foreign user record_id instance_id req s row e named ne h asked found e_row holds
      foreign other =
    let (i, t) =
      find?-In (λ r. str_eq r.id record_id && str_eq r.user_id user) row s.db.entries found in
    let same : row.id ≡ record_id = ground (arith, str_eq_iff row.id record_id) in
    rw (found, asked, elsewhere-none s.db user row.id instance_id e h e_row holds foreign)
      (install-taken user record_id instance_id req.actor s named ne
        (bound_twice s.db user record_id instance_id req.actor row e i same e_row holds other))
