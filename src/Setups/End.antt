-- ===== src/Setups/End.antt =====
-- The properties of `end` of api/machine_set_maps.py.
use loobric_server.Base.{
  ◌≡◌, refl, ◌≢◌, ◌∙◌, inl, inr, String, true, false, ◌&&◌, Option, some, find?, find?-In,
  update_where, arith, Bool-cases, str_eq, str_eq_iff,
}
use loobric_server.Base.Tables.{find?-update_where}
use loobric_server.Base.Exec.{ok, ◌>>=◌}
use loobric_server.Store.{Session, Db, constraints_hold, active_machine}
use loobric_server.Store.Frame.{IsSound, audit_ok, commit_ok, audited, committed}
use loobric_server.Store.Rows.{MapRow}
use loobric_server.Store.Unique.{unique_on-cleared, constraints_iff}
use loobric_server.Binding.Bridge.{is_active}
use loobric_server.Setups.Effect.{Untouched, ended_row-inactive}
use loobric_server.Setups.{ended_row, end_map, end}

-- The setup of that id, if the user owns it.
abbrev pub owned_map : Db → String → String → Option MapRow
owned_map db user record_id = find? (λ m. str_eq m.id record_id && str_eq m.user_id user) db.maps

module _ (user record_id : String) where
  -- The session after an active setup has ended.
  abbrev closed : Session → Session
  closed s = committed (
      audited user "END" "machine_set_map" record_id (record s {
        db = record s.db {
          maps =
              update_where (λ m. str_eq m.id record_id) (ended_row user s.api_key_id s.now)
                s.db.maps;
        };
      }))

  closed-holds : (s : Session) → IsSound s → constraints_hold (closed s).db ≡ true
  unfolding constraints_hold
  closed-holds s h =
      let parts = (constraints_iff s.db).0 h.holds in
      (constraints_iff (closed s).db).1 (
        unique_on-cleared active_machine (λ m. str_eq m.id record_id)
            (ended_row user s.api_key_id s.now) (ended_row-inactive user s.api_key_id s.now)
            s.db.maps parts.0,
        parts.1,
      )

  end_ok :
      (s : Session) (m : MapRow)
      → user ≢ ""
      → record_id ≢ ""
      → IsSound s
      → owned_map s.db user record_id ≡ some m
      → is_active m ≡ true
      → end user record_id s ≡ (ok record_id, closed s)
  unfolding end end_map ◌>>=◌ constraints_hold
  end_ok s m named ne h found on =
      let (row, t) =
        find?-In (λ r. str_eq r.id record_id && str_eq r.user_id user) m s.db.maps found in
      let same : m.id ≡ record_id = ground (arith, str_eq_iff m.id record_id) in
      let t : Session = record s {
        db = record s.db {
          maps =
              update_where (λ r. str_eq r.id record_id) (ended_row user s.api_key_id s.now)
                s.db.maps;
        };
      } in
      rw (found, on, same)
        (rw
          (audit_ok user "END" "machine_set_map" record_id t named (λ e. cc e) (λ e. cc e) ne
            (closed-holds s h))
          (rw (commit_ok (audited user "END" "machine_set_map" record_id t) (closed-holds s h))
            refl))

  end_inactive :
      (s : Session) (m : MapRow)
      → owned_map s.db user record_id ≡ some m
      → is_active m ≡ false
      → end user record_id s ≡ (ok record_id, s)
  unfolding end ◌>>=◌
  end_inactive s m found off =
      let (row, t) =
        find?-In (λ r. str_eq r.id record_id && str_eq r.user_id user) m s.db.maps found in
      let same : m.id ≡ record_id = ground (arith, str_eq_iff m.id record_id) in
      rw (found, off, same) refl

  closed-found :
      (s : Session) (m : MapRow)
      → owned_map s.db user record_id ≡ some m
      → (m' : MapRow) × (owned_map (closed s).db user record_id ≡ some m') × (is_active m' ≡ false)
  unfolding ended_row is_active
  closed-found s m found =
      let f = ended_row user s.api_key_id s.now in
      let (row, t) =
        find?-In (λ r. str_eq r.id record_id && str_eq r.user_id user) m s.db.maps found in
      let hit : str_eq m.id record_id ≡ true = ground arith in
      (
        f m,
        find?-update_where (λ r. str_eq r.id record_id && str_eq r.user_id user)
              (λ r. str_eq r.id record_id) f s.db.maps (λ r i. ground arith)
            ∙ rw (found, hit) refl,
        refl,
      )

-- A named user ends a setup that they own over a sound session: the request returns its id; after
-- it the setup is found and is not active, and the instances, the entries, the sets and the ledger
-- are unchanged; a second request returns the same and changes nothing at all.
pub end-twice :
    (user record_id : String) (s : Session) (m : MapRow)
    → user ≢ ""
    → record_id ≢ ""
    → IsSound s
    → owned_map s.db user record_id ≡ some m
    → (s' : Session) × (m' : MapRow) × (end user record_id s ≡ (ok record_id, s'))
      × (owned_map s'.db user record_id ≡ some m')
      × (is_active m' ≡ false)
      × Untouched s s'
      × (end user record_id s' ≡ (ok record_id, s'))
end-twice user record_id s m named ne h found = elim (Bool-cases (is_active m)) [
  | inr off ↦
      let run = end_inactive user record_id s m found off in
      (
        s,
        m,
        run,
        found,
        off,
        record { instances_eq = refl; entries_eq = refl; sets_eq = refl; ledger_eq = refl },
        run,
      )
  | inl on ↦
      let t = closed user record_id s in
      let (m', found', off) = closed-found user record_id s m found in
      (
        t,
        m',
        end_ok user record_id s m named ne h found on,
        found',
        off,
        record { instances_eq = refl; entries_eq = refl; sets_eq = refl; ledger_eq = refl },
        end_inactive user record_id t m' found' off,
      )
]
