-- ===== src/Store/Frame.antt =====
-- The session operations on a session whose UNIQUE indexes hold: each returns, with a final session
-- that is written out.
use loobric_server.Base.{
  ℕ, suc, ◌≡◌, refl, ◌≢◌, String, true, false, [], ◌∷◌, ◌++◌, str_eq, str_eq_iff, arith,
}
use loobric_server.Base.Exec.{Exec, ok, err, ◌>>=◌, integrity_error}
use loobric_server.Store.{Session, constraints_hold, flush, commit, draw}
use loobric_server.Store.Audit.{audit_row, create_audit_log}

-- A session that a request may start in: its rows meet the UNIQUE indexes, and no identifier that
-- `uuid4` gives is empty.
pub record IsSound (s : Session) : Type 0 where
  pub holds : constraints_hold s.db ≡ true
  pub ids : (n : ℕ) → s.uuid n ≢ ""

-- What comes after an action that returned.
pub bind_ok :
    {S A B : Type 0} (m : Exec S A) (f : A → Exec S B) (s s' : S) (a : A)
    → m s ≡ (ok a, s')
    → (m >>= f) s ≡ f a s'
unfolding ◌>>=◌
bind_ok m f s s' a h = rw h

-- An action that raised ends the request.
pub bind_err :
    {S A B : Type 0} (m : Exec S A) (f : A → Exec S B) (s s' : S) {e : _}
    → m s ≡ (err e, s')
    → (m >>= f) s ≡ (err e, s')
unfolding ◌>>=◌
bind_err m f s s' h = rw h

abbrev pub drawn : Session → Session
drawn s = record s { drawn = suc s.drawn }

abbrev pub committed : Session → Session
committed s = record s { committed = s.db }

-- The session after an audit row.
abbrev pub audited : String → String → String → String → Session → Session
audited user operation entity_type entity_id s = committed (record (drawn s) {
  db = record s.db {
    audit = s.audit ++ audit_row s (s.uuid s.drawn) user operation entity_type entity_id ∷ [];
  };
})

pub draw_ok : (s : Session) → draw s ≡ (ok (s.uuid s.drawn), drawn s)
unfolding draw ◌>>=◌
draw_ok s = refl

pub flush_ok : (s : Session) → constraints_hold s.db ≡ true → flush s ≡ (ok tt, s)
unfolding flush ◌>>=◌
flush_ok s h = rw h

pub flush_err : (s : Session) → constraints_hold s.db ≡ false → flush s ≡ (err integrity_error, s)
unfolding flush ◌>>=◌
flush_err s h = rw h

pub commit_ok : (s : Session) → constraints_hold s.db ≡ true → commit s ≡ (ok tt, committed s)
unfolding commit ◌>>=◌
commit_ok s h = rw (flush_ok s h)

pub commit_err : (s : Session) → constraints_hold s.db ≡ false → commit s ≡ (err integrity_error, s)
unfolding commit ◌>>=◌
commit_err s h = rw (flush_err s h)

str_eq-false : (a b : String) → a ≢ b → str_eq a b ≡ false
str_eq-false a b h = ground (arith, str_eq_iff a b)

module _ (user operation entity_type entity_id : String) (s : Session) where
  pub audit_ok :
      user ≢ ""
      → operation ≢ ""
      → entity_type ≢ ""
      → entity_id ≢ ""
      → constraints_hold s.db ≡ true
      → create_audit_log user operation entity_type entity_id s
        ≡ (ok tt, audited user operation entity_type entity_id s)
  unfolding create_audit_log draw ◌>>=◌ constraints_hold
  audit_ok u o t i h =
      rw
        (
          str_eq-false user "" u,
          str_eq-false operation "" o,
          str_eq-false entity_type "" t,
          str_eq-false entity_id "" i,
        )
        (commit_ok
          (record (drawn s) {
            db = record s.db {
              audit =
                  s.audit ++ audit_row s (s.uuid s.drawn) user operation entity_type entity_id ∷ [];
            };
          })
          h)

  -- The audit row's commit meets a violated index: nothing is committed.
  pub audit_err :
      user ≢ ""
      → operation ≢ ""
      → entity_type ≢ ""
      → entity_id ≢ ""
      → constraints_hold s.db ≡ false
      → ((create_audit_log user operation entity_type entity_id s).0 ≡ err integrity_error)
        × ((create_audit_log user operation entity_type entity_id s).1.committed ≡ s.committed)
  unfolding create_audit_log draw ◌>>=◌ constraints_hold
  audit_err u o t i h =
      rw
        (
          str_eq-false user "" u,
          str_eq-false operation "" o,
          str_eq-false entity_type "" t,
          str_eq-false entity_id "" i,
        )
        (rw
          (commit_err
            (record (drawn s) {
              db = record s.db {
                audit =
                    s.audit
                    ++ audit_row s (s.uuid s.drawn) user operation entity_type entity_id ∷ [];
              };
            })
            h)
          (refl, refl))
