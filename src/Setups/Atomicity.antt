-- ===== src/Setups/Atomicity.antt =====
-- `activate` of api/machine_set_maps.py while another user has the machine in use.
use loobric_server.Base.{
  ◌≡◌, refl, ◌≢◌, ap, ◌∙◌, inl, inr, String, true, false, none, some, [], ◌∷◌, ◌++◌, In, is_none,
  Option-cases,
}
use loobric_server.Base.Exec.{err, integrity_error, ◌>>=◌}
use loobric_server.Store.{Session, Db, constraints_hold, active_machine}
use loobric_server.Store.Frame.{draw_ok, flush_err, drawn}
use loobric_server.Store.Unique.{unique_on-eq, constraints_iff, unique_on-clash}
use loobric_server.Store.Rows.{MapRow}
use loobric_server.Binding.Bridge.{active_map_for_machine, owned_set}
use loobric_server.Setups.Effect.{active_map-row}
use loobric_server.Setups.{new_map, add_map, start_map, activate}

active_on_other-none :
    (db : Db) (user machine : String) (m : MapRow)
    → constraints_hold db ≡ true
    → In m db.maps
    → active_machine m ≡ some machine
    → m.user_id ≢ user
    → active_map_for_machine db user machine ≡ none
active_on_other-none db user machine m h row on ne =
    elim (Option-cases (active_map_for_machine db user machine)) [
      | inl e ↦ e
      | inr (c, e) ↦
          let (c_row, own, c_on) = active_map-row db user machine c e in
          let same =
            unique_on-eq active_machine machine m c db.maps ((constraints_iff db).0 h).0 row c_row
              on c_on in
          absurd (ne (ap (λ r. r.user_id) same ∙ own))
    ]

-- A second active setup on a machine does not get past the flush.
start_map-clash :
    (user machine set_id : String) (s : Session) (m : MapRow)
    → In m s.db.maps
    → active_machine m ≡ some machine
    → ((start_map user machine set_id s).0 ≡ err integrity_error)
      × ((start_map user machine set_id s).1.committed ≡ s.committed)
unfolding start_map add_map new_map ◌>>=◌ constraints_hold active_machine
start_map-clash user machine set_id s m row on =
    let new = new_map user machine set_id (s.uuid s.drawn) (drawn s) in
    let t : Session = record (drawn s) { db = record s.db { maps = s.db.maps ++ new ∷ [] } } in
    let clash = unique_on-clash active_machine machine m new s.db.maps row on refl in
    let fails : constraints_hold t.db ≡ false = rw clash refl in
    rw (draw_ok s) (rw (flush_err t fails) (refl, refl))

-- Over a session whose UNIQUE indexes hold, a user activates a set of theirs on a machine on which a
-- setup of another user is active: the request ends in the IntegrityError of the index, and nothing
-- is committed.
pub activate-foreign :
    (user machine set_id : String) (s : Session) (m : MapRow)
    → constraints_hold s.db ≡ true
    → owned_set s.db user set_id ≢ none
    → In m s.db.maps
    → active_machine m ≡ some machine
    → m.user_id ≢ user
    → ((activate user machine set_id s).0 ≡ err integrity_error)
      × ((activate user machine set_id s).1.committed ≡ s.committed)
unfolding activate ◌>>=◌
activate-foreign user machine set_id s m h has_set row on ne =
    rw (found, active_on_other-none s.db user machine m h row on ne)
      (start_map-clash user machine set_id s m row on)
  where
    found : is_none (owned_set s.db user set_id) ≡ false
    found = elim (Option-cases (owned_set s.db user set_id)) [
      | inl n ↦ absurd (has_set n)
      | inr (r, e) ↦ rw e refl
    ]
