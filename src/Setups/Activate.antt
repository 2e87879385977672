-- ===== src/Setups/Activate.antt =====
-- The properties of `activate` of api/machine_set_maps.py.
use loobric_server.Base.{
  ◌≡◌, refl, ap, sym, ◌∙◌, ◌≢◌, String, true, false, Option, none, some, List, [], ◌∷◌, ◌++◌, In,
  str_eq_iff, arith,
}
use loobric_server.Base.Tables.{find?-all_false, find?-append}
use loobric_server.Base.Exec.{ok}
use loobric_server.Store.{Session, Db, constraints_hold, active_machine}
use loobric_server.Store.Frame.{IsSound, drawn}
use loobric_server.Store.Rows.{MapRow}
use loobric_server.Binding.Bridge.{is_setup_of, is_active, active_map_for_machine, owned_set}
use loobric_server.Setups.{new_map, activate}
use loobric_server.Setups.Effect.{
  Untouched, IsIdle, fresh_map, ended_maps, replaced, active_map-row, ended_maps-IsIdle,
  IsIdle-of_none, Effect, started, already, switched, activate_ok,
}

-- On an idle machine the query selects no row.
idle-not_selected :
    (user machine : String) (maps : List MapRow)
    → IsIdle machine maps
    → (m : MapRow) → In m maps
    → is_setup_of user machine m ≡ false
unfolding is_setup_of is_active active_machine
idle-not_selected user machine maps idle m i =
    let ne = idle m i in ground (arith, str_eq_iff m.machine_id machine)

-- What the query finds after a setup is added on an idle machine.
active_map-append :
    (db : Db) (user machine : String) (maps : List MapRow) (m : MapRow)
    → db.maps ≡ maps ++ m ∷ []
    → IsIdle machine maps
    → is_setup_of user machine m ≡ true
    → active_map_for_machine db user machine ≡ some m
unfolding active_map_for_machine
active_map-append db user machine maps m e idle new =
    rw
      (
        e,
        find?-append (is_setup_of user machine) maps (m ∷ []),
        find?-all_false (is_setup_of user machine) maps (idle-not_selected user machine maps idle),
        new,
      )
      refl

fresh_map-selected :
    (user machine set_id id : String) (s : Session)
    → is_setup_of user machine (new_map user machine set_id id s) ≡ true
unfolding is_setup_of is_active new_map
fresh_map-selected user machine set_id id s =
    ground (arith, str_eq_iff user user, str_eq_iff machine machine)

new_map-set :
    (user machine set_id id : String) (s : Session)
    → ((new_map user machine set_id id s).tool_set_id ≡ set_id)
      × ((new_map user machine set_id id s).id ≡ id)
unfolding new_map
new_map-set user machine set_id id s = (refl, refl)

active_after :
    (user machine set_id : String) (named : user ≢ "") (s s' : Session) (id : String)
    (current : Option MapRow)
    → active_map_for_machine s.db user machine ≡ current
    → Effect user machine set_id named s s' id current
    → IsSound s
    → ((m : MapRow) → In m s.db.maps → active_machine m ≡ some machine → m.user_id ≡ user)
    → (row : MapRow) × (id ≡ row.id)
      × (active_map_for_machine s'.db user machine ≡ some row)
      × (row.tool_set_id ≡ set_id)
active_after user machine set_id named s s' id _ e (started maps i) h mine =
    let new = fresh_map user machine set_id named s in
    let (of_set, has_id) = new_map-set user machine set_id (s.uuid s.drawn) (drawn s) in
    (
      new,
      i ∙ sym has_id,
      active_map-append s'.db user machine s.db.maps new maps
          (IsIdle-of_none s.db user machine e mine)
          (fresh_map-selected user machine set_id (s.uuid s.drawn) (drawn s)),
      of_set,
    )
active_after user machine set_id named s s' id _ e (already cur of_set i keep) h mine =
    (cur, i, ap (λ t. active_map_for_machine t.db user machine) keep ∙ e, of_set)
active_after user machine set_id named s s' id _ e (switched cur ne maps i) h mine =
    let (row, _, on) = active_map-row s.db user machine cur e in
    let t = replaced user machine set_id named cur s in
    let new = fresh_map user machine set_id named t in
    let (of_set, has_id) = new_map-set user machine set_id (t.uuid t.drawn) (drawn t) in
    (
      new,
      i ∙ sym has_id,
      active_map-append s'.db user machine (ended_maps user cur s) new maps
          (ended_maps-IsIdle user machine cur s h.holds row on)
          (fresh_map-selected user machine set_id (t.uuid t.drawn) (drawn t)),
      of_set,
    )

-- Over a sound session a named user activates a set of theirs on a machine; every setup has an id,
-- and no other user has a setup active on that machine. The request returns the id of the machine's
-- active setup, which is one of that set; the instances, the entries, the sets and the ledger are
-- unchanged, and the UNIQUE indexes hold.
pub activate-active :
    (user machine set_id : String) (s : Session)
    → user ≢ ""
    → IsSound s
    → owned_set s.db user set_id ≢ none
    → ((m : MapRow) → In m s.db.maps → m.id ≢ "")
    → ((m : MapRow) → In m s.db.maps → active_machine m ≡ some machine → m.user_id ≡ user)
    → (s' : Session) × (row : MapRow) × (activate user machine set_id s ≡ (ok row.id, s'))
      × (active_map_for_machine s'.db user machine ≡ some row)
      × (row.tool_set_id ≡ set_id)
      × Untouched s s'
      × (constraints_hold s'.db ≡ true)
activate-active user machine set_id s named h has_set keyed mine =
    let (s', id, run, effect, same, sound) =
      activate_ok user machine set_id named s h has_set keyed mine in
    let (row, e, shown, of_set) =
      active_after user machine set_id named s s' id (active_map_for_machine s.db user machine) refl
        effect h mine in
    (s', row, run ∙ ap (λ i. (ok i, s')) e, shown, of_set, same, sound.holds)

-- No two setups share an id.
abbrev pub HasKeys : List MapRow → Type 0
HasKeys maps = (a b : MapRow) → In a maps → In b maps → a.id ≡ b.id → a ≡ b
