-- ===== src/Setups/Effect.antt =====
-- The run of `activate` over a sound session, case by case of the setup that was active.
use loobric_server.Base.{
  ℕ, suc, ◌≡◌, refl, ap, sym, ◌∙◌, ◌≢◌, inl, inr, String, true, false, Option, none, some, List, [],
  ◌∷◌, ◌++◌, In, find?-In, find?-none, update_where, str_eq, str_eq_iff, is_none, arith, Bool-cases,
  Option-cases,
}
use loobric_server.Base.Tables.{In-update_where}
use loobric_server.Base.Exec.{ok, ◌>>=◌, pure}
use loobric_server.Base.Exec.Runs.{Runs-ok}
use loobric_server.Store.{Session, Db, constraints_hold, active_machine}
use loobric_server.Store.Frame.{
  IsSound, bind_ok, draw_ok, flush_ok, commit_ok, audit_ok, audited, drawn, committed,
}
use loobric_server.Store.Unique.{unique_on-eq, unique_on-cleared, unique_on-append, constraints_iff}
use loobric_server.Store.Rows.{MapRow}
use loobric_server.Binding.Bridge.{
  is_setup_of, is_active, active_map_for_machine, owned_set, bridge_requested_claims,
}
use loobric_server.Binding.Bridge.Frame.{bridge-Runs}
use loobric_server.Setups.{
  ended_row, end_map, new_map, add_map, start_map, replace_map, activate_over, activate,
}

-- What a request of `activate` leaves as it was.
pub record Untouched (s s' : Session) : Type 0 where
  pub instances_eq : s'.db.instances ≡ s.db.instances
  pub entries_eq : s'.db.entries ≡ s.db.entries
  pub sets_eq : s'.db.sets ≡ s.db.sets
  pub ledger_eq : s'.db.ledger ≡ s.db.ledger

-- No setup is active on the machine.
abbrev pub IsIdle : String → List MapRow → Type 0
IsIdle machine maps = (m : MapRow) → In m maps → active_machine m ≢ some machine

module _ (user machine set_id : String) (named : user ≢ "") where
  abbrev pub fresh_map : Session → MapRow
  fresh_map s = new_map user machine set_id (s.uuid s.drawn) (drawn s)

  start_map_ok :
      (s : Session)
      → IsSound s
      → IsIdle machine s.db.maps
      → (s' : Session) × (start_map user machine set_id s ≡ (ok (s.uuid s.drawn), s'))
        × (s'.db.maps ≡ s.db.maps ++ fresh_map s ∷ [])
        × Untouched s s'
        × IsSound s'
  unfolding start_map add_map ◌>>=◌ constraints_hold active_machine
  start_map_ok s h idle =
      let id = s.uuid s.drawn in
      let t : Session = record (drawn s) {
        db = record s.db { maps = s.db.maps ++ fresh_map s ∷ [] };
      } in
      let parts = (constraints_iff s.db).0 h.holds in
      let holds : constraints_hold t.db ≡ true = (constraints_iff t.db).1 (
        unique_on-append active_machine (fresh_map s) s.db.maps parts.0
            (λ x k row e q. idle x row (e ∙ sym q)),
        parts.1,
      ) in
      let u = audited user "ACTIVATE" "machine_set_map" id t in
      let (n, v, run, f) =
        Runs-ok (bridge_requested_claims user machine) (bridge-Runs u.db u.uuid user named machine)
          u
          (record {
            instances_eq = refl;
            entries_eq = refl;
            sets_eq = refl;
            maps_eq = refl;
            ledger_eq = refl;
            supply_eq = refl;
            sound = record { holds = holds; ids = h.ids };
          }) in
      (
        committed v,
        rw (draw_ok s) (
            rw (flush_ok t holds) (
              rw
                (audit_ok user "ACTIVATE" "machine_set_map" id t named (λ e. cc e) (λ e. cc e)
                  (h.ids s.drawn) holds)
                (rw run (rw (commit_ok v f.sound.holds) refl)))),
        f.maps_eq,
        record {
          instances_eq = f.instances_eq;
          entries_eq = f.entries_eq;
          sets_eq = f.sets_eq;
          ledger_eq = f.ledger_eq;
        },
        record { holds = f.sound.holds; ids = f.sound.ids },
      )

-- The setups with the prior one ended.
abbrev pub ended_maps : String → MapRow → Session → List MapRow
ended_maps user cur s =
    update_where (λ m. str_eq m.id cur.id) (ended_row user s.api_key_id s.now) s.db.maps

pub active_map-row :
    (db : Db) (user machine : String) (m : MapRow)
    → active_map_for_machine db user machine ≡ some m
    → In m db.maps × (m.user_id ≡ user) × (active_machine m ≡ some machine)
unfolding active_map_for_machine is_setup_of is_active active_machine
active_map-row db user machine m h =
    let (row, t) = find?-In (is_setup_of user machine) m db.maps h in
    (
      row,
      ground (arith, str_eq_iff m.user_id user),
      ground (arith, str_eq_iff m.machine_id machine),
    )

pub ended_row-inactive :
    (user : String) (key : Option String) (now : ℕ) (m : MapRow)
    → active_machine (ended_row user key now m) ≡ none
unfolding ended_row active_machine
ended_row-inactive user key now m = refl

-- Under the index the machine is idle once its active setup has ended.
pub ended_maps-IsIdle :
    (user machine : String) (cur : MapRow) (s : Session)
    → constraints_hold s.db ≡ true
    → In cur s.db.maps
    → active_machine cur ≡ some machine
    → IsIdle machine (ended_maps user cur s)
ended_maps-IsIdle user machine cur s h row on m i e =
    let (y, y_row, d) =
      In-update_where (λ x. str_eq x.id cur.id) (ended_row user s.api_key_id s.now) m s.db.maps i in
    elim d [
      | inl (t, w) ↦ cc (ended_row-inactive user s.api_key_id s.now y, ap active_machine w, e)
      | inr (t, w) ↦
          let same : y ≡ cur =
            unique_on-eq active_machine machine y cur s.db.maps ((constraints_iff s.db).0 h).0 y_row
              row (ap active_machine (sym w) ∙ e) on in
          ground (arith, str_eq_iff y.id cur.id)
    ]

-- Without an active setup of the user the machine is idle, if nobody else has one on it.
pub IsIdle-of_none :
    (db : Db) (user machine : String)
    → active_map_for_machine db user machine ≡ none
    → ((m : MapRow) → In m db.maps → active_machine m ≡ some machine → m.user_id ≡ user)
    → IsIdle machine db.maps
unfolding active_map_for_machine is_setup_of is_active active_machine
IsIdle-of_none db user machine h mine m i e =
    let miss = find?-none (is_setup_of user machine) m db.maps h i in
    ground (arith, str_eq_iff m.user_id user, str_eq_iff m.machine_id machine, mine m i e)

module _ (user machine set_id : String) (named : user ≢ "") where
  -- The session after the prior setup has ended.
  abbrev pub replaced : MapRow → Session → Session
  replaced cur s =
      audited user "END" "machine_set_map" cur.id
        (record s { db = record s.db { maps = ended_maps user cur s } })

  replaced-IsSound : (cur : MapRow) (s : Session) → IsSound s → IsSound (replaced cur s)
  unfolding constraints_hold
  replaced-IsSound cur s h =
      let parts = (constraints_iff s.db).0 h.holds in
      record {
        holds = (constraints_iff (replaced cur s).db).1 (
          unique_on-cleared active_machine (λ m. str_eq m.id cur.id)
              (ended_row user s.api_key_id s.now) (ended_row-inactive user s.api_key_id s.now)
              s.db.maps parts.0,
          parts.1,
        );
        ids = h.ids;
      }

  replace_map_ok :
      (cur : MapRow) (s : Session)
      → cur.id ≢ ""
      → IsSound s
      → replace_map user cur s ≡ (ok tt, replaced cur s)
  unfolding replace_map end_map ◌>>=◌ constraints_hold
  replace_map_ok cur s ne h =
      audit_ok user "END" "machine_set_map" cur.id
        (record s { db = record s.db { maps = ended_maps user cur s } }) named (λ e. cc e)
        (λ e. cc e) ne (replaced-IsSound cur s h).holds

  -- How the setups come out, by the setup that was active.
  pub data Effect (s s' : Session) (id : String) : Option MapRow → Type 0 where
    started :
        s'.db.maps ≡ s.db.maps ++ fresh_map user machine set_id named s ∷ []
        → id ≡ s.uuid s.drawn
        → Effect s s' id none
    already :
        (cur : MapRow) → cur.tool_set_id ≡ set_id → id ≡ cur.id → s' ≡ s → Effect s s' id (some cur)
    switched :
        (cur : MapRow)
        → cur.tool_set_id ≢ set_id
        → s'.db.maps
          ≡ ended_maps user cur s ++ fresh_map user machine set_id named (replaced cur s) ∷ []
        → id ≡ s.uuid (suc s.drawn)
        → Effect s s' id (some cur)

  Untouched-refl : (s : Session) → Untouched s s
  Untouched-refl s = record {
    instances_eq = refl;
    entries_eq = refl;
    sets_eq = refl;
    ledger_eq = refl;
  }

  differ_ne : (a b : String) → str_eq a b ≡ false → a ≢ b
  differ_ne a b h e = ground (arith, str_eq_iff a b)

  activate_over_ok :
      (current : Option MapRow) (s : Session)
      → active_map_for_machine s.db user machine ≡ current
      → IsSound s
      → ((m : MapRow) → In m s.db.maps → m.id ≢ "")
      → ((m : MapRow) → In m s.db.maps → active_machine m ≡ some machine → m.user_id ≡ user)
      → (s' : Session) × (id : String) × (activate_over user machine set_id current s ≡ (ok id, s'))
        × Effect s s' id current
        × Untouched s s'
        × IsSound s'
  unfolding pure
  activate_over_ok none s e h keyed mine =
      let (s', run, maps, same, sound) =
        start_map_ok user machine set_id named s h (IsIdle-of_none s.db user machine e mine) in
      (s', s.uuid s.drawn, run, started maps refl, same, sound)
  activate_over_ok (some cur) s e h keyed mine = elim (Bool-cases (str_eq cur.tool_set_id set_id)) [
    | inl same ↦ (
      s,
      cur.id,
      rw same refl,
      already cur ((str_eq_iff cur.tool_set_id set_id).0 same) refl refl,
      Untouched-refl s,
      h,
    )
    | inr differ ↦
        let (row, _, on) = active_map-row s.db user machine cur e in
        let t = replaced cur s in
        let (s', run, maps, same, sound) =
          start_map_ok user machine set_id named t (replaced-IsSound cur s h)
            (ended_maps-IsIdle user machine cur s h.holds row on) in
        (
          s',
          s.uuid (suc s.drawn),
          rw differ (
              bind_ok (replace_map user cur) (λ _. start_map user machine set_id) s t tt
                (replace_map_ok cur s (keyed cur row) h)
              ∙ run),
          switched cur (differ_ne cur.tool_set_id set_id differ) maps refl,
          record {
            instances_eq = same.instances_eq;
            entries_eq = same.entries_eq;
            sets_eq = same.sets_eq;
            ledger_eq = same.ledger_eq;
          },
          sound,
        )
  ]

  pub activate_ok :
      (s : Session)
      → IsSound s
      → owned_set s.db user set_id ≢ none
      → ((m : MapRow) → In m s.db.maps → m.id ≢ "")
      → ((m : MapRow) → In m s.db.maps → active_machine m ≡ some machine → m.user_id ≡ user)
      → (s' : Session) × (id : String) × (activate user machine set_id s ≡ (ok id, s'))
        × Effect s s' id (active_map_for_machine s.db user machine)
        × Untouched s s'
        × IsSound s'
  unfolding activate ◌>>=◌
  activate_ok s h has_set keyed mine =
      let (s', id, run, effect, same, sound) =
        activate_over_ok (active_map_for_machine s.db user machine) s refl h keyed mine in
      (s', id, rw found run, effect, same, sound)
    where
      found : is_none (owned_set s.db user set_id) ≡ false
      found = elim (Option-cases (owned_set s.db user set_id)) [
        | inl n ↦ absurd (has_set n)
        | inr (r, e) ↦ rw e refl
      ]
