-- ===== src/Setups.antt =====
-- api/machine_set_maps.py: which tool set is active on which machine. The handlers run after the
-- door check (`Auth.Doors`).
pub mod Effect
pub mod Activate
pub mod End
pub mod Atomicity
use loobric_server.Base.{
  ℕ, suc, String, Bool, true, false, not, ◌&&◌, ◌||◌, Option, none, some, List, [], ◌∷◌, ◌++◌,
  filter, find?, update_where, str_eq, is_none, if◌then◌else◌,
}
use loobric_server.Base.Exec.{Exec, not_found, pure, raise, gets, modify, ◌>>=◌, ◌>>◌, or_raise}
use loobric_server.Store.{Db, Session, draw, flush, commit}
use loobric_server.Store.Audit.{create_audit_log}
use loobric_server.Store.Rows.{SetRow, MapRow, MapStatus, active, ended}
use loobric_server.Binding.Bridge.{
  active_map_for_machine, owned_set, is_active, bridge_requested_claims,
}

-- `_end`, on the row.
unfoldable pub ended_row : String → Option String → ℕ → MapRow → MapRow
ended_row user key now m = record m {
  status = ended;
  ended_at = some now;
  ended_by = some user;
  ended_key = key;
  version = suc m.version;
  updated_by = user;
}

-- `_end(row, user, key_id)`: the row of that id changes.
unfoldable pub end_map : String → String → Exec Session (Unit {0})
end_map user id = modify (λ s. record s {
  db = record s.db {
    maps = update_where (λ m. str_eq m.id id) (ended_row user s.api_key_id s.now) s.maps;
  };
})

unfoldable pub new_map : String → String → String → String → Session → MapRow
new_map user machine set_id id s = record {
  id = id;
  user_id = user;
  machine_id = machine;
  tool_set_id = set_id;
  status = active;
  activated_at = s.now;
  ended_at = none;
  activated_key = s.api_key_id;
  created_by = user;
  ended_by = none;
  ended_key = none;
  version = 1;
  updated_by = user;
}

unfoldable pub add_map : String → String → String → String → Exec Session (Unit {0})
unfolding new_map
add_map user machine set_id id =
    modify (λ s. record s {
      db = record s.db { maps = s.maps ++ new_map user machine set_id id s ∷ [] };
    })

-- What `activate` does once no other set is in the way.
unfoldable pub start_map : String → String → String → Exec Session String
start_map user machine set_id = do
  id ← draw
  add_map user machine set_id id
  flush
  create_audit_log user "ACTIVATE" "machine_set_map" id
  bridge_requested_claims user machine
  commit
  pure id

-- The prior setup ends, and the audit row commits that.
unfoldable pub replace_map : String → MapRow → Exec Session (Unit {0})
replace_map user current = do
  end_map user current.id
  create_audit_log user "END" "machine_set_map" current.id

abbrev pub activate_over : String → String → String → Option MapRow → Exec Session String
activate_over user machine set_id none = start_map user machine set_id
activate_over user machine set_id (some current) =
    if str_eq current.tool_set_id set_id
    then pure current.id
    else (do replace_map user current; start_map user machine set_id)

-- `activate`; the result is the id of the row that the response shows.
unfoldable pub activate : String → String → String → Exec Session String
activate user machine set_id = do
  db ← gets (λ s. s.db)
  if is_none (owned_set db user set_id)
      then raise not_found
      else activate_over user machine set_id (active_map_for_machine db user machine)

-- `end`
unfoldable pub end : String → String → Exec Session String
end user record_id = do
  db ← gets (λ s. s.db)
  row ← or_raise (find? (λ m. str_eq m.id record_id && str_eq m.user_id user) db.maps) not_found
  if not (is_active row) then pure row.id else do
    end_map user row.id
    create_audit_log user "END" "machine_set_map" row.id
    commit
    pure row.id

abbrev asks : Option String → String → Bool
asks none v = true
asks (some want) v = str_eq want "" || str_eq want v

abbrev status_text : MapStatus → String
status_text active = "active"
status_text ended = "ended"

-- `list_maps`, without its order.
unfoldable pub list_maps : Db → String → Option String → Option String → List MapRow
list_maps db user machine status =
    filter
      (λ m.
        str_eq m.user_id user && asks machine m.machine_id && asks status (status_text m.status))
      db.maps
