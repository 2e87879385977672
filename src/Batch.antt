-- ===== src/Batch.antt =====
-- batch_sync.py: the upsert of a batch of instance records, and its endpoint in
-- api/tool_instance_records.py, which runs after the door check.
--
-- `by_id` is a query of the user's rows, since the loop adds each row it creates to it; `by_item` is
-- the list of the client's item ids with their rows, as it stood before the loop, and grows by the
-- rows created. The data of a section is its text, so JSON-equal is equal. The echo of records under
-- `include=records` is left out.
pub mod Item
pub mod Run
pub mod Asserted
pub mod Idle
pub mod Sectioned
pub mod Settled
pub mod Refused
use loobric_server.Base.{
  ℕ, String, Bool, true, false, ◌&&◌, ◌||◌, Option, none, some, List, [], ◌∷◌, ◌++◌, map, filter,
  find?, str_eq, opt_eq, if◌then◌else◌,
}
use loobric_server.Base.Dict.{lookup, insert, string_eq}
use loobric_server.Base.Json.{Json}
use loobric_server.Base.Exec.{
  Exec, Error, bad_request, item_error, pure, raise, gets, modify, ◌>>=◌, ◌>>◌, or_raise,
}
use loobric_server.Contract.{ClientSection, InstanceCanonical, unknown_field}
use loobric_server.Store.{Db, Session, draw, flush}
use loobric_server.Store.Audit.{create_audit_log}
use loobric_server.Store.Rows.{InstanceRow, instance}
use loobric_server.Presets.Door.{owned_instance}
use loobric_server.Instances.{instance_entity, AssertEntry, guards_pass, update_instance}

abbrev pub max_items : ℕ
max_items = 200

pub record BatchItem : Type 0 where
  pub id : Option String
  pub client_item_id : Option String
  pub data_text : String
  pub asserts : List AssertEntry
  pub presets : List Json

pub record BatchRequest : Type 0 where
  pub client : String
  pub client_version : String
  pub actor : Option String
  pub items : List BatchItem

pub data Outcome : Type 0 where
  error created updated unchanged : Outcome

-- The result of an item.
pub record Report : Type 0 where
  pub client_item_id : Option String
  pub id : Option String
  pub result : Outcome
  pub asserts_applied : ℕ
  pub asserts_blocked : ℕ
  pub presets_contributed : ℕ
  pub presets_skipped : ℕ
  pub failure : Option Error

-- What the loop changes: the database, the index by item, and the result under construction.
pub record Work : Type 0 where
  pub session : Session
  pub by_item : List (String × String)
  pub out : Report

-- `_blank_result`
abbrev pub blank_result : BatchItem → Report
blank_result item = record {
  client_item_id = item.client_item_id;
  id = item.id;
  result = error;
  asserts_applied = 0;
  asserts_blocked = 0;
  presets_contributed = 0;
  presets_skipped = 0;
  failure = none;
}

-- An action on the database, within the loop.
unfoldable pub lift : {A : Type 0} → Exec Session A → Exec Work A
lift m w = let (r, s) = m w.session in (r, record w { session = s })

abbrev pub report : (Report → Report) → Exec Work (Unit {0})
report f = modify (λ w. record w { out = f w.out })

-- `if x`, for a text that may be missing.
abbrev pub non_empty : Option String → Option String
non_empty none = none
non_empty (some t) = if str_eq t "" then none else some t

abbrev section_item : Option ClientSection → Option String
section_item none = none
section_item (some sec) = non_empty sec.client_item_id

abbrev item_of : String → InstanceRow → List (String × String)
item_of client r = elim (section_item (lookup client r.clients)) [
  | none ↦ []
  | some cid ↦ (cid, r.id) ∷ []
]

abbrev items_in : String → List InstanceRow → List (String × String)
items_in client [] = []
items_in client (r ∷ rs) = item_of client r ++ items_in client rs

-- `by_item`
unfoldable pub index_items : Db → String → String → List (String × String)
index_items db user client = items_in client (filter (λ r. str_eq r.user_id user) db.instances)

abbrev pub row_by_id : Db → String → Option InstanceRow
row_by_id db id = find? (λ r. str_eq r.id id) db.instances

-- The one row of an item id, no row, or more than one.
abbrev only_match : Db → List (String × String) → Exec Work (Option InstanceRow)
only_match db [] = pure none
only_match db (m ∷ []) = pure (row_by_id db m.1)
only_match db (m ∷ n ∷ ms) = raise item_error

-- The row that an item is about.
unfoldable pub target_of : String → Option String → Option String → Exec Work (Option InstanceRow)
target_of user (some id) cid = do
  db ← gets (λ w. w.session.db)
  row ← or_raise (owned_instance db user id) item_error
  pure (some row)
target_of user none (some cid) = do
  db ← gets (λ w. w.session.db)
  matches ← gets (λ w. filter (λ m. str_eq m.0 cid) w.by_item)
  only_match db matches
target_of user none none = raise item_error

unfoldable pub preflight : List AssertEntry → Exec Work (Unit {0})
preflight [] = pure tt
preflight (e ∷ es) =
    let rest = preflight es in if guards_pass e.what then rest else raise bad_request

-- `_blank_canonical`
abbrev pub blank_canonical : InstanceCanonical
blank_canonical = record {
  name = unknown_field;
  catalog_type_id = unknown_field;
  geometry = [];
  usage_hours = none;
  status = none;
  presets = none;
}

abbrev new_section : BatchRequest → BatchItem → ℕ → ℕ → ClientSection
new_section req item created_at now = record {
  client_version = req.client_version;
  client_item_id = item.client_item_id;
  created_at = created_at;
  updated_at = now;
  data_text = item.data_text;
}

abbrev new_instance : String → BatchRequest → BatchItem → ℕ → String → InstanceRow
new_instance user req item now id = record {
  id = id;
  user_id = user;
  canonical = blank_canonical;
  clients = (req.client, new_section req item now now) ∷ [];
  version = 1;
  updated_by = user;
}

-- The new row of an item, in its index too.
unfoldable pub create_row : String → BatchRequest → BatchItem → Exec Work String
create_row user req item = do
  now ← gets (λ w. w.session.now)
  id ← lift draw
  lift (
      modify (λ s. record s {
        db = record s.db { instances = s.instances ++ new_instance user req item now id ∷ [] };
      }))
  lift flush
  lift (create_audit_log user "CREATE" instance_entity id)
  modify (λ w. record w {
    by_item = elim (non_empty item.client_item_id) [
      | none ↦ w.by_item
      | some cid ↦ w.by_item ++ (cid, id) ∷ []
    ];
  })
  report (λ o. record o { result = created })
  pure id

abbrev pub with_section : String → ClientSection → InstanceRow → InstanceRow
with_section client sec i = record i { clients = insert client sec i.clients }

-- The envelope of a section whose data stay.
abbrev refreshed : BatchRequest → BatchItem → ClientSection → ClientSection
refreshed req item sec = record sec {
  client_version = req.client_version;
  client_item_id = item.client_item_id;
}

-- A section whose data are new.
unfoldable pub replace_section :
    String → BatchRequest → BatchItem → InstanceRow → ℕ → Exec Session Bool
replace_section user req item row created_at = do
  now ← gets (λ s. s.now)
  update_instance row.id (with_section req.client (new_section req item created_at now))
  create_audit_log user "SYNC" instance_entity row.id
  pure true

-- A section whose data are as they were.
unfoldable pub refresh_section :
    BatchRequest → BatchItem → InstanceRow → ClientSection → Exec Session Bool
refresh_section req item row sec =
    if str_eq sec.client_version req.client_version && opt_eq sec.client_item_id item.client_item_id
    then pure false
    else (do update_instance row.id (with_section req.client (refreshed req item sec)); pure false)

-- `_write_section`
unfoldable pub write_section : String → BatchRequest → BatchItem → InstanceRow → Exec Session Bool
write_section user req item row = go (lookup req.client row.clients)
  where
    go : Option ClientSection → Exec Session Bool
    go none = gets (λ s. s.now) >>= replace_section user req item row
    go (some sec) =
        if str_eq sec.data_text item.data_text
        then refresh_section req item row sec
        else replace_section user req item row sec.created_at
