-- ===== src/Entries/Sections.antt =====
-- Client sections: `reject_out_of_lane` of contract/models.py and `write_client_section` of
-- api/tool_table_entry_records.py.
--
-- A body is the list of its keys with the rest left open: pydantic's validation of `ClientWrite` is
-- a parameter.
pub mod Lane
use loobric_server.Base.{
  ℕ, suc, String, Bool, true, false, ◌||◌, Option, none, some, List, [], ◌∷◌, any, str_eq, is_none,
  if◌then◌else◌,
}
use loobric_server.Base.Dict.{Dict, lookup, insert, string_eq}
use loobric_server.Base.Exec.{
  Exec, bad_request, not_found, pure, raise, gets, ◌>>=◌, ◌>>◌, or_raise,
}
use loobric_server.Contract.{ClientSection}
use loobric_server.Store.{Db, Session, commit}
use loobric_server.Store.Audit.{create_audit_log}
use loobric_server.Store.Rows.{EntryRow}
use loobric_server.Entries.{entity, owned, update_entry}

-- `ClientWrite`
pub record ClientWrite : Type 0 where
  pub client_version : String
  pub client_item_id : Option String
  pub data_text : String

module _ {Payload : Type 0} (keys : Payload → List String)
    (model_validate : Payload → Option ClientWrite) where
  -- `reject_out_of_lane`; a LaneViolation is `none`.
  unfoldable pub reject_out_of_lane : Payload → Option ClientWrite
  reject_out_of_lane payload =
      if any (str_eq "internal") (keys payload) || any (str_eq "canonical") (keys payload)
      then none
      else model_validate payload

-- The time at which the section was first written: `existing.get("created_at") or _now()`.
abbrev first_written : ℕ → Option ClientSection → ℕ
first_written now none = now
first_written now (some existing) = existing.created_at

unfoldable pub section_of : ℕ → ClientWrite → Option ClientSection → ClientSection
section_of now write existing = record {
  client_version = write.client_version;
  client_item_id = write.client_item_id;
  created_at = first_written now existing;
  updated_at = now;
  data_text = write.data_text;
}

-- The row with the client's section written.
unfoldable pub sectioned_row : String → String → ClientWrite → ℕ → EntryRow → EntryRow
sectioned_row user client write now e = record e {
  clients = insert client (section_of now write (lookup client e.clients)) e.clients;
  version = suc e.version;
  updated_by = user;
}

-- `write_client_section`
unfoldable pub write_client_section :
    {Payload : Type 0}
    → (Payload → List String)
    → (Payload → Option ClientWrite)
    → String
    → String
    → String
    → Payload
    → Exec Session String
write_client_section keys model_validate user record_id client payload = do
  db ← gets (λ s. s.db)
  row ← or_raise (owned db user record_id) not_found
  write ← or_raise (reject_out_of_lane keys model_validate payload) bad_request
  now ← gets (λ s. s.now)
  update_entry row.id (sectioned_row user client write now)
  create_audit_log user "SYNC" entity row.id
  commit
  pure row.id
