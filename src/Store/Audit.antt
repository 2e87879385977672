-- ===== src/Store/Audit.antt =====
-- `create_audit_log` of audit.py.
use loobric_server.Base.{String, str_eq, ◌||◌, ◌++◌, [], ◌∷◌, if◌then◌else◌}
use loobric_server.Base.Exec.{Exec, value_error, raise, modify, ◌>>=◌, ◌>>◌}
use loobric_server.Store.{Session, draw, commit}
use loobric_server.Store.Rows.{AuditRow}

abbrev pub audit_row : Session → String → String → String → String → String → AuditRow
audit_row s id user operation entity_type entity_id = record {
  id = id;
  user_id = user;
  timestamp = s.now;
  operation = operation;
  entity_type = entity_type;
  entity_id = entity_id;
  channel = s.channel;
  api_key_id = s.api_key_id;
}

unfoldable pub create_audit_log : String → String → String → String → Exec Session (Unit {0})
create_audit_log user operation entity_type entity_id =
    if str_eq user "" || str_eq operation "" || str_eq entity_type "" || str_eq entity_id ""
    then raise value_error
    else (do
      id ← draw
      modify (λ s. record s {
        db = record s.db {
          audit = s.audit ++ audit_row s id user operation entity_type entity_id ∷ [];
        };
      })
      commit)
