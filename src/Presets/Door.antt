-- ===== src/Presets/Door.antt =====
-- The contribution door of presets.py, the derived union on a record, and the preset endpoints of
-- api/tool_instance_records.py, which run after the door check.
--
-- `created_at` is the order of the table; `updated_at` is left out of a row and of its view.
use loobric_server.Base.{
  suc, String, Bool, true, false, not, ◌&&◌, Option, none, some, List, [], ◌∷◌, ◌++◌, map, filter,
  find?, update_where, delete_where, any, every, str_eq, is_none, opt_is, if◌then◌else◌,
}
use loobric_server.Base.Json.{Json}
use loobric_server.Base.Exec.{
  Exec, bad_request, not_found, value_error, preset_error, Result, err, pure, raise, gets, modify,
  ◌>>=◌, ◌>>◌, or_raise,
}
use loobric_server.Contract.{Field, PresetEntry}
use loobric_server.Contract.Provenance.{asserted}
use loobric_server.Store.{Db, Session, draw, flush, commit}
use loobric_server.Store.Audit.{create_audit_log}
use loobric_server.Store.Rows.{InstanceRow, CatalogRow, PresetRow, RecordKind, catalog, instance}
use loobric_server.Presets.{Texts, Normalized, normalize_contribution, op_types, preset_schema}

abbrev pub derived_source : String
derived_source = "derived:preset-union"

abbrev pub same_kind : RecordKind → RecordKind → Bool
same_kind catalog catalog = true
same_kind instance instance = true
same_kind _ _ = false

-- The rows of a record.
unfoldable pub is_of : String → RecordKind → String → PresetRow → Bool
is_of user kind record_id r =
    str_eq r.user_id user && same_kind r.record_kind kind && str_eq r.record_id record_id

unfoldable pub is_contribution : String → RecordKind → String → String → String → PresetRow → Bool
is_contribution user kind record_id origin label r =
    is_of user kind record_id r && str_eq r.origin origin && str_eq r.label label

-- The assignments to a row, new or found.
unfoldable pub contributed : String → Normalized → String → PresetRow → PresetRow
contributed user n source r = record r {
  op_type = n.op_type;
  machine_id = n.machine_id;
  contents = n.contents;
  preset_schema = preset_schema;
  source = source;
  updated_by = user;
}

unfoldable pub new_contribution :
    String → RecordKind → String → Normalized → String → String → PresetRow
new_contribution user kind record_id n source id = record {
  id = id;
  user_id = user;
  record_kind = kind;
  record_id = record_id;
  origin = n.origin;
  label = n.label;
  op_type = n.op_type;
  machine_id = n.machine_id;
  contents = n.contents;
  preset_schema = preset_schema;
  source = source;
  updated_by = user;
}

-- The row with the identity is replaced, and else one is added.
unfoldable pub put_contribution :
    String → RecordKind → String → Normalized → String → Option PresetRow → Exec Session String
put_contribution user kind record_id n source (some r) = do
  modify (λ s. record s {
    db = record s.db {
      presets = update_where (λ q. str_eq q.id r.id) (contributed user n source) s.presets;
    };
  })
  pure r.id
put_contribution user kind record_id n source none = do
  id ← draw
  modify (λ s. record s {
    db = record s.db {
      presets = s.presets ++ new_contribution user kind record_id n source id ∷ [];
    };
  })
  pure id

unfoldable pub contribute_normalized :
    String → RecordKind → String → String → Normalized → Exec Session String
contribute_normalized user kind record_id actor n = do
  found ← gets (λ s. find? (is_contribution user kind record_id n.origin n.label) s.presets)
  id ← put_contribution user kind record_id n (asserted actor) found
  flush
  create_audit_log user "ASSERT" "preset_contribution" id
  pure id

-- `contribute`
unfoldable pub contribute :
    Texts → String → RecordKind → String → Json → String → Exec Session String
contribute py user kind record_id payload actor =
    or_raise (normalize_contribution py payload) preset_error
    >>= contribute_normalized user kind record_id actor

-- `remove`
unfoldable pub remove : String → RecordKind → String → String → Exec Session Bool
remove user kind record_id entry_id = do
  db ← gets (λ s. s.db)
  if is_none (find? (λ r. is_of user kind record_id r && str_eq r.id entry_id) db.presets)
      then pure false
      else (do
        create_audit_log user "DELETE" "preset_contribution" entry_id
        modify (λ s. record s {
          db = record s.db { presets = delete_where (λ r. str_eq r.id entry_id) s.presets };
        })
        flush
        pure true)

-- `_entry_view`
unfoldable pub entry_view : PresetRow → PresetEntry
entry_view r = record {
  id = r.id;
  origin = r.origin;
  label = r.label;
  op_type = r.op_type;
  machine_id = r.machine_id;
  contents = r.contents;
  preset_schema = r.preset_schema;
  source = r.source;
}

-- `record_entries`
unfoldable pub record_entries : Db → String → RecordKind → String → List PresetEntry
record_entries db user kind record_id =
    map entry_view (filter (is_of user kind record_id) db.presets)

abbrev pub known_op : Option String → Bool
known_op none = true
known_op (some t) = any (str_eq t) op_types

-- `PresetEntry._floor`: whether the validator lets an entry pass.
unfoldable pub entry_check : PresetEntry → Bool
entry_check e =
    known_op e.op_type
    && not (is_none e.contents.vc && is_none e.contents.fz && is_none e.contents.ratio)

unfoldable pub union_leaf : List PresetEntry → Option (Field (List PresetEntry))
union_leaf [] = none
union_leaf (e ∷ es) = some (record { value = some (e ∷ es); unit = none; source = derived_source })

-- The record with its union.
unfoldable pub with_union : String → List PresetEntry → InstanceRow → InstanceRow
with_union user entries i = record i {
  canonical = record i.canonical { presets = union_leaf entries };
  version = suc i.version;
  updated_by = user;
}

unfoldable pub catalog_with_union : String → List PresetEntry → CatalogRow → CatalogRow
catalog_with_union user entries c = record c {
  canonical = record c.canonical { presets = union_leaf entries };
  version = suc c.version;
  updated_by = user;
}

unfoldable pub stamp_union :
    String → RecordKind → String → List PresetEntry → Exec Session (Unit {0})
stamp_union user instance record_id entries = modify (λ s. record s {
  db = record s.db {
    instances = update_where (λ i. str_eq i.id record_id) (with_union user entries) s.instances;
  };
})
stamp_union user catalog record_id entries = modify (λ s. record s {
  db = record s.db {
    catalogs =
        update_where (λ c. str_eq c.id record_id) (catalog_with_union user entries) s.catalogs;
  };
})

abbrev pub record_entity : RecordKind → String
record_entity catalog = "tool_catalog_record"
record_entity instance = "tool_instance_record"

-- `materialize`
unfoldable pub materialize : String → RecordKind → String → Exec Session (Unit {0})
materialize user kind record_id = do
  entries ← gets (λ s. record_entries s.db user kind record_id)
  if not (every entry_check entries) then raise value_error else (do
    stamp_union user kind record_id entries
    create_audit_log user "DERIVE" (record_entity kind) record_id)

-- `union_for_instance`: the entries, each with its scope.
unfoldable pub union_for_instance : Db → String → InstanceRow → List (PresetEntry × RecordKind)
union_for_instance db user i =
    map (λ e. (e, instance)) (record_entries db user instance i.id)
    ++ (elim i.canonical.catalog_type_id.value [
      | none ↦ []
      | some c ↦
          if str_eq c "" then [] else map (λ e. (e, catalog)) (record_entries db user catalog c)
    ])

abbrev matches : Option String → (String → Bool) → Bool
matches none test = true
matches (some t) test = test t

-- `filter_entries`
unfoldable pub filter_entries :
    Texts
    → Option String
    → Option String
    → Option String
    → Option String
    → List (PresetEntry × RecordKind)
    → List (PresetEntry × RecordKind)
filter_entries py origin material op_type machine_id entries =
    filter
      (λ e.
        matches origin (λ t. str_eq (py.lower e.0.origin) (py.lower t))
        && matches material (λ t. str_eq (py.lower e.0.contents.material.name) (py.lower t))
        && matches op_type (opt_is e.0.op_type)
        && matches machine_id (opt_is e.0.machine_id))
      entries

unfoldable pub owned_instance : Db → String → String → Option InstanceRow
owned_instance db user record_id =
    find? (λ i. str_eq i.id record_id && str_eq i.user_id user) db.instances

-- `except PresetError`
unfoldable pub refuse_preset : {A : Type 0} → Exec Session A → Exec Session A
refuse_preset m s = let (r, s') = m s in (as_refusal r, s')
  where
    as_refusal : {A : Type 0} → Result A → Result A
    as_refusal (err preset_error) = err bad_request
    as_refusal r = r

-- `contribute_preset`
unfoldable pub contribute_preset : Texts → String → String → Json → String → Exec Session String
contribute_preset py user record_id payload actor = do
  db ← gets (λ s. s.db)
  row ← or_raise (owned_instance db user record_id) not_found
  refuse_preset (contribute py user instance row.id payload (py.strip actor))
  materialize user instance row.id
  commit
  pure row.id

-- `list_presets`
unfoldable pub list_presets :
    Texts
    → String
    → String
    → Option String
    → Option String
    → Option String
    → Option String
    → Exec Session (List (PresetEntry × RecordKind))
list_presets py user record_id origin material op_type machine_id = do
  db ← gets (λ s. s.db)
  row ← or_raise (owned_instance db user record_id) not_found
  pure (filter_entries py origin material op_type machine_id (union_for_instance db user row))

-- `delete_preset`
unfoldable pub delete_preset : String → String → String → Exec Session String
delete_preset user record_id entry_id = do
  db ← gets (λ s. s.db)
  row ← or_raise (owned_instance db user record_id) not_found
  removed ← remove user instance row.id entry_id
  if not removed
      then raise not_found
      else (do materialize user instance row.id; commit; pure row.id)
