-- ===== src/Instances.antt =====
-- The assert door of api/tool_instance_records.py, over the path rules of batch_sync.py.
--
-- An assertion is a path with its value, typed as the contract's document types the leaf. A path that
-- would leave that document invalid is `off_schema`. The column that repeats `catalog_type_id` is
-- left out.
pub mod Asserts
use loobric_server.Base.{
  ℕ, suc, String, Bool, true, false, not, ◌&&◌, Option, none, some, List, [], ◌∷◌, update_where,
  str_eq, opt_eq, if◌then◌else◌,
}
use loobric_server.Base.Int.{ℤ, int_eq}
use loobric_server.Base.Dict.{Dict, lookup, insert, string_eq}
use loobric_server.Base.Exec.{
  Exec, bad_request, not_found, pure, raise, gets, modify, ◌>>=◌, ◌>>◌, or_raise,
}
use loobric_server.Contract.{Field, InstanceCanonical}
use loobric_server.Contract.Provenance.{asserted}
use loobric_server.Store.{Db, Session, commit}
use loobric_server.Store.Audit.{create_audit_log}
use loobric_server.Store.Rows.{InstanceRow}
use loobric_server.Presets.Door.{owned_instance}

abbrev pub instance_entity : String
instance_entity = "tool_instance_record"

pub data Assertion : Type 0 where
  name catalog_type_id status : Option String → Assertion
  geometry : String → Option ℤ → Assertion
  usage presets off_schema : Assertion

-- `AssertEntry`
pub record AssertEntry : Type 0 where
  pub what : Assertion
  pub unit : Option String

-- `assert_guards` for an instance, with `STATUS_VALUES`.
unfoldable pub guards_pass : Assertion → Bool
guards_pass (status (some v)) = str_eq v "retired"
guards_pass usage = false
guards_pass presets = false
guards_pass _ = true

abbrev pub int_opt_eq : Option ℤ → Option ℤ → Bool
int_opt_eq none none = true
int_opt_eq (some a) (some b) = int_eq a b
int_opt_eq _ _ = false

-- `leaf_at`, and the comparison of the leaf: value, unit and source.
unfoldable pub same_leaf :
    {A : Type 0}
    → (Option A → Option A → Bool)
    → Option (Field A)
    → Option A
    → Option String
    → String
    → Bool
same_leaf eq none value unit source = false
same_leaf eq (some f) value unit source =
    eq f.value value && opt_eq f.unit unit && str_eq f.source source

-- `is_same_value_noop`
unfoldable pub is_same_value_noop : InstanceCanonical → AssertEntry → String → Bool
is_same_value_noop c e actor = go e.what
  where
    go : Assertion → Bool
    go (name v) = same_leaf opt_eq (some c.name) v e.unit (asserted actor)
    go (catalog_type_id v) = same_leaf opt_eq (some c.catalog_type_id) v e.unit (asserted actor)
    go (status v) = same_leaf opt_eq c.status v e.unit (asserted actor)
    go (geometry k v) = same_leaf int_opt_eq (lookup k c.geometry) v e.unit (asserted actor)
    go _ = false

-- `_set_path` and `_validate_canonical`; the 400 is `none`.
unfoldable pub set_leaf : InstanceCanonical → AssertEntry → String → Option InstanceCanonical
set_leaf c e actor = go e.what
  where
    leaf : {A : Type 0} → Option A → Field A
    leaf v = record { value = v; unit = e.unit; source = asserted actor }

    go : Assertion → Option InstanceCanonical
    go (name v) = some (record c { name = leaf v })
    go (catalog_type_id v) = some (record c { catalog_type_id = leaf v })
    go (status v) = some (record c { status = some (leaf v) })
    go (geometry k v) = some (record c { geometry = insert k (leaf v) c.geometry })
    go _ = none

abbrev pub update_instance : String → (InstanceRow → InstanceRow) → Exec Session (Unit {0})
update_instance id f = modify (λ s. record s {
  db = record s.db { instances = update_where (λ i. str_eq i.id id) f s.instances };
})

abbrev pub with_canonical : InstanceCanonical → InstanceRow → InstanceRow
with_canonical c i = record i { canonical = c }

-- `row.version += 1`, `row.updated_by = user.id`
abbrev pub touched : String → InstanceRow → InstanceRow
touched user i = record i { version = suc i.version; updated_by = user }

-- `assert_canonical`
unfoldable pub assert_canonical : String → String → AssertEntry → String → Exec Session String
assert_canonical user record_id e actor = do
  db ← gets (λ s. s.db)
  row ← or_raise (owned_instance db user record_id) not_found
  if not (guards_pass e.what)
      then raise bad_request
      else if is_same_value_noop row.canonical e actor
      then pure row.id
      else (do
        canonical ← or_raise (set_leaf row.canonical e actor) bad_request
        update_instance row.id (λ i. touched user (with_canonical canonical i))
        create_audit_log user "ASSERT" instance_entity row.id
        commit
        pure row.id)
