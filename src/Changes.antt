-- ===== src/Changes.antt =====
-- change_detection.py and api/changes_api.py: what changed since a version or a time, in pages.
--
-- The five tables have the columns of `EntityRow` in common. ORDER BY is the database's: a parameter
-- that puts rows in ascending order of a key, in an order of its own among equal keys. The two
-- endpoints run after the user is authenticated; a response keeps the rows themselves, where the
-- source copies their columns. Query parameters that FastAPI rejects are a 422.
pub mod Page
pub mod Caught
use loobric_server.Base.{
  ℕ, zero, suc, String, Bool, true, false, not, ◌&&◌, ◌||◌, Option, none, some, List, [], ◌∷◌,
  filter, length, str_eq, ltb, leb, if◌then◌else◌,
}
use loobric_server.Base.Exec.{Result, ok, err, bad_request, unprocessable}

-- `EntityChange`: the columns that every sectioned record has.
pub record EntityRow : Type 0 where
  pub id : String
  pub user_id : String
  pub version : ℕ
  pub updated_at : ℕ

pub record Tables : Type 0 where
  pub machine_records : List EntityRow
  pub tool_instance_records : List EntityRow
  pub tool_catalog_records : List EntityRow
  pub tool_table_entry_records : List EntityRow
  pub tool_set_records : List EntityRow

-- `ENTITY_TYPES`
unfoldable pub table_of : Tables → String → Option (List EntityRow)
table_of t entity_type =
    if str_eq entity_type "machine_records"
    then some t.machine_records
    else if str_eq entity_type "tool_instance_records"
    then some t.tool_instance_records
    else if str_eq entity_type "tool_catalog_records"
    then some t.tool_catalog_records
    else if str_eq entity_type "tool_table_entry_records"
    then some t.tool_table_entry_records
    else if str_eq entity_type "tool_set_records"
    then some t.tool_set_records
    else none

-- `query.order_by(key.asc()).all()`
abbrev pub OrderBy : Type 0
OrderBy = (EntityRow → ℕ) → List EntityRow → List EntityRow

pub record User : Type 0 where
  pub id : String
  pub is_admin : Bool

-- The filter that a user who is not an admin gets.
unfoldable pub visible : User → EntityRow → Bool
visible user row = user.is_admin || str_eq row.user_id user.id

abbrev pub take : ℕ → List EntityRow → List EntityRow
take zero rows = []
take (suc n) [] = []
take (suc n) (row ∷ rows) = row ∷ take n rows

-- `if limit: query = query.limit(limit)`: a limit of 0 is no limit.
unfoldable pub limited : Option ℕ → List EntityRow → List EntityRow
limited none rows = rows
limited (some zero) rows = rows
limited (some (suc n)) rows = take (suc n) rows

unfoldable pub get_changes_since_version :
    OrderBy → List EntityRow → ℕ → User → Option ℕ → List EntityRow
get_changes_since_version order_by table since user limit = limited limit (
    order_by (λ row. row.version)
      (filter (visible user) (filter (λ row. ltb since row.version) table)))

unfoldable pub get_changes_since_timestamp :
    OrderBy → List EntityRow → ℕ → User → Option ℕ → List EntityRow
get_changes_since_timestamp order_by table since user limit = limited limit (
    order_by (λ row. row.updated_at)
      (filter (visible user) (filter (λ row. ltb since row.updated_at) table)))

abbrev pub max : ℕ → ℕ → ℕ
max a b = if leb a b then b else a

-- `func.max`, and 0 where SQL gives NULL.
abbrev pub max_version_in : List EntityRow → ℕ
max_version_in [] = 0
max_version_in (row ∷ rows) = max row.version (max_version_in rows)

unfoldable pub get_max_version : List EntityRow → User → ℕ
get_max_version table user = max_version_in (filter (visible user) table)

-- `limit: Optional[int] = Query(100, ge=1, le=1000)`
unfoldable pub page_limit : Option ℕ → Option ℕ
page_limit none = some 100
page_limit (some n) = if leb 1 n && leb n 1000 then some n else none

pub data SyncMethod : Type 0 where
  by_version by_timestamp : SyncMethod

-- `ChangesResponse`
pub record ChangesResponse : Type 0 where
  pub entity_type : String
  pub changes : List EntityRow
  pub count : ℕ
  pub max_version : ℕ
  pub sync_method : SyncMethod

abbrev response : String → List EntityRow → ℕ → SyncMethod → ChangesResponse
response entity_type changes max_version sync_method = record {
  entity_type = entity_type;
  changes = changes;
  count = length changes;
  max_version = max_version;
  sync_method = sync_method;
}

-- The checks of both endpoints: the query parameters, then the entity type.
abbrev pub checked :
    Option ℕ
    → Option (List EntityRow)
    → (List EntityRow → ℕ → ChangesResponse)
    → Result ChangesResponse
checked none _ body = err unprocessable
checked (some n) none body = err bad_request
checked (some n) (some table) body = ok (body table n)

unfoldable pub get_changes_by_version :
    OrderBy → Tables → User → String → ℕ → Option ℕ → Result ChangesResponse
get_changes_by_version order_by tables user entity_type since limit =
    checked (page_limit limit) (table_of tables entity_type) λ table n.
      response entity_type (get_changes_since_version order_by table since user (some n))
        (get_max_version table user) by_version

unfoldable pub get_changes_by_timestamp :
    OrderBy → Tables → User → String → ℕ → Option ℕ → Result ChangesResponse
get_changes_by_timestamp order_by tables user entity_type since limit =
    checked (page_limit limit) (table_of tables entity_type) λ table n.
      response entity_type (get_changes_since_timestamp order_by table since user (some n))
        (get_max_version table user) by_timestamp

unfoldable pub get_entity_max_version : Tables → User → String → Result ℕ
get_entity_max_version tables user entity_type = elim (table_of tables entity_type) [
  | none ↦ err bad_request
  | some table ↦ ok (get_max_version table user)
]
