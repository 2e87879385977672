-- ===== src/Versioning.antt =====
-- versioning.py: snapshots of tool sets before a change, and their restoration.
--
-- A JSON value is its text. The session does not flush by itself: a history row that is added stays
-- pending, where no query sees it, until the flush. The number of a version in a summary is a number.
pub mod Calls
pub mod Kept
pub mod Restored
use loobric_server.Base.{
  ℕ, suc, String, Bool, true, false, not, ◌&&◌, Option, none, some, List, [], ◌∷◌, ◌++◌, map,
  filter, find?, update_where, str_eq, nat_eq, opt_eq, is_none, if◌then◌else◌,
}
use loobric_server.Base.Exec.{Exec, pure, gets, modify, ◌>>=◌, ◌>>◌}

-- `ToolSet`
pub record ToolSet : Type 0 where
  pub id : String
  pub name : String
  pub description : Option String
  pub set_type : String
  pub machine_id : Option String
  pub job_id : Option String
  pub members : List String
  pub capacity : Option String
  pub status : String
  pub activation : Option String
  pub user_id : String
  pub created_by : String
  pub updated_by : String
  pub created_at : Option ℕ
  pub updated_at : Option ℕ
  pub version : ℕ

-- The document of a history row.
pub record Snapshot : Type 0 where
  pub id : String
  pub name : String
  pub description : Option String
  pub set_type : String
  pub machine_id : Option String
  pub job_id : Option String
  pub members : List String
  pub capacity : Option String
  pub status : String
  pub activation : Option String
  pub user_id : String
  pub created_by : String
  pub created_at : Option ℕ
  pub updated_at : Option ℕ

-- `change_summary`
pub data Summary : Type 0 where
  before_restore restored_from : ℕ → Summary
  summary : String → Summary

-- `ToolSetHistory`
pub record HistoryRow : Type 0 where
  pub tool_set_id : String
  pub version : ℕ
  pub snapshot : Snapshot
  pub changed_by : String
  pub change_summary : Option Summary

pub record Session : Type 0 where
  pub sets : List ToolSet
  pub history : List HistoryRow
  pub pending : List HistoryRow
  pub now : ℕ

-- `session.flush()`
unfoldable pub flush : Exec Session (Unit {0})
flush = modify (λ s. record s { history = s.history ++ s.pending; pending = [] })

unfoldable pub snapshot_of : ToolSet → Snapshot
snapshot_of t = record {
  id = t.id;
  name = t.name;
  description = t.description;
  set_type = t.set_type;
  machine_id = t.machine_id;
  job_id = t.job_id;
  members = t.members;
  capacity = t.capacity;
  status = t.status;
  activation = t.activation;
  user_id = t.user_id;
  created_by = t.created_by;
  created_at = t.created_at;
  updated_at = t.updated_at;
}

unfoldable pub history_row : ToolSet → String → Option Summary → HistoryRow
history_row t changed_by change_summary = record {
  tool_set_id = t.id;
  version = t.version;
  snapshot = snapshot_of t;
  changed_by = changed_by;
  change_summary = change_summary;
}

unfoldable pub snapshot_tool_set : ToolSet → String → Option Summary → Exec Session HistoryRow
snapshot_tool_set t changed_by change_summary = do
  let row = history_row t changed_by change_summary
  modify (λ s. record s { pending = s.pending ++ row ∷ [] })
  pure row

-- `session.get(ToolSet, tool_set_id)`, when it is the user's.
unfoldable pub get_owned : Session → String → String → Option ToolSet
get_owned s tool_set_id user_id =
    find? (λ t. str_eq t.id tool_set_id && str_eq t.user_id user_id) s.sets

-- `query.order_by(version.desc()).all()`
abbrev pub OrderBy : Type 0
OrderBy = (HistoryRow → ℕ) → List HistoryRow → List HistoryRow

unfoldable pub get_tool_set_history : OrderBy → Session → String → String → List HistoryRow
get_tool_set_history order_by_desc s tool_set_id user_id = elim (get_owned s tool_set_id user_id) [
  | none ↦ []
  | some t ↦
      order_by_desc (λ h. h.version) (filter (λ h. str_eq h.tool_set_id tool_set_id) s.history)
]

unfoldable pub is_version : String → ℕ → HistoryRow → Bool
is_version tool_set_id version h = str_eq h.tool_set_id tool_set_id && nat_eq h.version version

unfoldable pub version_row : Session → String → ℕ → Option HistoryRow
version_row s tool_set_id version = find? (is_version tool_set_id version) s.history

-- The assignments of a restore.
unfoldable pub restored : Snapshot → String → ℕ → ToolSet → ToolSet
restored snapshot user_id now t = record t {
  name = snapshot.name;
  description = snapshot.description;
  set_type = snapshot.set_type;
  machine_id = snapshot.machine_id;
  job_id = snapshot.job_id;
  members = snapshot.members;
  capacity = snapshot.capacity;
  status = snapshot.status;
  activation = snapshot.activation;
  updated_by = user_id;
  updated_at = some now;
  version = suc t.version;
}

unfoldable pub update_set : String → (ToolSet → ToolSet) → Exec Session (Unit {0})
update_set tool_set_id f =
    modify (λ s. record s { sets = update_where (λ t. str_eq t.id tool_set_id) f s.sets })

-- The writes of a restore, once the tool set and the history row are found.
unfoldable pub restore_from : ToolSet → HistoryRow → ℕ → String → Exec Session (Option ToolSet)
restore_from t history target_version user_id = do
  snapshot_tool_set t user_id (some (before_restore target_version))
  now ← gets (λ s. s.now)
  let t' = restored history.snapshot user_id now t
  update_set t.id (restored history.snapshot user_id now)
  flush
  snapshot_tool_set t' user_id (some (restored_from target_version))
  pure (some t')

unfoldable pub restore_found :
    Option ToolSet → Option HistoryRow → ℕ → String → Exec Session (Option ToolSet)
restore_found (some t) (some history) target_version user_id =
    restore_from t history target_version user_id
restore_found _ _ target_version user_id = pure none

unfoldable pub restore_tool_set : String → ℕ → String → Exec Session (Option ToolSet)
restore_tool_set tool_set_id target_version user_id = do
  owned ← gets (λ s. get_owned s tool_set_id user_id)
  history ← gets (λ s. version_row s tool_set_id target_version)
  restore_found owned history target_version user_id

pub data SetField : Type 0 where
  name description set_type machine_id job_id members capacity status activation : SetField

abbrev pub texts_eq : List String → List String → Bool
texts_eq [] [] = true
texts_eq (x ∷ xs) (y ∷ ys) = str_eq x y && texts_eq xs ys
texts_eq _ _ = false

-- `snap_a.get(field) == snap_b.get(field)`
unfoldable pub same_field : Snapshot → Snapshot → SetField → Bool
same_field a b name = str_eq a.name b.name
same_field a b description = opt_eq a.description b.description
same_field a b set_type = str_eq a.set_type b.set_type
same_field a b machine_id = opt_eq a.machine_id b.machine_id
same_field a b job_id = opt_eq a.job_id b.job_id
same_field a b members = texts_eq a.members b.members
same_field a b capacity = opt_eq a.capacity b.capacity
same_field a b status = str_eq a.status b.status
same_field a b activation = opt_eq a.activation b.activation

abbrev pub fields : List SetField
fields =
    name ∷ description ∷ set_type ∷ machine_id ∷ job_id ∷ members ∷ capacity ∷ status ∷ activation
    ∷ []

-- The keys of `differences`.
unfoldable pub differences : Option HistoryRow → Option HistoryRow → Option (List SetField)
differences (some a) (some b) = some (filter (λ f. not (same_field a.snapshot b.snapshot f)) fields)
differences _ _ = none

unfoldable pub compare_versions : Session → String → ℕ → ℕ → String → Option (List SetField)
compare_versions s tool_set_id version_a version_b user_id =
    if is_none (get_owned s tool_set_id user_id)
    then none
    else differences (version_row s tool_set_id version_a) (version_row s tool_set_id version_b)
