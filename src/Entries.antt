-- ===== src/Entries.antt =====
-- api/tool_table_entry_records.py: the handlers on the entries of a machine's tool table. They run
-- after the door check (`Auth.Doors`); each returns the id of the entry in its response.
pub mod Vacate
pub mod InstallOnce
pub mod Backstop
pub mod Sections
pub mod Sync
use loobric_server.Base.{
  ℕ, suc, String, Bool, true, false, not, ◌&&◌, ◌||◌, Option, none, some, List, [], ◌∷◌, ◌++◌,
  filter, find?, update_where, delete_where, str_eq, is_none, opt_is, concat, if◌then◌else◌,
}
use loobric_server.Base.Int.{ℤ}
use loobric_server.Base.Dict.{Dict, lookup, insert, string_eq}
use loobric_server.Base.Exec.{
  Exec, Error, Result, ok, err, bad_request, not_found, conflict, integrity_error, pure, raise,
  gets, modify, ◌>>=◌, ◌>>◌, or_raise,
}
use loobric_server.Contract.{
  Field, ClientSection, InstanceCanonical, EntryCanonical, unknown_field, leaf_value,
}
use loobric_server.Contract.Provenance.{observed, asserted}
use loobric_server.Store.{Db, Session, draw, flush, commit}
use loobric_server.Store.Audit.{create_audit_log}
use loobric_server.Store.Rows.{EntryRow, InstanceRow, ProposalRow}
use loobric_server.Binding.Proposals.{close_open_proposal_on_bind}
use loobric_server.Usage.{Reading, number, other, Disposition, ingest_usage_observation, hours_unit}

abbrev pub entity : String
entity = "tool_table_entry_record"

-- `_owned`
unfoldable pub owned : Db → String → String → Option EntryRow
owned db user record_id = find? (λ e. str_eq e.id record_id && str_eq e.user_id user) db.entries

abbrev pub update_entry : String → (EntryRow → EntryRow) → Exec Session (Unit {0})
update_entry id f = modify (λ s. record s {
  db = record s.db { entries = update_where (λ e. str_eq e.id id) f s.entries };
})

-- `_blank_canonical`
abbrev pub blank_canonical : EntryCanonical
blank_canonical = record {
  tool_number = unknown_field;
  bound_instance_id = unknown_field;
  description = none;
  offsets = [];
  usage_hours = none;
}

-- The leaf of a binding: no id and the empty id are both false.
abbrev binding_field : Option String → String → Field String
binding_field none actor = unknown_field
binding_field (some id) actor =
    if str_eq id ""
    then unknown_field
    else record { value = some id; unit = none; source = asserted actor }

-- `_set_binding`, and the `updated_by` that each caller sets beside it.
unfoldable pub bound_row : String → Option String → String → EntryRow → EntryRow
bound_row user instance_id actor e = record e {
  canonical = record e.canonical { bound_instance_id = binding_field instance_id actor };
  bound_instance_id = instance_id;
  version = suc e.version;
  updated_by = user;
}

pub record BindRequest : Type 0 where
  pub instance_id : Option String
  pub actor : String
  pub move : Bool
  pub name : Option String

-- `req.name or description`, when it is neither missing nor empty.
abbrev non_empty : Option String → Option String
non_empty none = none
non_empty (some t) = if str_eq t "" then none else some t

abbrev label_of : Option String → Option String → Option String
label_of n d = elim (non_empty n) [ none ↦ non_empty d | some t ↦ some t ]

-- The measured diameter, when there is one.
abbrev measured : Option (Field ℤ) → Dict String (Field ℤ)
measured none = []
measured (some f) = if is_none f.value then [] else ("diameter", f) ∷ []

minted_canonical : EntryRow → BindRequest → InstanceCanonical
minted_canonical e req = record {
  name = elim (label_of req.name (leaf_value e.canonical.description)) [
    | none ↦ unknown_field
    | some n ↦ record { value = some n; unit = none; source = asserted req.actor }
  ];
  catalog_type_id = unknown_field;
  geometry = measured (lookup "diameter" e.canonical.offsets);
  usage_hours = none;
  status = none;
  presets = none;
}

-- `_mint_instance_from_entry`
unfoldable pub mint_instance : String → EntryRow → BindRequest → Exec Session String
unfolding minted_canonical
mint_instance user e req = do
  id ← draw
  modify (λ s. record s { db = record s.db { instances = s.instances ++ minted id ∷ [] } })
  flush
  create_audit_log user "CREATE" "tool_instance_record" id
  pure id
  where
    minted : String → InstanceRow
    minted id = record {
      id = id;
      user_id = user;
      canonical = minted_canonical e req;
      clients = [];
      version = 1;
      updated_by = user;
    }

-- Another entry of the user that holds the instance.
unfoldable pub elsewhere : Db → String → String → String → Option EntryRow
elsewhere db user record_id instance_id =
    find?
      (λ e.
        str_eq e.user_id user
        && opt_is e.bound_instance_id instance_id
        && not (str_eq e.id record_id))
      db.entries

-- The old entry is vacated, and the audit row commits that.
unfoldable pub vacate : String → String → Bool → Option EntryRow → Exec Session (Unit {0})
vacate user actor move none = pure tt
vacate user actor move (some e) = if not move then raise conflict else (do
  update_entry e.id (bound_row user none actor)
  create_audit_log user "UNBIND" entity e.id)

-- The instance to bind: minted, or the one that the request names, vacated elsewhere.
unfoldable pub bind_target : String → EntryRow → BindRequest → Option String → Exec Session String
bind_target user row req none =
    if not (is_none row.bound_instance_id) then raise conflict else mint_instance user row req
bind_target user row req (some instance_id) = do
  db ← gets (λ s. s.db)
  vacate user req.actor req.move (elsewhere db user row.id instance_id)
  pure instance_id

-- `except IntegrityError`: a rollback, and a 409.
abbrev integrity_to_conflict : Result (Unit {0}) → Session → Result (Unit {0}) × Session
integrity_to_conflict (err integrity_error) s = (err conflict, record s { db = s.committed })
integrity_to_conflict r s = (r, s)

unfoldable pub commit_or_conflict : Exec Session (Unit {0})
commit_or_conflict s = let (r, s') = commit s in integrity_to_conflict r s'

-- The writes of `bind_instance` once the target is known.
unfoldable pub install : String → String → String → String → Exec Session String
install user record_id instance_id actor = do
  update_entry record_id (bound_row user (some instance_id) actor)
  close_open_proposal_on_bind user record_id instance_id
  create_audit_log user "BIND" entity record_id
  commit_or_conflict
  pure record_id

-- `bind_instance`
unfoldable pub bind_instance : String → String → BindRequest → Exec Session String
bind_instance user record_id req = do
  db ← gets (λ s. s.db)
  row ← or_raise (owned db user record_id) not_found
  target ← bind_target user row req req.instance_id
  install user record_id target req.actor

-- `unbind_instance`
unfoldable pub unbind_instance : String → String → Exec Session String
unbind_instance user record_id = do
  db ← gets (λ s. s.db)
  row ← or_raise (owned db user record_id) not_found
  update_entry row.id (bound_row user none "human@inbox")
  create_audit_log user "UNBIND" entity row.id
  commit
  pure row.id

-- `delete_entry`
unfoldable pub delete_entry : String → String → Exec Session String
delete_entry user record_id = do
  db ← gets (λ s. s.db)
  row ← or_raise (owned db user record_id) not_found
  modify (λ s. record s {
    db = record s.db {
      proposals = delete_where (λ p. str_eq p.entry_id record_id) s.proposals;
      entries = delete_where (λ e. str_eq e.id record_id) s.entries;
    };
  })
  create_audit_log user "DELETE" entity record_id
  commit
  pure row.id

-- An observation of a leaf: the path with its value. A path outside `OBSERVABLE_PATHS` is `off_path`.
pub data Observation : Type 0 where
  tool_number : Option ℤ → Observation
  description : Option String → Observation
  usage_hours : Reading → Observation
  offset : String → Option ℤ → Observation
  off_path : String → Observation

pub record ObserveRequest : Type 0 where
  pub what : Observation
  pub unit : Option String
  pub client : String
  pub machine : String

abbrev is_axis : String → Bool
is_axis k = str_eq k "diameter" || str_eq k "z" || str_eq k "x" || str_eq k "y"

-- `req.path in OBSERVABLE_PATHS`
unfoldable pub observable : Observation → Bool
observable (offset k v) = is_axis k
observable (off_path p) = false
observable _ = true

abbrev reading_value : Reading → Option ℕ
reading_value (number (ℤ.pos n)) = some n
reading_value _ = none

-- `req.unit or "h"`
abbrev ledger_unit : Option String → String
ledger_unit unit = elim (non_empty unit) [ none ↦ hours_unit | some u ↦ u ]

-- `field.setdefault("unit", "h")`
abbrev or_hours : Option String → Option String
or_hours none = some hours_unit
or_hours (some u) = some u

-- The canonical document with the leaf written.
unfoldable pub observe_leaf :
    ObserveRequest → String → Observation → EntryCanonical → EntryCanonical
observe_leaf req source (tool_number v) c = record c {
  tool_number = record { value = v; unit = req.unit; source = source };
}
observe_leaf req source (description v) c = record c {
  description = some (record { value = v; unit = req.unit; source = source });
}
observe_leaf req source (usage_hours r) c = record c {
  usage_hours =
      some (record { value = reading_value r; unit = or_hours req.unit; source = source });
}
observe_leaf req source (offset k v) c = record c {
  offsets = insert k (record { value = v; unit = req.unit; source = source }) c.offsets;
}
observe_leaf req source (off_path p) c = c

-- The ledger reads the previous reading off the row, before the leaf is written.
unfoldable pub ingest_observation :
    String → EntryRow → ObserveRequest → String → Observation → Exec Session (Unit {0})
ingest_observation user row req source (usage_hours r) = do
  ingest_usage_observation user row r (some (ledger_unit req.unit)) source row.machine_id
  pure tt
ingest_observation user row req source _ = pure tt

-- `observe_canonical`
unfoldable pub observe_canonical : String → String → ObserveRequest → Exec Session String
observe_canonical user record_id req = do
  db ← gets (λ s. s.db)
  row ← or_raise (owned db user record_id) not_found
  if not (observable req.what) then raise bad_request else do
    let source = observed req.client req.machine
    ingest_observation user row req source req.what
    update_entry row.id (λ e. record e {
      canonical = observe_leaf req source req.what e.canonical;
      version = suc e.version;
      updated_by = user;
    })
    create_audit_log user "OBSERVE" entity row.id
    commit
    pure row.id
