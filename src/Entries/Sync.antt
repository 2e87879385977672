-- ===== src/Entries/Sync.antt =====
-- `create_entry` and `sync_entries` of api/tool_table_entry_records.py: the push of a machine's table.
--
-- The offsets of a request are one dict: a key that ends in `_unit` is `unit_of` the key before that
-- ending. `existing` refers to rows by id, as the session has one object for a row; a row that it
-- names is in the table. `_validate_canonical` passes on the documents that the loop builds from
-- valid ones, since each new leaf has an observed source (`Contract.Provenance`).
pub mod Guard
pub mod Pushed
pub mod Bindings
use loobric_server.Base.{
  ℕ, suc, ◌*◌, String, Bool, true, false, not, ◌&&◌, ◌||◌, Option, none, some, List, [], ◌∷◌, ◌++◌,
  map, filter, find?, delete_where, any, length, str_eq, opt_is, is_none, ltb, if◌then◌else◌,
}
use loobric_server.Base.Int.{ℤ, int_eq}
use loobric_server.Base.Dict.{Dict, lookup, insert, string_eq, integer_eq}
use loobric_server.Base.Index.{index_last}
use loobric_server.Base.Exec.{Exec, conflict, pure, raise, gets, modify, ◌>>=◌, ◌>>◌, for_each}
use loobric_server.Contract.{Field, ClientSection, EntryCanonical}
use loobric_server.Contract.Provenance.{observed}
use loobric_server.Store.{Db, Session, draw, flush, commit}
use loobric_server.Store.Audit.{create_audit_log}
use loobric_server.Store.Rows.{EntryRow}
use loobric_server.Usage.{Reading, number, ingest_usage_observation, hours_unit}
use loobric_server.Binding.Bridge.{
  Request, requested_members_by_number, propose_for_requested_entry,
}
use loobric_server.Binding.Reconcile.{entries_on}
use loobric_server.Entries.{entity, blank_canonical, update_entry, reading_value}
use loobric_server.Entries.Sections.{ClientWrite, section_of}

pub record CreateRequest : Type 0 where
  pub machine_id : String
  pub client : Option String
  pub client_version : Option String
  pub client_item_id : Option String
  pub data_text : String

-- The `Row(...)` of both handlers.
abbrev pub blank_row : String → String → Dict String ClientSection → String → EntryRow
blank_row user machine clients id = record {
  id = id;
  user_id = user;
  machine_id = machine;
  bound_instance_id = none;
  canonical = blank_canonical;
  clients = clients;
  usage_baseline_instance_id = none;
  version = 1;
  updated_by = user;
}

-- `db.add(row)`, `db.flush()`
unfoldable pub add_entry : String → String → Dict String ClientSection → Exec Session String
add_entry user machine clients = do
  id ← draw
  modify (λ s. record s {
    db = record s.db { entries = s.entries ++ blank_row user machine clients id ∷ [] };
  })
  flush
  pure id

abbrev or_empty : Option String → String
or_empty none = ""
or_empty (some t) = t

-- The section of the client that a request names, if it names one.
unfoldable pub first_section : CreateRequest → ℕ → Option String → Dict String ClientSection
first_section req now none = []
first_section req now (some client) =
    if str_eq client ""
    then []
    else (
      client,
      record {
        client_version = or_empty req.client_version;
        client_item_id = req.client_item_id;
        created_at = now;
        updated_at = now;
        data_text = req.data_text;
      },
    )
      ∷ []

-- `create_entry`
unfoldable pub create_entry : String → CreateRequest → Exec Session String
create_entry user req = do
  now ← gets (λ s. s.now)
  id ← add_entry user req.machine_id (first_section req now req.client)
  create_audit_log user "CREATE" entity id
  commit
  pure id

pub data OffsetIn : Type 0 where
  measure : String → Option ℤ → OffsetIn
  unit_of : String → Option String → OffsetIn

pub record EntryIn : Type 0 where
  pub tool_number : ℤ
  pub description : Option String
  pub offsets : List OffsetIn
  pub data_text : String
  pub client_item_id : Option String
  pub usage_hours : Option ℤ

pub data Mode : Type 0 where
  merge snapshot : Mode

pub record EntrySyncRequest : Type 0 where
  pub machine_id : String
  pub client : String
  pub machine_name : String
  pub client_version : String
  pub mode : Mode
  pub force : Bool
  pub entries : List EntryIn

-- The number of a row, and the dict from numbers to rows, where the last row of a number stands.
unfoldable pub number_of : EntryRow → Option ℤ
number_of r = r.canonical.tool_number.value

unfoldable pub existing_rows : Db → String → String → Dict ℤ String
existing_rows db user machine = index_last number_of (λ r. r.id) (entries_on db user machine) []

unfoldable pub is_present : List EntryIn → ℤ → Bool
is_present entries n = any (λ e. int_eq e.tool_number n) entries

-- The items of `existing` that the payload does not have.
unfoldable pub absent : List EntryIn → Dict ℤ String → Dict ℤ String
absent entries existing = filter (λ kv. not (is_present entries kv.0)) existing

abbrev is_snapshot : Mode → Bool
is_snapshot snapshot = true
is_snapshot merge = false

abbrev is_empty : {A : Type 0} → List A → Bool
is_empty [] = true
is_empty (_ ∷ _) = false

-- Whether the guard against a mass-wipe refuses the push.
unfoldable pub refused : EntrySyncRequest → Dict ℤ String → Bool
refused req existing =
    let doomed = absent req.entries existing in
    is_snapshot req.mode
    && not req.force
    && not (is_empty existing)
    && not (is_empty doomed)
    && (is_empty req.entries || ltb (length existing) (length doomed * 2))

-- `s.offsets.get(key + "_unit")`, when it is neither missing nor empty.
unfoldable pub unit_for : String → List OffsetIn → Option String
unit_for key [] = none
unit_for key (measure k v ∷ rest) = unit_for key rest
unit_for key (unit_of k u ∷ rest) =
    let other = unit_for key rest in
    if not (str_eq k key)
    then other
    else elim u [ none ↦ none | some t ↦ if str_eq t "" then none else some t ]

-- The loop over the offsets.
unfoldable pub write_offsets :
    String → List OffsetIn → List OffsetIn → Dict String (Field ℤ) → Dict String (Field ℤ)
write_offsets src all [] offsets = offsets
write_offsets src all (unit_of k u ∷ rest) offsets = write_offsets src all rest offsets
write_offsets src all (measure k v ∷ rest) offsets =
    write_offsets src all rest
      (insert k (record { value = v; unit = unit_for k all; source = src }) offsets)

abbrev described : String → Option String → Option (Field String) → Option (Field String)
described src none old = old
described src (some d) old = some (record { value = some d; unit = none; source = src })

abbrev metered : String → Option ℤ → Option (Field ℕ) → Option (Field ℕ)
metered src none old = old
metered src (some z) old =
    some (record { value = reading_value (number z); unit = some hours_unit; source = src })

unfoldable pub pushed_canonical : String → EntryIn → EntryCanonical → EntryCanonical
pushed_canonical src e c = record c {
  tool_number = record { value = some e.tool_number; unit = none; source = src };
  description = described src e.description c.description;
  usage_hours = metered src e.usage_hours c.usage_hours;
  offsets = write_offsets src e.offsets e.offsets c.offsets;
}

abbrev written : EntrySyncRequest → EntryIn → ClientWrite
written req e = record {
  client_version = req.client_version;
  client_item_id = e.client_item_id;
  data_text = e.data_text;
}

-- The row with the payload's entry written.
unfoldable pub pushed_row : String → EntrySyncRequest → String → EntryIn → ℕ → EntryRow → EntryRow
pushed_row user req src e now row = record row {
  canonical = pushed_canonical src e row.canonical;
  clients =
      insert req.client (section_of now (written req e) (lookup req.client row.clients))
        row.clients;
  version = suc row.version;
  updated_by = user;
}

abbrev pub row_at : Db → String → Option EntryRow
row_at db id = find? (λ r. str_eq r.id id) db.entries

-- The counter goes to the ledger before the reading lands in the row.
unfoldable pub meter :
    String → String → String → Option EntryRow → Option ℤ → Exec Session (Unit {0})
meter user machine src (some row) (some z) = do
  ingest_usage_observation user row (number z) (some hours_unit) src machine
  pure tt
meter user machine src _ _ = pure tt

-- The row of a payload's entry, and whether it is new.
unfoldable pub target_row : String → String → Option String → Exec Session (String × Bool)
target_row user machine (some id) = pure (id, false)
target_row user machine none = do id ← add_entry user machine []; pure (id, true)

-- One turn of the loop: the row written, and whether it is new.
unfoldable pub push_entry :
    String → EntrySyncRequest → String → Dict ℤ String → EntryIn → Exec Session (String × Bool)
push_entry user req src existing e = do
  target ← target_row user req.machine_id (lookup e.tool_number existing)
  row ← gets (λ s. row_at s.db target.0)
  meter user req.machine_id src row e.usage_hours
  now ← gets (λ s. s.now)
  update_entry target.0 (pushed_row user req src e now)
  pure target

-- The loop, with the rows of all entries in the order of the payload.
unfoldable pub push_all :
    String
    → EntrySyncRequest
    → String
    → Dict ℤ String
    → List EntryIn
    → Exec Session (List (String × Bool))
push_all user req src existing [] = pure []
push_all user req src existing (e ∷ es) = do
  t ← push_entry user req src existing e
  ts ← push_all user req src existing es
  pure (t ∷ ts)

abbrev pub created : List (String × Bool) → List String
created [] = []
created ((id, true) ∷ ts) = id ∷ created ts
created ((id, false) ∷ ts) = created ts

-- The rows that a snapshot takes away.
unfoldable pub doomed_rows : EntrySyncRequest → Dict ℤ String → Dict ℤ String
doomed_rows req existing = elim req.mode [ merge ↦ [] | snapshot ↦ absent req.entries existing ]

abbrev pub is_doomed : Dict ℤ String → String → Bool
is_doomed doomed id = any (λ kv. str_eq kv.1 id) doomed

unfoldable pub drop_proposals : Dict ℤ String → Exec Session (Unit {0})
drop_proposals doomed = modify (λ s. record s {
  db = record s.db { proposals = delete_where (λ p. is_doomed doomed p.entry_id) s.proposals };
})

unfoldable pub drop_rows : Dict ℤ String → Exec Session (Unit {0})
drop_rows doomed = modify (λ s. record s {
  db = record s.db { entries = delete_where (λ e. is_doomed doomed e.id) s.entries };
})

unfoldable pub propose_at : String → Dict ℤ Request → Option EntryRow → Exec Session (Unit {0})
propose_at user requests none = pure tt
propose_at user requests (some row) = do propose_for_requested_entry user row requests; pure tt

-- The bridge over the rows created in this push. `db.delete` takes effect with the first flush, so
-- the requests are read while the doomed rows still stand.
unfoldable pub bridge_created :
    String → String → Dict ℤ String → List String → Exec Session (Unit {0})
bridge_created user machine doomed new_rows = do
  requests ← gets (λ s. requested_members_by_number s.db user machine)
  drop_rows doomed
  for_each new_rows (λ id. gets (λ s. row_at s.db id) >>= propose_at user requests)

-- The writes once the guard has let the push through: the ids of the items and the numbers removed.
unfoldable pub sync_accepted :
    String → EntrySyncRequest → Dict ℤ String → Exec Session (List String × List ℤ)
sync_accepted user req existing = do
  items ← push_all user req (observed req.client req.machine_name) existing req.entries
  let doomed = doomed_rows req existing
  drop_proposals doomed
  bridge_created user req.machine_id doomed (created items)
  create_audit_log user "SYNC_TABLE" entity req.machine_id
  commit
  pure (map (λ t. t.0) items, map (λ kv. kv.0) doomed)

-- `sync_entries`
unfoldable pub sync_entries : String → EntrySyncRequest → Exec Session (List String × List ℤ)
sync_entries user req = do
  existing ← gets (λ s. existing_rows s.db user req.machine_id)
  if refused req existing then raise conflict else sync_accepted user req existing
