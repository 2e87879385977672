-- ===== src/Usage.antt =====
-- usage_ledger.py: a controller's resettable counter becomes attributed contributions and a derived
-- lifetime total.
--
-- Hours are whole micro-hours: the six decimals to which the source rounds a total. The reading of
-- a client is a number or something else; a bool counts as something else.
pub mod Ledger
pub mod Attribution
pub mod Totals
use loobric_server.Base.{
  ℕ, suc, ◌+◌, ◌-◌, String, Bool, true, false, not, ◌&&◌, ◌||◌, Option, none, some, List, [], ◌∷◌,
  ◌++◌, map, filter, find?, update_where, str_eq, ltb, nat_eq, is_none, opt_is, opt_eq,
  if◌then◌else◌,
}
use loobric_server.Base.Int.{ℤ, pos, negsuc}
use loobric_server.Base.Exec.{Exec, bad_request, pure, raise, gets, modify, ◌>>=◌, ◌>>◌}
use loobric_server.Contract.{Field, leaf_value}
use loobric_server.Contract.Provenance.{derived}
use loobric_server.Store.{Db, Session, draw, flush}
use loobric_server.Store.Audit.{create_audit_log}
use loobric_server.Store.Rows.{EntryRow, InstanceRow, UsageRow}

abbrev pub metric_hours : String
metric_hours = "hours"

abbrev pub hours_unit : String
hours_unit = "h"

abbrev pub derived_source : String
derived_source = "derived:usage-ledger"

pub data Reading : Type 0 where
  number : ℤ → Reading
  other : Reading

pub data Disposition : Type 0 where
  baseline reset noop contribution orphan : Disposition

-- The checks before anything is written; `UsageError` reaches the client as a 400.
unfoldable pub accepted : Reading → Option String → Option ℕ
accepted (number (pos n)) none = some n
accepted (number (pos n)) (some unit) = if str_eq unit hours_unit then some n else none
accepted (number (negsuc n)) unit = none
accepted other unit = none

unfoldable pub sum_amounts : List UsageRow → ℕ
sum_amounts [] = 0
sum_amounts (r ∷ rows) = r.amount + sum_amounts rows

unfoldable pub is_credit : String → String → UsageRow → Bool
is_credit user instance_id r =
    str_eq r.user_id user && opt_is r.instance_id instance_id && str_eq r.metric metric_hours

-- `contributions`: the rows that are credited to the instance, in the order of the table.
unfoldable pub contributions : Db → String → String → List UsageRow
unfolding is_credit
contributions db user instance_id = filter (is_credit user instance_id) db.ledger

unfoldable pub instance_total : Db → String → String → ℕ
instance_total db user instance_id = sum_amounts (contributions db user instance_id)

-- `entry_rows`
unfoldable pub entry_rows : Db → String → String → List UsageRow
entry_rows db user entry_id =
    filter (λ r. str_eq r.user_id user && str_eq r.entry_id entry_id) db.ledger

abbrev pub is_instance_of : String → String → InstanceRow → Bool
is_instance_of user instance_id i = str_eq i.id instance_id && str_eq i.user_id user

-- The instance with its derived total.
unfoldable pub with_total : String → ℕ → InstanceRow → InstanceRow
with_total user total i = record i {
  canonical = record i.canonical {
    usage_hours =
        some (record { value = some total; unit = some hours_unit; source = derived_source });
  };
  version = suc i.version;
  updated_by = user;
}

-- `recompute_instance_usage`
unfoldable pub recompute_instance_usage : String → String → Exec Session (Unit {0})
recompute_instance_usage user instance_id = do
  db ← gets (λ s. s.db)
  if is_none (find? (is_instance_of user instance_id) db.instances) then pure tt else do
    modify (λ s. record s {
      db = record s.db {
        instances =
            update_where (is_instance_of user instance_id)
              (with_total user (instance_total s.db user instance_id)) s.instances;
      };
    })
    create_audit_log user "DERIVE" "tool_instance_record" instance_id

-- `contributes`: bound, and bound to the same instance at the previous observation.
unfoldable pub credits : EntryRow → Option String
credits entry =
    if not (is_none entry.bound_instance_id)
      && opt_eq entry.bound_instance_id entry.usage_baseline_instance_id
    then entry.bound_instance_id
    else none

unfoldable pub usage_row : String → EntryRow → String → ℕ → ℕ → String → String → UsageRow
unfolding credits
usage_row user entry machine delta reading source id = record {
  id = id;
  user_id = user;
  entry_id = entry.id;
  machine_id = machine;
  instance_id = credits entry;
  metric = metric_hours;
  amount = delta;
  counter_value = reading;
  source = source;
}

-- `entry.usage_baseline_instance_id = entry.bound_instance_id`
unfoldable pub advance_baseline : String → Exec Session (Unit {0})
advance_baseline entry_id = modify (λ s. record s {
  db = record s.db {
    entries =
        update_where (λ e. str_eq e.id entry_id)
          (λ e. record e { usage_baseline_instance_id = e.bound_instance_id }) s.entries;
  };
})

abbrev settle_credit : String → Option String → Exec Session Disposition
settle_credit user none = pure orphan
settle_credit user (some instance_id) = do
  recompute_instance_usage user instance_id
  pure contribution

-- A positive delta: one row, and the total of the instance that it credits.
unfoldable pub record_delta : String → EntryRow → String → ℕ → ℕ → String → Exec Session Disposition
record_delta user entry machine delta reading source = do
  id ← draw
  modify (λ s. record s {
    db = record s.db {
      ledger = s.ledger ++ usage_row user entry machine delta reading source id ∷ [];
    };
  })
  flush
  create_audit_log user "USAGE" "usage_ledger" id
  settle_credit user (credits entry)

abbrev pub ingest_from :
    String → EntryRow → String → ℕ → String → Option ℕ → Exec Session Disposition
ingest_from user entry machine reading source none = pure baseline
ingest_from user entry machine reading source (some previous) =
    if ltb reading previous
    then pure reset
    else if nat_eq reading previous
    then pure noop
    else record_delta user entry machine (reading - previous) reading source

abbrev pub ingest_accepted :
    String → EntryRow → String → String → Option ℕ → Exec Session Disposition
ingest_accepted user entry machine source none = raise bad_request
ingest_accepted user entry machine source (some reading) = do
  advance_baseline entry.id
  ingest_from user entry machine reading source (leaf_value entry.canonical.usage_hours)

-- `ingest_usage_observation`, on the row as it stands before the observation is written.
unfoldable pub ingest_usage_observation :
    String → EntryRow → Reading → Option String → String → String → Exec Session Disposition
ingest_usage_observation user entry reading unit source machine =
    ingest_accepted user entry machine source (accepted reading unit)
