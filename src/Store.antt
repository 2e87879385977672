-- ===== src/Store.antt =====
-- The database of database/schema.py that the tool tables, the binding engine, the setups and the
-- usage ledger share, and the session through which one request reads and writes it
-- (database/session.py, audit.py).
--
-- A table is a list of rows in insertion order. `uuid4` is a supply of identifiers: `uuid n` is
-- the one that the n-th call gives. `datetime.now(UTC)` is a field of the session.
-- The session does not flush by itself (`autoflush=False`); `create_audit_log` commits, so a
-- request that raises later loses only what was written after its last audit row.
pub mod Rows
pub mod Audit
pub mod Frame
pub mod Unique
use loobric_server.Base.{
  ℕ, suc, String, Bool, true, false, not, ◌&&◌, Option, none, some, List, [], ◌∷◌, any, opt_is,
  if◌then◌else◌, ◌++◌,
}
use loobric_server.Base.Exec.{Exec, integrity_error, pure, raise, gets, modify, ◌>>=◌, ◌>>◌}
use Rows.{
  InstanceRow, EntryRow, SetRow, MapRow, MapStatus, UsageRow, ProposalRow, AuditRow, CatalogRow,
  PresetRow, active, ended,
}

pub record Db : Type 0 where
  pub instances : List InstanceRow
  pub entries : List EntryRow
  pub sets : List SetRow
  pub maps : List MapRow
  pub ledger : List UsageRow
  pub proposals : List ProposalRow
  pub audit : List AuditRow
  pub catalogs : List CatalogRow
  pub presets : List PresetRow

-- A request's session: the rows as it sees them, and as they stand committed.
pub record Session : Type 0 where
  pub db : Db
  pub open db use *
  pub committed : Db
  pub uuid : ℕ → String
  pub drawn : ℕ
  pub now : ℕ
  pub channel : Option String
  pub api_key_id : Option String

-- Whether the keys of the rows that have one are all different: a UNIQUE index, where NULLs are
-- exempt.
unfoldable pub unique_on : {A : Type 0} → (A → Option String) → List A → Bool
unique_on key [] = true
unique_on key (x ∷ xs) =
    not (elim (key x) [ none ↦ false | some k ↦ any (λ y. opt_is (key y) k) xs ])
    && unique_on key xs

-- The key of the partial index `uq_active_map_per_machine`.
unfoldable pub active_machine : MapRow → Option String
active_machine m = elim m.status [ active ↦ some m.machine_id | ended ↦ none ]

-- The UNIQUE indexes of these tables.
unfoldable pub constraints_hold : Db → Bool
unfolding active_machine unique_on
constraints_hold db =
    unique_on active_machine db.maps && unique_on (λ e. e.bound_instance_id) db.entries

-- `db.flush()`
unfoldable pub flush : Exec Session (Unit {0})
flush = do
  holds ← gets (λ s. constraints_hold s.db)
  if holds then pure tt else raise integrity_error

-- `db.commit()`
unfoldable pub commit : Exec Session (Unit {0})
commit = do flush; modify (λ s. record s { committed = s.db })

-- `uuid4()`
unfoldable pub draw : Exec Session String
draw = do id ← gets (λ s. s.uuid s.drawn); modify (λ s. record s { drawn = suc s.drawn }); pure id
