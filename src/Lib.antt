-- ===== src/Lib.antt =====
-- Models of the loobric server, a REST service over a machine shop's tools: a catalog, the
-- physical instances, the tool tables that controllers push, tool sets, and the setups that say
-- which set a machine runs. The Python is under loobric_server/.
--
-- How the parts interact. Controllers and people reach the handlers of loobric_server/api/ through
-- a door (loobric_server/auth/doors.py) that the scopes of their credential open. A machine's
-- entries are bound to instances (loobric_server/api/tool_table_entry_records.py), by people or
-- after a proposal of the binding engine (loobric_server/binding_v2.py), which also derives how a
-- set stands against a table. A setup (loobric_server/api/machine_set_maps.py) activates a set on
-- a machine and lets the engine propose bindings for its claims. Counter readings of an entry
-- become hours of the instance that is bound there (loobric_server/usage_ledger.py). Every write
-- is audited (loobric_server/audit.py), and the audit row commits. A client that keeps a copy asks
-- the change feed (loobric_server/api/changes_api.py) what is new.
--
-- Which file models which part:
--   * Contract, Contract/Provenance: loobric_server/contract/models.py, the fields with a source
--     and the canonical documents.
--   * Store and below: loobric_server/database/schema.py, loobric_server/database/session.py and
--     loobric_server/audit.py. A table is a list of rows; a session holds the rows and the
--     committed rows; `flush` and `commit` check the UNIQUE indexes on setups and bindings, the only
--     ones that a modelled write can break; `create_audit_log` commits.
--     Frame has the run of each session operation, Unique the lemmas on the indexes.
--   * Binding/Proposals: score, propose_for_entry and close_open_proposal_on_bind of
--     loobric_server/binding_v2.py.
--   * Binding/Reconcile: reconcile_set_membership. Explained has the rules of its docstring.
--   * Binding/Bridge: requested_members_by_number, bridge_requested_claims and
--     propose_for_requested_entry.
--   * Binding/Machine: reconcile_machine. Taken has the rule for the entries that a member takes up.
--   * Setups and below: activate, end and list_maps of loobric_server/api/machine_set_maps.py.
--   * Usage and below: loobric_server/usage_ledger.py.
--   * Entries and below: bind, unbind, delete and observe of
--     loobric_server/api/tool_table_entry_records.py.
--   * Entries/Sync: create_entry and the table push sync_entries there.
--   * Entries/Sections: write_client_section there, and reject_out_of_lane of
--     loobric_server/contract/models.py.
--   * Presets: the checks of loobric_server/presets.py. Presets/Door: its contribution door and
--     derived union, and the preset endpoints of loobric_server/api/tool_instance_records.py.
--   * Changes: loobric_server/change_detection.py and loobric_server/api/changes_api.py.
--   * Versioning: loobric_server/versioning.py. Kept has the runs of a client as a step relation.
--   * Instances: assert_canonical of loobric_server/api/tool_instance_records.py and the path rules
--     of loobric_server/batch_sync.py. Batch and below: the instance batch there.
--   * Labels: loobric_server/label_codes.py.
--   * Auth/Scopes: loobric_server/auth/authorization.py. Auth/Doors:
--     loobric_server/auth/doors.py. Auth/Users: loobric_server/auth/user.py and
--     loobric_server/auth/password.py. Auth/Accounts: loobric_server/auth/apikey.py and the sessions
--     of loobric_server/api/auth.py.
--   * Auth/Requests, Auth/Keys: loobric_server/api/auth.py, who a request acts as, registration,
--     login, and the endpoints on API keys and passwords.
--   * Base and below: lists as tables, dicts, and the actions of a handler, which return or
--     raise and keep what was written before a raise.
--   * Tests and below: a small shop at which each theorem is applied.
--
-- Numbers. Lengths and hours are whole micro-units and confidences thousandths, so the decimals of
-- the source are exact; rounding of floats beyond that is not modelled. Loops are recursion on
-- their list, so no definition needs fuel. `uuid4`, the clock, bcrypt, the text methods of Python
-- and ORDER BY are parameters or fields of the state.
--
-- Not modelled: HTTP and JSON texts, the order in which a query without ORDER BY gives rows beyond
-- the order of insertion, the `changes` documents of audit rows, and concurrent requests: a session
-- is one request. Left out are the older tool API, the importers, backups, the labels' own API and
-- the catalog batch.
pub mod Base
pub mod Auth
pub mod Changes
pub mod Contract
pub mod Store
pub mod Binding
pub mod Setups
pub mod Usage
pub mod Entries
pub mod Labels
pub mod Presets
pub mod Instances
pub mod Batch
pub mod Versioning
pub mod Tests
