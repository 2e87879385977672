-- ===== src/Batch/Run.antt =====
-- The items of a batch in a row: what is reported of each, and the endpoint.
use loobric_server.Base.{
  String, Bool, true, false, Option, none, some, List, [], ◌∷◌, any, length, str_eq, ltb,
  if◌then◌else◌,
}
use loobric_server.Base.Dict.{string_eq}
use loobric_server.Base.Exec.{
  Exec, Error, Result, ok, err, bad_request, not_found, conflict, forbidden, unauthorized,
  unprocessable, item_error, too_large, pure, raise, gets, modify, ◌>>=◌, ◌>>◌,
}
use loobric_server.Store.{Session, commit}
use loobric_server.Store.Audit.{create_audit_log}
use loobric_server.Auth.Doors.{effective_doors}
use loobric_server.Presets.{Texts}
use loobric_server.Instances.{instance_entity}
use loobric_server.Batch.{
  max_items, BatchItem, BatchRequest, Report, Work, blank_result, non_empty, index_items, error,
}
use loobric_server.Batch.Item.{sync_item}

-- The two `except` clauses of the loop: what an item's failure is, and what goes on as a 500.
abbrev is_reported : Error → Bool
is_reported item_error = true
is_reported bad_request = true
is_reported not_found = true
is_reported conflict = true
is_reported forbidden = true
is_reported unauthorized = true
is_reported unprocessable = true
is_reported _ = false

unfoldable pub try_item : Exec Work (Unit {0}) → Exec Work (Unit {0})
try_item m w = let (r, w') = m w in tried r w'
  where
    tried : Result (Unit {0}) → Work → Result (Unit {0}) × Work
    tried (ok u) w' = (ok u, w')
    tried (err e) w' =
        if is_reported e
        then (ok tt, record w' { out = record w'.out { failure = some e } })
        else (err e, w')

unfoldable pub sync_items :
    Texts → String → BatchRequest → String → Bool → List BatchItem → Exec Work (List Report)
sync_items py user req actor can_assert [] = pure []
sync_items py user req actor can_assert (item ∷ items) = do
  modify (λ w. record w { out = blank_result item })
  try_item (sync_item py user req actor can_assert item)
  out ← gets (λ w. w.out)
  rest ← sync_items py user req actor can_assert items
  pure (out ∷ rest)

abbrev or_client : Option String → String → String
or_client o client = elim (non_empty o) [ none ↦ client | some t ↦ t ]

-- A report that stands for no item yet.
abbrev no_report : Report
no_report = record {
  client_item_id = none;
  id = none;
  result = error;
  asserts_applied = 0;
  asserts_blocked = 0;
  presets_contributed = 0;
  presets_skipped = 0;
  failure = none;
}

-- `run_instance_batch`
unfoldable pub run_instance_batch :
    Texts → String → BatchRequest → Bool → Exec Session (List Report)
run_instance_batch py user req can_assert s =
    let start : Work = record {
      session = s;
      by_item = index_items s.db user req.client;
      out = no_report;
    } in
    let (r, w) =
      sync_items py user req (py.strip (or_client req.actor req.client)) can_assert req.items
        start in
    finish r w.session
  where
    finish : Result (List Report) → Session → Result (List Report) × Session
    finish (err e) t = (err e, t)
    finish (ok results) t =
        (do create_audit_log user "SYNC_BATCH" instance_entity req.client; commit; pure results) t

-- `holds_assert`
unfoldable pub holds_assert : Option String → Option (List String) → Bool
holds_assert channel scopes = elim channel [
  | none ↦ true
  | some c ↦ if str_eq c "api-key" then any (str_eq "assert") (effective_doors scopes) else true
]

-- `sync_batch`
unfoldable pub sync_batch :
    Texts
    → String
    → BatchRequest
    → Option String
    → Option (List String)
    → Exec Session (List Report)
sync_batch py user req channel scopes =
    if ltb max_items (length req.items)
    then raise too_large
    else run_instance_batch py user req (holds_assert channel scopes)
