-- ===== src/Tests/Push.antt =====
-- A push of the mill's table, and what a push that breaks off half way leaves in the ledger.
use loobric_server.Base.{
  ℕ, ◌≡◌, ◌≢◌, refl, inl, inr, String, false, Option, none, some, List, [], ◌∷◌, In, ap, All,
}
use loobric_server.Base.Int.{ℤ, pos}
use loobric_server.Base.Exec.{ok}
use loobric_server.Store.{Session}
use loobric_server.Store.Rows.{EntryRow}
use loobric_server.Entries.Sync.{
  measure, unit_of, EntryIn, EntrySyncRequest, snapshot, existing_rows, number_of, absent,
  is_present, refused, sync_entries,
}
use loobric_server.Base.Index.{index_last}
use loobric_server.Binding.Reconcile.{entries_on}
use loobric_server.Entries.Sync.Guard.{IsBounded, sync_entries-bound}
use loobric_server.Entries.Sync.Pushed.{IsMetered}
use loobric_server.Entries.Sync.Bindings.{IsSynced, sync_entries-bindings}
use loobric_server.Tests.{shop, shop-IsSound, pocket1, pocket2}

abbrev pushed : ℕ → Option ℤ → EntryIn
pushed n hours = record {
  tool_number = pos n;
  description = some "drill";
  offsets = measure "diameter" (some (pos 6000000)) ∷ unit_of "diameter" (some "mm") ∷ [];
  data_text = "{}";
  client_item_id = none;
  usage_hours = hours;
}

abbrev pushing : List EntryIn → EntrySyncRequest
pushing entries = record {
  machine_id = "m1";
  client = "linuxcnc";
  machine_name = "mill";
  client_version = "1";
  mode = snapshot;
  force = false;
  entries = entries;
}

abbrev table : EntrySyncRequest
table = pushing (pushed 1 (some (pos 30)) ∷ pushed 2 none ∷ pushed 3 none ∷ [])

shop_whole : (e : EntryRow) → In e (pocket1 ∷ pocket2 ∷ []) → e.bound_instance_id ≢ some ""
shop_whole e (inl q) h = let b = ap (λ r. r.bound_instance_id) q in cc (b, h)
shop_whole e (inr (inl q)) h = let b = ap (λ r. r.bound_instance_id) q in cc (b, h)
shop_whole e (inr (inr q)) h = elim q [ ]

abbrev table_metered : All IsMetered table.entries
table_metered = (inr (30, refl), (inl refl, (inl refl, tt)))

sync_entries-bindings_example :
    (ids : List String) × (removed : List ℤ) × (s' : Session) × (sync_entries "ann" table shop
      ≡ (ok (ids, removed), s'))
    × IsSynced "ann" table shop s'
unfolding refused existing_rows index_last entries_on number_of absent is_present
sync_entries-bindings_example =
    sync_entries-bindings "ann" (λ e. cc e) table shop (λ e. cc e) shop-IsSound shop_whole
      table_metered refl

abbrev half : EntrySyncRequest
half = pushing (pushed 2 none ∷ [])

half_run :
    (ids : List String) × (removed : List ℤ) × (s' : Session) × (sync_entries "ann" half shop
      ≡ (ok (ids, removed), s'))
    × IsSynced "ann" half shop s'
unfolding refused existing_rows index_last entries_on number_of absent is_present
half_run =
    sync_entries-bindings "ann" (λ e. cc e) half shop (λ e. cc e) shop-IsSound shop_whole
      (inl refl, tt) refl

sync_entries-bound_example : IsBounded "ann" half shop half_run.2
sync_entries-bound_example =
    sync_entries-bound "ann" half shop half_run.2 half_run.0 half_run.1 (λ e. cc e) (λ e. cc e)
      shop-IsSound shop_whole (inl refl, tt) refl refl half_run.3
