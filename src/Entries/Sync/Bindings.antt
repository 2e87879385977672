-- ===== src/Entries/Sync/Bindings.antt =====
-- A push over a sound session: it goes through, and what becomes of the bindings.
use loobric_server.Base.{
  ℕ, ◌≡◌, ◌≢◌, refl, sym, ap, ◌∙◌, String, false, Option, none, some, List, [], ◌++◌, append-nil,
  map, delete_where, In, In-map_inv, All,
}
use loobric_server.Base.Int.{ℤ}
use loobric_server.Base.Dict.{Dict, integer_eq}
use loobric_server.Base.Exec.{Exec, ok, pure, gets, modify, for_each, ◌>>=◌}
use loobric_server.Base.Exec.Runs.{Runs, runs_rules, Runs-ok, Runs-bind, Runs-gets, Runs-for_each}
use loobric_server.Contract.Provenance.{observed}
use loobric_server.Store.{Db, Session, constraints_hold}
use loobric_server.Store.Frame.{IsSound, audit_ok, commit_ok, audited}
use loobric_server.Store.Unique.{unique_on-delete_where, constraints_iff}
use loobric_server.Store.Rows.{EntryRow}
use loobric_server.Binding.Bridge.{Request, requested_members_by_number}
use loobric_server.Binding.Bridge.Frame.{IsFramed, propose_for_requested_entry-Runs}
use loobric_server.Entries.{entity}
use loobric_server.Entries.Sync.{
  EntrySyncRequest, row_at, doomed_rows, is_doomed, drop_proposals, drop_rows, propose_at,
  bridge_created, created, sync_accepted, sync_entries, existing_rows, refused,
}
use loobric_server.Entries.Sync.Pushed.{
  binding_of, unbound, IsMetered, IsPushed, map-delete_where, push_all-Runs,
}

-- What a push that goes through leaves.
pub record IsSynced (user : String) (req : EntrySyncRequest) (s s' : Session) : Type 0 where
  pub sound : IsSound s'
  pub new : List String
  pub bindings :
      map binding_of s'.db.entries
      ≡ delete_where
          (λ b. is_doomed (doomed_rows req (existing_rows s.db user req.machine_id)) b.0)
          (map binding_of s.db.entries ++ map unbound new)

module _ (user : String) (named : user ≢ "") where
  propose_at-Runs :
      (db : Db) (uuid : ℕ → String) (requests : Dict ℤ Request) (row : Option EntryRow)
      → Runs (IsFramed db uuid) (propose_at user requests row)
  unfolding propose_at
  propose_at-Runs db uuid requests none = search runs_rules
  propose_at-Runs db uuid requests (some row) =
      let one = propose_for_requested_entry-Runs db uuid user named row requests in
      search (runs_rules, one)

  -- The session without the doomed rows and their proposals.
  abbrev dropped : Dict ℤ String → Session → Session
  dropped doomed s = record s {
    db = record s.db {
      proposals = delete_where (λ p. is_doomed doomed p.entry_id) s.db.proposals;
      entries = delete_where (λ e. is_doomed doomed e.id) s.db.entries;
    };
  }

  dropped-IsFramed :
      (doomed : Dict ℤ String) (s : Session)
      → IsSound s
      → IsFramed (dropped doomed s).db s.uuid (dropped doomed s)
  unfolding constraints_hold
  dropped-IsFramed doomed s h = record {
    instances_eq = refl;
    entries_eq = refl;
    sets_eq = refl;
    maps_eq = refl;
    ledger_eq = refl;
    supply_eq = refl;
    sound = record {
      holds = (constraints_iff (dropped doomed s).db).1 (
        ((constraints_iff s.db).0 h.holds).0,
        unique_on-delete_where (λ e. e.bound_instance_id) (λ e. is_doomed doomed e.id) s.db.entries
            ((constraints_iff s.db).0 h.holds).1,
      );
      ids = h.ids;
    };
  }

  bridge_created_ok :
      (machine : String) (doomed : Dict ℤ String) (new_rows : List String) (s : Session)
      → IsSound s
      → (s' : Session) × ((drop_proposals doomed >>= λ _.
              bridge_created user machine doomed new_rows)
            s
          ≡ (ok tt, s'))
        × (s'.db.entries ≡ delete_where (λ e. is_doomed doomed e.id) s.db.entries)
        × IsSound s'
  unfolding drop_proposals bridge_created drop_rows modify gets ◌>>=◌
  bridge_created_ok machine doomed new_rows s h =
      let db2 = (drop_proposals doomed s).1.db in
      let requests = requested_members_by_number db2 user machine in
      let body : String → Exec Session (Unit {0}) =
        λ id. gets (λ s. row_at s.db id) >>= propose_at user requests in
      let s3 = dropped doomed s in
      let each : (id : String) → Runs (IsFramed s3.db s.uuid) (body id) = λ id.
        Runs-bind (gets (λ (s : Session). row_at s.db id)) (propose_at user requests)
          (Runs-gets (λ s. row_at s.db id)) (propose_at-Runs s3.db s.uuid requests) in
      let (_, s', run, p) =
        Runs-ok (for_each new_rows body) (Runs-for_each new_rows body each) s3
          (dropped-IsFramed doomed s h) in
      (s', run, p.entries_eq, p.sound)

  -- By a named user, on a sound session where no entry is bound to an empty id, a push that the guard
  -- lets through and whose readings the ledger takes returns. It leaves the session sound, keeps the
  -- binding of every entry that it does not remove, whoever owns it, and adds only unbound ones.
  pub sync_entries-bindings :
      (req : EntrySyncRequest) (s : Session)
      → req.machine_id ≢ ""
      → IsSound s
      → ((e : EntryRow) → In e s.db.entries → e.bound_instance_id ≢ some "")
      → All IsMetered req.entries
      → refused req (existing_rows s.db user req.machine_id) ≡ false
      → (ids : List String) × (removed : List ℤ) × (s' : Session) × (sync_entries user req s
          ≡ (ok (ids, removed), s'))
        × IsSynced user req s s'
  unfolding sync_entries sync_accepted gets pure ◌>>=◌ drop_proposals constraints_hold
  sync_entries-bindings req s machine h whole metered open_guard =
      let existing = existing_rows s.db user req.machine_id in
      let doomed = doomed_rows req existing in
      let base = map binding_of s.db.entries in
      let base-whole : (b : String × Option String) → In b base → b.1 ≢ some "" = λ b i.
        let (e, j, q) = In-map_inv binding_of b s.db.entries i in
        λ n. whole e j (ap (λ c. c.1) (sym q) ∙ n) in
      let start : IsPushed base s = record { sound = h; new = []; kept = sym (append-nil base) } in
      let (items, s1, run1, p1) =
        Runs-ok _
          (push_all-Runs base user named base-whole req (observed req.client req.machine_name)
            existing req.entries metered)
          s start in
      let (s2, run2, e2, h2) =
        bridge_created_ok req.machine_id doomed (created items) s1 p1.sound in
      let audit_ok2 =
        audit_ok user "SYNC_TABLE" entity req.machine_id s2 named (λ e. cc e) (λ e. cc e) machine
          h2.holds in
      rw
        (
          open_guard,
          run1,
          run2,
          audit_ok2,
          commit_ok (audited user "SYNC_TABLE" entity req.machine_id s2) h2.holds,
        )
        (
          _,
          _,
          _,
          refl,
          record {
            sound = record { holds = h2.holds; ids = h2.ids };
            new = p1.new;
            bindings =
                ap (map binding_of) e2
                ∙ map-delete_where binding_of (λ b. is_doomed doomed b.0) s1.db.entries
                ∙ ap (delete_where (λ b. is_doomed doomed b.0)) p1.kept;
          },
        )
