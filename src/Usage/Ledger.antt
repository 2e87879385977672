-- ===== src/Usage/Ledger.antt =====
-- What one accepted observation does: it returns, and the session it leaves.
use loobric_server.Base.{
  ℕ, ◌≡◌, refl, ap, sym, ◌≢◌, inl, inr, String, Option, none, some, List, [], ◌∷◌, ◌++◌,
  Option-cases, filter, find?, update_where,
}
use loobric_server.Base.Tables.{update_where-none}
use loobric_server.Base.Exec.{ok, ◌>>=◌, pure}
use loobric_server.Store.{Session, constraints_hold}
use loobric_server.Store.Frame.{IsSound, bind_ok, draw_ok, flush_ok, audit_ok, audited, drawn}
use loobric_server.Store.Rows.{EntryRow, InstanceRow, UsageRow}
use loobric_server.Usage.{
  credits, usage_row, record_delta, settle_credit, recompute_instance_usage, is_instance_of,
  is_credit, sum_amounts, with_total, instance_total, contributions, Disposition, contribution,
  orphan,
}

-- The tables and the supply of identifiers are those of `s`, except for what is stated.
pub record Changed (s s' : Session) (entries : List EntryRow) (instances : List InstanceRow)
    (ledger : List UsageRow) : Type 0 where
  pub entries_eq : s'.db.entries ≡ entries
  pub instances_eq : s'.db.instances ≡ instances
  pub ledger_eq : s'.db.ledger ≡ ledger
  pub maps_eq : s'.db.maps ≡ s.db.maps
  pub sets_eq : s'.db.sets ≡ s.db.sets
  pub proposals_eq : s'.db.proposals ≡ s.db.proposals
  pub catalogs_eq : s'.db.catalogs ≡ s.db.catalogs
  pub presets_eq : s'.db.presets ≡ s.db.presets
  pub supply_eq : s'.uuid ≡ s.uuid
  pub sound : IsSound s'

-- The hours that a ledger credits to an instance.
abbrev pub credit_total : List UsageRow → String → String → ℕ
credit_total ledger user i = sum_amounts (filter (is_credit user i) ledger)

-- The instances with the total of the one that is credited renewed.
abbrev pub renewed : String → List UsageRow → Option String → List InstanceRow → List InstanceRow
renewed user ledger none rows = rows
renewed user ledger (some i) rows =
    update_where (is_instance_of user i) (with_total user (credit_total ledger user i)) rows

module _ (user : String) (named : user ≢ "") where
  recompute_ok :
      (i : String) (s : Session)
      → i ≢ ""
      → IsSound s
      → (s' : Session) × (recompute_instance_usage user i s ≡ (ok tt, s'))
        × Changed s s' s.db.entries (renewed user s.db.ledger (some i) s.db.instances) s.db.ledger
  unfolding instance_total contributions recompute_instance_usage ◌>>=◌ constraints_hold
  recompute_ok i s ne h = elim (Option-cases (find? (is_instance_of user i) s.db.instances)) [
    | inl missing ↦ (
      s,
      rw missing refl,
      record {
        entries_eq = refl;
        instances_eq = sym (update_where-none (is_instance_of user i) _ s.db.instances missing);
        ledger_eq = refl;
        maps_eq = refl;
        sets_eq = refl;
        proposals_eq = refl;
        catalogs_eq = refl;
        presets_eq = refl;
        supply_eq = refl;
        sound = h;
      },
    )
    | inr (row, found) ↦
        let t : Session = record s {
          db = record s.db {
            instances =
                update_where (is_instance_of user i) (with_total user (instance_total s.db user i))
                  s.db.instances;
          };
        } in
        (
          audited user "DERIVE" "tool_instance_record" i t,
          rw found (
              audit_ok user "DERIVE" "tool_instance_record" i t named (λ e. cc e) (λ e. cc e) ne
                h.holds),
          record {
            entries_eq = refl;
            instances_eq = refl;
            ledger_eq = refl;
            maps_eq = refl;
            sets_eq = refl;
            proposals_eq = refl;
            catalogs_eq = refl;
            presets_eq = refl;
            supply_eq = refl;
            sound = record { holds = h.holds; ids = h.ids };
          },
        )
  ]

  settle_ok :
      (credit : Option String) (s : Session)
      → credit ≢ some ""
      → IsSound s
      → (s' : Session) × (d : Disposition) × (settle_credit user credit s ≡ (ok d, s'))
        × (d ≡ (elim credit [ none ↦ orphan | some _ ↦ contribution ]))
        × Changed s s' s.db.entries (renewed user s.db.ledger credit s.db.instances) s.db.ledger
  unfolding pure
  settle_ok none s ne h = (
    s,
    orphan,
    refl,
    refl,
    record {
      entries_eq = refl;
      instances_eq = refl;
      ledger_eq = refl;
      maps_eq = refl;
      sets_eq = refl;
      proposals_eq = refl;
      catalogs_eq = refl;
      presets_eq = refl;
      supply_eq = refl;
      sound = h;
    },
  )
  settle_ok (some i) s ne h =
      let (s', e, c) = recompute_ok i s (λ p. ne (ap some p)) h in
      (
        s',
        contribution,
        bind_ok (recompute_instance_usage user i) (λ _. pure contribution) s s' tt e,
        refl,
        c,
      )

  module _ (entry : EntryRow) (machine source : String) where
    -- A positive delta: the row, and the renewed total.
    pub record_delta_ok :
        (delta reading : ℕ) (s : Session)
        → credits entry ≢ some ""
        → IsSound s
        → (s' : Session) × (d : Disposition) × (record_delta user entry machine delta reading source
              s
            ≡ (ok d, s'))
          × (d ≡ (elim (credits entry) [ none ↦ orphan | some _ ↦ contribution ]))
          × (let row = usage_row user entry machine delta reading source (s.uuid s.drawn) in
              let ledger = s.db.ledger ++ row ∷ [] in
              Changed s s' s.db.entries (renewed user ledger (credits entry) s.db.instances) ledger)
    unfolding record_delta ◌>>=◌ constraints_hold
    record_delta_ok delta reading s ne h =
        let row = usage_row user entry machine delta reading source (s.uuid s.drawn) in
        let t : Session = record (drawn s) {
          db = record s.db { ledger = s.db.ledger ++ row ∷ [] };
        } in
        let u = audited user "USAGE" "usage_ledger" (s.uuid s.drawn) t in
        let (s', d, run, spec, c) =
          settle_ok (credits entry) u ne (record { holds = h.holds; ids = h.ids }) in
        (
          s',
          d,
          rw (draw_ok s) (
              rw (flush_ok t h.holds) (
                rw
                  (audit_ok user "USAGE" "usage_ledger" (s.uuid s.drawn) t named (λ e. cc e)
                    (λ e. cc e) (h.ids s.drawn) h.holds)
                  run)),
          spec,
          record {
            entries_eq = c.entries_eq;
            instances_eq = c.instances_eq;
            ledger_eq = c.ledger_eq;
            maps_eq = c.maps_eq;
            sets_eq = c.sets_eq;
            proposals_eq = c.proposals_eq;
            catalogs_eq = c.catalogs_eq;
            presets_eq = c.presets_eq;
            supply_eq = c.supply_eq;
            sound = c.sound;
          },
        )
