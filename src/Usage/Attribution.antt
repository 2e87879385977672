-- ===== src/Usage/Attribution.antt =====
-- The delta rules of usage_ledger.py as a relation, and the ingestion that follows them.
use loobric_server.Base.{
  ℕ, ◌+◌, ◌-◌, ◌<◌, ◌≡◌, refl, sym, ◌↔◌, ◌≢◌, inl, inr, String, false, Option, none, some, List, [],
  ◌∷◌, ◌++◌, map, ltb, nat_eq, nat_eq_iff, ltb→lt, append-nil, str_eq_iff, arith, Bool-cases,
  Option-cases, update_where, str_eq,
}
use loobric_server.Base.Exec.{ok, err, bad_request, ◌>>=◌, pure}
use loobric_server.Contract.{leaf_value}
use loobric_server.Store.{Session, constraints_hold}
use loobric_server.Store.Unique.{unique_on-update_where}
use loobric_server.Store.Frame.{IsSound}
use loobric_server.Store.Rows.{EntryRow, UsageRow}
use loobric_server.Usage.{
  Reading, accepted, credits, usage_row, ingest_usage_observation, ingest_from, advance_baseline,
  Disposition, baseline, reset, noop, contribution, orphan,
}
use loobric_server.Usage.Ledger.{Changed, renewed, record_delta_ok}

-- What an observation amounts to: by the previous reading, the reading, and the instance that stood
-- bound over the whole interval. The last index is what the ledger gains.
pub data Accounts (reading : ℕ) (held : Option String)
    : Option ℕ → Disposition → List (Option String × ℕ) → Type 0 where
  first : Accounts reading held none baseline []
  fell : (p : ℕ) → reading < p → Accounts reading held (some p) reset []
  stood : (p : ℕ) → p ≡ reading → Accounts reading held (some p) noop []
  earned :
      (p amount : ℕ) (i : String)
      → held ≡ some i
      → 0 < amount
      → p + amount ≡ reading
      → Accounts reading held (some p) contribution ((held, amount) ∷ [])
  unattributed :
      (p amount : ℕ)
      → held ≡ none
      → 0 < amount
      → p + amount ≡ reading
      → Accounts reading held (some p) orphan ((held, amount) ∷ [])

-- The instance that a row credits, and its hours.
abbrev pub credit_of : UsageRow → Option String × ℕ
credit_of r = (r.instance_id, r.amount)

-- The new rows belong to the entry, the user and the machine, and carry the reading.
abbrev pub IsReported : String → EntryRow → String → String → ℕ → List UsageRow → Type 0
IsReported user entry machine source reading [] = Unit
IsReported user entry machine source reading (r ∷ rows) =
    (r.user_id ≡ user)
    × (r.entry_id ≡ entry.id)
    × (r.machine_id ≡ machine)
    × (r.source ≡ source)
    × (r.metric ≡ "hours")
    × (r.counter_value ≡ reading)
    × IsReported user entry machine source reading rows

-- The entries with the baseline of one moved up to its binding.
abbrev pub rebased : String → List EntryRow → List EntryRow
rebased id rows =
    update_where (λ e. str_eq e.id id)
      (λ e. record e { usage_baseline_instance_id = e.bound_instance_id }) rows

abbrev pub previous_reading : EntryRow → Option ℕ
previous_reading entry = leaf_value entry.canonical.usage_hours

credits_iff :
    (entry : EntryRow) (i : String)
    → (credits entry ≡ some i)
      ↔ ((entry.bound_instance_id ≡ some i) × (entry.usage_baseline_instance_id ≡ some i))
unfolding credits
credits_iff entry i = elim (Option-cases entry.bound_instance_id) [
  | inl n ↦ (λ h. ground arith, λ h. ground arith)
  | inr (b, p) ↦ elim (Option-cases entry.usage_baseline_instance_id) [
    | inl n ↦ (λ h. ground arith, λ h. ground arith)
    | inr (c, q) ↦ (λ h. ground (arith, str_eq_iff c b), λ h. ground (arith, str_eq_iff c b))
  ]
]

module _ (user : String) (named : user ≢ "") (entry : EntryRow) (machine source : String) where
  -- The baseline moves, and nothing else.
  abbrev advanced : Session → Session
  advanced s = record s { db = record s.db { entries = rebased entry.id s.db.entries } }

  advanced-IsSound : (s : Session) → IsSound s → IsSound (advanced s)
  unfolding constraints_hold
  advanced-IsSound s h = record {
    holds =
        rw
          (unique_on-update_where (λ e. e.bound_instance_id) (λ e. str_eq e.id entry.id)
            (λ e. record e { usage_baseline_instance_id = e.bound_instance_id }) (λ e. refl)
            s.db.entries)
          h.holds;
    ids = h.ids;
  }

  -- With no new row.
  quiet :
      (s : Session)
      → IsSound s
      → Changed s (advanced s) (rebased entry.id s.db.entries) s.db.instances (s.db.ledger ++ [])
  quiet s h = record {
    entries_eq = refl;
    instances_eq = refl;
    ledger_eq = sym (append-nil s.db.ledger);
    maps_eq = refl;
    sets_eq = refl;
    proposals_eq = refl;
    catalogs_eq = refl;
    presets_eq = refl;
    supply_eq = refl;
    sound = advanced-IsSound s h;
  }

  abbrev Ingested : ℕ → Session → Option ℕ → Session → Type 0
  Ingested reading s previous t =
      (s' : Session) × (d : Disposition) × (rows : List UsageRow) × (ingest_from user entry machine
          reading source previous t
        ≡ (ok d, s'))
      × Accounts reading (credits entry) previous d (map credit_of rows)
      × IsReported user entry machine source reading rows
      × Changed s s' (rebased entry.id s.db.entries)
          (renewed user (s.db.ledger ++ rows) (elim rows [ [] ↦ none | _ ∷ _ ↦ credits entry ])
            s.db.instances)
          (s.db.ledger ++ rows)

  delta_Accounts :
      (reading p : ℕ) (d : Disposition)
      → p < reading
      → d ≡ (elim (credits entry) [ none ↦ orphan | some _ ↦ contribution ])
      → Accounts reading (credits entry) (some p) d ((credits entry, reading - p) ∷ [])
  delta_Accounts reading p d lt e = elim (Option-cases (credits entry)) [
    | inl n ↦
        let same : d ≡ orphan = rw n at e in
        rw same (unattributed p (reading - p) n (omega arith) (omega arith))
    | inr (i, n) ↦
        let same : d ≡ contribution = rw n at e in
        rw same (earned p (reading - p) i n (omega arith) (omega arith))
  ]

  below : (n p : ℕ) → ltb n p ≡ false → nat_eq n p ≡ false → p < n
  below n p h k = ground arith

  ingest_from_ok :
      (reading : ℕ) (s : Session) (previous : Option ℕ)
      → credits entry ≢ some ""
      → IsSound s
      → Ingested reading s previous (advanced s)
  unfolding pure usage_row
  ingest_from_ok reading s none ne h = (advanced s, baseline, [], refl, first, tt, quiet s h)
  ingest_from_ok reading s (some p) ne h = elim (Bool-cases (ltb reading p)) [
    | inl less ↦
        (advanced s, reset, [], rw less refl, fell p (ltb→lt reading p less), tt, quiet s h)
    | inr more ↦ elim (Bool-cases (nat_eq reading p)) [
      | inl same ↦ (
        advanced s,
        noop,
        [],
        rw more (rw same refl),
        stood p (sym ((nat_eq_iff reading p).0 same)),
        tt,
        quiet s h,
      )
      | inr grown ↦
          let (s', d, run, spec, c) =
            record_delta_ok user named entry machine source (reading - p) reading (advanced s) ne
              (advanced-IsSound s h) in
          (
            s',
            d,
            usage_row user entry machine (reading - p) reading source (s.uuid s.drawn) ∷ [],
            rw more (rw grown run),
            delta_Accounts reading p d (below reading p more grown) spec,
            (refl, refl, refl, refl, refl, refl, tt),
            record {
              entries_eq = c.entries_eq;
              instances_eq = c.instances_eq;
              ledger_eq = c.ledger_eq;
              maps_eq = c.maps_eq;
              sets_eq = c.sets_eq;
              proposals_eq = c.proposals_eq;
              catalogs_eq = c.catalogs_eq;
              presets_eq = c.presets_eq;
              supply_eq = c.supply_eq;
              sound = c.sound;
            },
          )
    ]
  ]

-- An accepted reading on a sound session, by a named user, of an entry that is not bound to an empty
-- id: the ingestion returns; its disposition and the rows it appends are those of the delta rules
-- for the previous reading, where a row credits an instance exactly when that instance is bound now
-- and was bound at the previous observation; each new row carries the user, the entry, the machine,
-- the source and the raw reading. The entry's baseline moves to its binding, the total of a credited
-- instance is renewed, and the other entries and instances, the earlier ledger rows, the setups, the
-- sets, the proposals, the catalog and the presets stay.
pub ingest-Accounts :
    (user : String) (entry : EntryRow) (machine source : String) (r : Reading)
    (unit : Option String) (reading : ℕ) (s : Session)
    → user ≢ ""
    → entry.bound_instance_id ≢ some ""
    → IsSound s
    → accepted r unit ≡ some reading
    → (s' : Session) × (d : Disposition) × (rows : List UsageRow) × (held : Option String)
      × (ingest_usage_observation user entry r unit source machine s ≡ (ok d, s'))
      × Accounts reading held (previous_reading entry) d (map credit_of rows)
      × ((i : String)
          → (held ≡ some i)
            ↔ ((entry.bound_instance_id ≡ some i) × (entry.usage_baseline_instance_id ≡ some i)))
      × IsReported user entry machine source reading rows
      × Changed s s'
          (rebased entry.id s.db.entries)
          (renewed user
            (s.db.ledger ++ rows)
            (elim rows [ [] ↦ none | _ ∷ _ ↦ held ])
            s.db.instances)
          (s.db.ledger ++ rows)
unfolding ingest_usage_observation advance_baseline ◌>>=◌
ingest-Accounts user entry machine source r unit reading s named ne h ok_reading =
    let bare : credits entry ≢ some "" = λ p. ne ((credits_iff entry "").0 p).0 in
    let (s', d, rows, run, acc, rep, ch) =
      ingest_from_ok user named entry machine source reading s (previous_reading entry) bare h in
    (s', d, rows, credits entry, rw ok_reading run, acc, credits_iff entry, rep, ch)

-- A reading that is refused raises a 400 and changes nothing.
pub ingest_refused :
    (user : String) (entry : EntryRow) (machine source : String) (r : Reading)
    (unit : Option String) (s : Session)
    → accepted r unit ≡ none
    → ingest_usage_observation user entry r unit source machine s ≡ (err bad_request, s)
unfolding ingest_usage_observation ◌>>=◌
ingest_refused user entry machine source r unit s h = rw h
