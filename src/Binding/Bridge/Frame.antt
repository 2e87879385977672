-- ===== src/Binding/Bridge/Frame.antt =====
-- The run of the request-aware bridge over a sound session.
use loobric_server.Base.{
  ℕ, ◌≡◌, refl, sym, ap, ◌∙◌, ◌≢◌, ◌⊎◌, inl, inr, String, Option, none, some, List, [], ◌∷◌, ◌++◌,
  append_assoc, append-nil, In, In-snoc,
}
use loobric_server.Base.Int.{ℤ}
use loobric_server.Base.Dict.{Dict}
use loobric_server.Base.Exec.{ok, ◌>>=◌}
use loobric_server.Base.Exec.Runs.{Runs, Runs-ok, runs_rules}
use loobric_server.Store.{Session, Db, constraints_hold}
use loobric_server.Store.Frame.{IsSound, draw_ok, flush_ok, audit_ok, audited, drawn}
use loobric_server.Store.Rows.{EntryRow, ProposalRow, is_open, Reason}
use loobric_server.Binding.Proposals.{
  Candidate, proposal_row, add_proposal, propose_best, propose_for_entry,
}
use loobric_server.Binding.Bridge.{
  Request, propose_match, propose_for_requested_entry, bridge_from, bridge_requested_claims,
}

-- The tables other than the proposals and the audit are those of `db`.
pub record IsFramed (db : Db) (uuid : ℕ → String) (s : Session) : Type 0 where
  pub instances_eq : s.db.instances ≡ db.instances
  pub entries_eq : s.db.entries ≡ db.entries
  pub sets_eq : s.db.sets ≡ db.sets
  pub maps_eq : s.db.maps ≡ db.maps
  pub ledger_eq : s.db.ledger ≡ db.ledger
  pub supply_eq : s.uuid ≡ uuid
  pub sound : IsSound s

module _ (user : String) (named : user ≢ "") (entry_id instance_id : String) (confidence : ℕ)
    (reason : Reason) where
  -- The session after a new proposal.
  abbrev pub proposed : Session → Session
  proposed s =
      let row = proposal_row user entry_id instance_id confidence reason (s.uuid s.drawn) in
      audited user "PROPOSE" "entry_proposal" (s.uuid s.drawn)
        (record (drawn s) { db = record s.db { proposals = s.db.proposals ++ row ∷ [] } })

  pub add_proposal_ok :
      (s : Session)
      → IsSound s
      → add_proposal user entry_id instance_id confidence reason s ≡ (
        ok (some (proposal_row user entry_id instance_id confidence reason (s.uuid s.drawn))),
        proposed s,
      )
  unfolding add_proposal ◌>>=◌ constraints_hold
  add_proposal_ok s h =
      let id = s.uuid s.drawn in
      let row = proposal_row user entry_id instance_id confidence reason id in
      let t : Session = record (drawn s) {
        db = record s.db { proposals = s.db.proposals ++ row ∷ [] };
      } in
      rw (draw_ok s) (
        rw (flush_ok t h.holds) (
          rw
            (audit_ok user "PROPOSE" "entry_proposal" id t named (λ e. cc e) (λ e. cc e)
              (h.ids s.drawn) h.holds)
            refl))

-- What every new proposal keeps, the proposing functions keep.
module _ {P : Session → Type 0} (user : String)
    (one : (entry_id instance_id : String) (confidence : ℕ) (reason : Reason)
      → Runs P (add_proposal user entry_id instance_id confidence reason)) where
  propose_best-Runs :
      (entry : EntryRow) (best : Option Candidate) → Runs P (propose_best user entry best)
  unfolding propose_best
  propose_best-Runs entry none = search runs_rules
  propose_best-Runs entry (some (c, reason, inst)) = search one

  propose_for_entry-Runs : (entry : EntryRow) → Runs P (propose_for_entry user entry)
  unfolding propose_for_entry
  propose_for_entry-Runs entry = search (runs_rules, propose_best-Runs)

  propose_match-Runs : (entry : EntryRow) (r : Option Request) → Runs P (propose_match user entry r)
  unfolding propose_match
  propose_match-Runs entry none = propose_for_entry-Runs entry
  propose_match-Runs entry (some (i, n)) = search (runs_rules, propose_for_entry-Runs, one)

  requested-Runs :
      (entry : EntryRow) (requests : Dict ℤ Request)
      → Runs P (propose_for_requested_entry user entry requests)
  unfolding propose_for_requested_entry
  requested-Runs entry requests = search (runs_rules, propose_match-Runs)

  bridge_from-Runs :
      (requests : Dict ℤ Request) (entries : List EntryRow) (n : ℕ)
      → Runs P (bridge_from user requests entries n)
  unfolding bridge_from
  bridge_from-Runs requests [] n = search runs_rules
  bridge_from-Runs requests (e ∷ rest) n =
      let later = bridge_from-Runs requests rest in search (runs_rules, requested-Runs, later)

  bridge_with-Runs : (machine : String) → Runs P (bridge_requested_claims user machine)
  unfolding bridge_requested_claims
  bridge_with-Runs machine = search (runs_rules, bridge_from-Runs)

module _ (db : Db) (uuid : ℕ → String) (user : String) (named : user ≢ "") where
  add_proposal-Runs :
      (entry_id instance_id : String) (confidence : ℕ) (reason : Reason)
      → Runs (IsFramed db uuid) (add_proposal user entry_id instance_id confidence reason)
  unfolding constraints_hold
  add_proposal-Runs entry_id instance_id confidence reason = record {
    at = λ s h. rw (add_proposal_ok user named entry_id instance_id confidence reason s h.sound) (
      tt,
      record {
        instances_eq = h.instances_eq;
        entries_eq = h.entries_eq;
        sets_eq = h.sets_eq;
        maps_eq = h.maps_eq;
        ledger_eq = h.ledger_eq;
        supply_eq = h.supply_eq;
        sound = record { holds = h.sound.holds; ids = h.sound.ids };
      },
    );
  }

  pub propose_for_requested_entry-Runs :
      (entry : EntryRow) (requests : Dict ℤ Request)
      → Runs (IsFramed db uuid) (propose_for_requested_entry user entry requests)
  propose_for_requested_entry-Runs = requested-Runs user add_proposal-Runs

  pub bridge-Runs :
      (machine : String) → Runs (IsFramed db uuid) (bridge_requested_claims user machine)
  bridge-Runs = bridge_with-Runs user add_proposal-Runs

-- A session after the bridge, against the one before it: every table but the proposals and the audit
-- is as it was, the proposals have grown by open ones of the user, and the committed rows are those
-- of before or the present ones.
pub record IsBridged (user : String) (s s' : Session) : Type 0 where
  pub instances_eq : s'.db.instances ≡ s.db.instances
  pub entries_eq : s'.db.entries ≡ s.db.entries
  pub sets_eq : s'.db.sets ≡ s.db.sets
  pub maps_eq : s'.db.maps ≡ s.db.maps
  pub ledger_eq : s'.db.ledger ≡ s.db.ledger
  pub catalogs_eq : s'.db.catalogs ≡ s.db.catalogs
  pub presets_eq : s'.db.presets ≡ s.db.presets
  pub new : List ProposalRow
  pub added : s'.db.proposals ≡ s.db.proposals ++ new
  pub opened : (p : ProposalRow) → In p new → (p.user_id ≡ user) × (p.status ≡ is_open)
  pub saved : (s'.committed ≡ s.committed) ⊎ (s'.committed ≡ s'.db)
  pub sound : IsSound s'

module _ (user : String) (named : user ≢ "") (s0 : Session) where
  add_proposal-IsBridged :
      (entry_id instance_id : String) (confidence : ℕ) (reason : Reason)
      → Runs (IsBridged user s0) (add_proposal user entry_id instance_id confidence reason)
  unfolding constraints_hold
  add_proposal-IsBridged entry_id instance_id confidence reason = record {
    at = λ s h.
        let row = proposal_row user entry_id instance_id confidence reason (s.uuid s.drawn) in
        rw (add_proposal_ok user named entry_id instance_id confidence reason s h.sound) (
          tt,
          record {
            instances_eq = h.instances_eq;
            entries_eq = h.entries_eq;
            sets_eq = h.sets_eq;
            maps_eq = h.maps_eq;
            ledger_eq = h.ledger_eq;
            catalogs_eq = h.catalogs_eq;
            presets_eq = h.presets_eq;
            new = h.new ++ row ∷ [];
            added =
                ap (λ ps. ps ++ row ∷ []) h.added ∙ append_assoc s0.db.proposals h.new (row ∷ []);
            opened = λ p i. elim (In-snoc p row h.new i) [
              | inl old ↦ h.opened p old
              | inr q ↦ (ap (λ r. r.user_id) q, ap (λ r. r.status) q)
            ];
            saved = inr refl;
            sound = record { holds = h.sound.holds; ids = h.sound.ids };
          },
        );
  }

  -- By a named user and over a sound session the bridge returns and leaves the session sound. It adds
  -- proposals, each open and of the user, and keeps those that were there; it changes no row of the
  -- instances, entries, catalog, sets, setups, ledger or presets; and what is committed afterwards is
  -- what was, or the whole session.
  pub bridge_requested_claims-IsBridged :
      (machine : String)
      → IsSound s0
      → (n : ℕ) × (s' : Session) × (bridge_requested_claims user machine s0 ≡ (ok n, s'))
        × IsBridged user s0 s'
  bridge_requested_claims-IsBridged machine h =
      Runs-ok (bridge_requested_claims user machine)
        (bridge_with-Runs user add_proposal-IsBridged machine) s0
        (record {
          instances_eq = refl;
          entries_eq = refl;
          sets_eq = refl;
          maps_eq = refl;
          ledger_eq = refl;
          catalogs_eq = refl;
          presets_eq = refl;
          new = [];
          added = sym (append-nil s0.db.proposals);
          opened = λ p i. absurd i;
          saved = inl refl;
          sound = h;
        })
