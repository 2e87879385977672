-- ===== src/Binding/Proposals.antt =====
-- `score`, `propose_for_entry` and `close_open_proposal_on_bind` of binding_v2.py.
--
-- Confidences are thousandths, as the source rounds them: the threshold 0.5 is 500.
pub mod Best
use loobric_server.Base.{
  ℕ, suc, ◌*◌, String, Bool, true, false, not, ◌&&◌, Option, none, some, List, [], ◌∷◌, ◌++◌, map,
  filter, find?, any, update_where, str_eq, ltb, leb, is_none, if◌then◌else◌,
}
use loobric_server.Base.Int.{ℤ, pos, int_eq, abs_diff, leb_ℤ, max_ℤ}
use loobric_server.Base.Dict.{lookup, string_eq}
use loobric_server.Base.Exec.{Exec, pure, gets, modify, ◌>>=◌, ◌>>◌}
use loobric_server.Contract.{leaf_value}
use loobric_server.Store.{Db, Session, draw, flush}
use loobric_server.Store.Audit.{create_audit_log}
use loobric_server.Store.Rows.{
  EntryRow, InstanceRow, ProposalRow, ProposalStatus, is_open, confirmed, rejected, Reason,
  no_overlap, diameter_matches,
}

abbrev pub proposal_threshold : ℕ
proposal_threshold = 500

abbrev pub diameter_weight : ℕ
diameter_weight = 550

-- `abs(a - b) <= DIAMETER_TOLERANCE * max(a, b)`, the tolerance being one part in a hundred.
unfoldable pub within_tolerance : ℤ → ℤ → Bool
within_tolerance a b = leb_ℤ (pos (abs_diff a b * 100)) (max_ℤ a b)

-- A missing diameter and a diameter of 0 are both false.
unfoldable pub truthy : ℤ → Bool
truthy d = not (int_eq d (pos 0))

score_diameters : Option ℤ → Option ℤ → ℕ × Reason
unfolding within_tolerance truthy
score_diameters (some a) (some b) =
    if truthy a && truthy b && within_tolerance a b
    then (diameter_weight, diameter_matches b)
    else (0, no_overlap)
score_diameters _ _ = (0, no_overlap)

unfoldable pub score : EntryRow → InstanceRow → ℕ × Reason
unfolding score_diameters
score entry instance_row =
    score_diameters (leaf_value (lookup "diameter" entry.canonical.offsets))
      (leaf_value (lookup "diameter" instance_row.canonical.geometry))

unfoldable pub has_status : ProposalStatus → ProposalStatus → Bool
has_status is_open is_open = true
has_status confirmed confirmed = true
has_status rejected rejected = true
has_status _ _ = false

-- The entry's open proposal, if it has one.
unfoldable pub open_proposal : Db → String → Option ProposalRow
unfolding has_status
open_proposal db entry_id =
    find? (λ p. str_eq p.entry_id entry_id && has_status p.status is_open) db.proposals

-- The instances that were rejected for the entry.
unfoldable pub rejected_instances : Db → String → List String
unfolding has_status
rejected_instances db entry_id =
    map (λ (p : ProposalRow). p.proposed_instance_id)
      (filter (λ p. str_eq p.entry_id entry_id && has_status p.status rejected) db.proposals)

abbrev pub Candidate : Type 0
Candidate = ℕ × Reason × InstanceRow

abbrev pub beats : ℕ → Option Candidate → Bool
beats s none = true
beats s (some (t, _, _)) = ltb t s

-- One round of the loop over the instances.
unfoldable pub consider : List String → EntryRow → Option Candidate → InstanceRow → Option Candidate
consider refused entry best inst =
    if any (str_eq inst.id) refused
    then best
    else (let (s, reason) = score entry inst in
        if leb proposal_threshold s && beats s best then some (s, reason, inst) else best)

unfoldable pub best_from :
    List String → EntryRow → Option Candidate → List InstanceRow → Option Candidate
best_from refused entry best [] = best
best_from refused entry best (inst ∷ rest) =
    best_from refused entry (consider refused entry best inst) rest

unfoldable pub best_candidate : Db → String → EntryRow → Option Candidate
best_candidate db user entry =
    best_from (rejected_instances db entry.id) entry none
      (filter (λ i. str_eq i.user_id user) db.instances)

abbrev pub proposal_row : String → String → String → ℕ → Reason → String → ProposalRow
proposal_row user entry_id instance_id confidence reason id = record {
  id = id;
  user_id = user;
  entry_id = entry_id;
  proposed_instance_id = instance_id;
  confidence = confidence;
  reason = reason;
  status = is_open;
  version = 1;
  updated_by = user;
}

-- A new open proposal: `db.add`, `db.flush` and its audit row.
unfoldable pub add_proposal :
    String → String → String → ℕ → Reason → Exec Session (Option ProposalRow)
add_proposal user entry_id instance_id confidence reason = do
  id ← draw
  let row = proposal_row user entry_id instance_id confidence reason id
  modify (λ s. record s { db = record s.db { proposals = s.proposals ++ row ∷ [] } })
  flush
  create_audit_log user "PROPOSE" "entry_proposal" id
  pure (some row)

unfoldable pub propose_best :
    String → EntryRow → Option Candidate → Exec Session (Option ProposalRow)
propose_best user entry none = pure none
propose_best user entry (some (s, reason, inst)) = add_proposal user entry.id inst.id s reason

unfoldable pub propose_for_entry : String → EntryRow → Exec Session (Option ProposalRow)
propose_for_entry user entry = if not (is_none entry.bound_instance_id) then pure none else (do
  db ← gets (λ s. s.db)
  if not (is_none (open_proposal db entry.id))
      then pure none
      else propose_best user entry (best_candidate db user entry))

-- What becomes of the entry's open proposal when `bound` is bound.
abbrev settle : String → String → ProposalRow → ProposalRow
settle user bound p = record p {
  status = if str_eq p.proposed_instance_id bound then confirmed else rejected;
  version = suc p.version;
  updated_by = user;
}

-- The first open proposal of the entry is settled.
settle_first : String → String → String → List ProposalRow → List ProposalRow
unfolding has_status
settle_first user entry_id bound [] = []
settle_first user entry_id bound (p ∷ ps) =
    let rest = settle_first user entry_id bound ps in
    if str_eq p.entry_id entry_id && has_status p.status is_open
    then settle user bound p ∷ ps
    else p ∷ rest

unfoldable pub close_open_proposal_on_bind : String → String → String → Exec Session (Unit {0})
unfolding settle_first
close_open_proposal_on_bind user entry_id bound = modify (λ s. record s {
  db = record s.db { proposals = settle_first user entry_id bound s.proposals };
})
