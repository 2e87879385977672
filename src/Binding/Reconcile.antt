-- ===== src/Binding/Reconcile.antt =====
-- `reconcile_set_membership` of binding_v2.py: how each member of a tool set stands against the
-- table of the machine that the set is active on. It reads and changes nothing.
pub mod Lookups
pub mod Explained
pub mod Spec
use loobric_server.Base.{
  ℕ, ◌<◌, String, Bool, true, false, not, ◌&&◌, ◌||◌, Option, none, some, List, [], ◌∷◌, ◌++◌, map,
  filter, any, str_eq, ltb, length, is_none, if◌then◌else◌,
}
use loobric_server.Base.Int.{ℤ, int_eq}
use loobric_server.Base.Dict.{Dict, lookup, insert, string_eq, integer_eq}
use loobric_server.Base.Index.{index_last, index_first}
use loobric_server.Contract.{Field, SetMember, unknown_field}
use loobric_server.Store.{Db}
use loobric_server.Store.Rows.{EntryRow, SetRow, ProposalRow, is_open}
use loobric_server.Binding.Proposals.{has_status}

-- The states of a member, `SATISFIED` to `PENDING_BIND`.
pub data State : Type 0 where
  satisfied mismounted blocked requested pending_bind : State

-- `MemberState`; `state` is `none` for a set that is active on no machine.
pub record MemberState : Type 0 where
  pub tool_record_id : String
  pub state : Option State
  pub number : Field ℤ
  pub observed : Option (Field ℤ)
  pub entry_id : Option String

-- `{"kind": "multiple_members_one_entry", …}`
pub record Ambiguity : Type 0 where
  pub entry_id : String
  pub tool_record_ids : List String

pub record ReconcileResult : Type 0 where
  pub members : List MemberState
  pub ambiguities : List Ambiguity
  pub machine_bound : Bool

-- `_claim`
abbrev pub claim_of : SetMember → Field ℤ
claim_of m = elim m.number [ none ↦ unknown_field | some f ↦ f ]

-- `_entry_number`
abbrev pub entry_number : EntryRow → Field ℤ
entry_number e = e.canonical.tool_number

-- `claimed is None or claimed == observed`
abbrev pub agrees : Option ℤ → Option ℤ → Bool
agrees none seen = true
agrees (some c) none = false
agrees (some c) (some n) = int_eq c n

-- The machine's entries.
unfoldable pub entries_on : Db → String → String → List EntryRow
entries_on db user machine =
    filter (λ e. str_eq e.user_id user && str_eq e.machine_id machine) db.entries

unfoldable pub bound_by_instance : List EntryRow → Dict String EntryRow
unfolding index_last
bound_by_instance entries = index_last (λ e. e.bound_instance_id) (λ e. e) entries []

unfoldable pub by_number : List EntryRow → Dict ℤ EntryRow
unfolding index_first
by_number entries = index_first (λ e. e.canonical.tool_number.value) (λ e. e) entries []

unfoldable pub entry_by_id : List EntryRow → Dict String EntryRow
unfolding index_last
entry_by_id entries = index_last (λ e. some e.id) (λ e. e) entries []

-- The open proposals on these entries, under the instance that they name.
unfoldable pub proposed_entry : Db → List EntryRow → Dict String String
unfolding has_status index_first
proposed_entry db entries =
    index_first (λ p. some p.proposed_instance_id) (λ p. p.entry_id)
      (filter (λ p. has_status p.status is_open && any (λ e. str_eq e.id p.entry_id) entries)
        db.proposals)
      []

-- The dicts that the loop reads.
pub record Tables : Type 0 where
  pub by_id : Dict String EntryRow
  pub bound : Dict String EntryRow
  pub numbered : Dict ℤ EntryRow
  pub proposed : Dict String String

unfoldable pub tables : Db → List EntryRow → Tables
unfolding bound_by_instance by_number entry_by_id proposed_entry
tables db entries = record {
  by_id = entry_by_id entries;
  bound = bound_by_instance entries;
  numbered = by_number entries;
  proposed = proposed_entry db entries;
}

abbrev pub member_state : SetMember → State → Option (Field ℤ) → Option String → MemberState
member_state m s observed entry_id = record {
  tool_record_id = m.tool_record_id;
  state = some s;
  number = claim_of m;
  observed = observed;
  entry_id = entry_id;
}

-- The entry at the claimed number.
abbrev pub at_claimed : Tables → Option ℤ → Option EntryRow
at_claimed t none = none
at_claimed t (some n) = lookup n t.numbered

abbrev pub on_bound : SetMember → EntryRow → MemberState
on_bound m e =
    member_state m
      (if agrees (claim_of m).value (entry_number e).value then satisfied else mismounted)
      (some (entry_number e)) (some e.id)

abbrev pub on_proposed : Tables → SetMember → String → MemberState
on_proposed t m eid =
    member_state m pending_bind
      (elim (lookup eid t.by_id) [ none ↦ none | some e ↦ some (entry_number e) ]) (some eid)

abbrev pub on_claimed : SetMember → EntryRow → MemberState
on_claimed m e =
    member_state m (if is_none e.bound_instance_id then pending_bind else blocked)
      (some (entry_number e)) (some e.id)

-- One round of the loop over the members.
unfoldable pub classify : Tables → SetMember → MemberState
classify t m = elim (lookup m.tool_record_id t.bound) [
  | some e ↦ on_bound m e
  | none ↦ elim (lookup m.tool_record_id t.proposed) [
    | some eid ↦ on_proposed t m eid
    | none ↦ elim (at_claimed t (claim_of m).value) [
      | some e ↦ on_claimed m e
      | none ↦ member_state m requested none none
    ]
  ]
]

-- Whether the state is one for which the loop records a claim on the entry.
abbrev pub claims_entry : Option State → Bool
claims_entry (some satisfied) = true
claims_entry (some mismounted) = true
claims_entry (some pending_bind) = true
claims_entry _ = false

abbrev or_empty : Option (List String) → List String
or_empty none = []
or_empty (some l) = l

-- `entry_claims.setdefault(entry_id, []).append(iid)`
add_claim : MemberState → Dict String (List String) → Dict String (List String)
add_claim ms d = elim ms.entry_id [
  | none ↦ d
  | some eid ↦
      if claims_entry ms.state
      then insert eid (or_empty (lookup eid d) ++ ms.tool_record_id ∷ []) d
      else d
]

entry_claims : List MemberState → Dict String (List String) → Dict String (List String)
unfolding add_claim
entry_claims [] d = d
entry_claims (ms ∷ rest) d = entry_claims rest (add_claim ms d)

ambiguities_of : Dict String (List String) → List Ambiguity
ambiguities_of [] = []
ambiguities_of ((eid, claimants) ∷ d) =
    let rest = ambiguities_of d in
    if ltb 1 (length claimants)
    then record { entry_id = eid; tool_record_ids = claimants } ∷ rest
    else rest

-- Against a machine.
unfoldable pub reconcile_on : Db → SetRow → String → ReconcileResult
unfolding tables entries_on classify entry_claims ambiguities_of
reconcile_on db set_row machine =
    let t = tables db (entries_on db set_row.user_id machine) in
    let members = map (classify t) set_row.canonical.members in
    record {
      members = members;
      ambiguities = ambiguities_of (entry_claims members []);
      machine_bound = true;
    }

abbrev unmapped : SetMember → MemberState
unmapped m = record {
  tool_record_id = m.tool_record_id;
  state = none;
  number = claim_of m;
  observed = none;
  entry_id = none;
}

-- `if not machine_id` holds of no machine and of the empty name.
unfoldable pub reconcile_set_membership : Db → SetRow → Option String → ReconcileResult
reconcile_set_membership db set_row none = record {
  members = map unmapped set_row.canonical.members;
  ambiguities = [];
  machine_bound = false;
}
reconcile_set_membership db set_row (some machine) =
    if str_eq machine ""
    then record {
      members = map unmapped set_row.canonical.members;
      ambiguities = [];
      machine_bound = false;
    }
    else reconcile_on db set_row machine
