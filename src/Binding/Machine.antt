-- ===== src/Binding/Machine.antt =====
-- `reconcile_machine` of binding_v2.py: the derived view of one machine's setup.
pub mod View
pub mod Taken
pub mod Notes
use loobric_server.Base.{
  ℕ, String, Bool, true, false, not, ◌&&◌, ◌||◌, Option, none, some, List, [], ◌∷◌, map, filter,
  find?, any, str_eq, length, is_none, nat_eq, opt_is, if◌then◌else◌,
}
use loobric_server.Base.Int.{ℤ}
use loobric_server.Base.Dict.{Dict, lookup, string_eq}
use loobric_server.Base.Index.{index_last}
use loobric_server.Contract.{Field, leaf_value}
use loobric_server.Store.{Db}
use loobric_server.Store.Rows.{EntryRow, InstanceRow, SetRow, MapRow}
use loobric_server.Binding.Reconcile.{
  State, satisfied, mismounted, blocked, requested, pending_bind, MemberState, Ambiguity,
  ReconcileResult, reconcile_set_membership, entries_on, entry_by_id, entry_number, claims_entry,
}
use loobric_server.Binding.Bridge.{active_map_for_machine, owned_set}

pub record ClaimView : Type 0 where
  pub tool_record_id : String
  pub name : Option String
  pub number : Field ℤ
  pub observed : Option (Field ℤ)
  pub state : Option State
  pub entry_id : Option String
  -- The tool in the way and its name, for a blocked claim.
  pub blocked_by : Option (Option String × Option String)

pub data NoteState : Type 0 where
  unlisted unidentified : NoteState

pub record NoteView : Type 0 where
  pub entry_id : String
  pub number : Field ℤ
  pub state : NoteState
  pub tool_record_id : Option String
  pub name : Option String
  pub description : Option String

pub record MachineView : Type 0 where
  pub machine_id : String
  pub is_mapped : Bool
  pub setup_id : Option String
  pub tool_set_id : Option String
  pub tool_set_name : Option String
  pub ready : Option Bool
  pub claims : List ClaimView
  pub notes : List NoteView
  pub ambiguities : List Ambiguity
  pub important : ℕ
  pub note_count : ℕ

-- The ids whose names the view shows.
abbrev is_wanted : List MemberState → List EntryRow → String → Bool
is_wanted members entries id =
    any (λ ms. str_eq ms.tool_record_id id) members
    || any (λ e. opt_is e.bound_instance_id id) entries

unfoldable pub names_of : Db → List MemberState → List EntryRow → Dict String (Option String)
unfolding index_last
names_of db members entries =
    index_last (λ i. some i.id) (λ i. i.canonical.name.value)
      (filter (λ i. is_wanted members entries i.id) db.instances) []

-- `names.get(id)`
abbrev name_of : Dict String (Option String) → Option String → Option String
name_of names none = none
name_of names (some id) = elim (lookup id names) [ none ↦ none | some n ↦ n ]

-- `ms.state == BLOCKED and ms.entry_id in entry_by_id`
abbrev blocker : Dict String EntryRow → MemberState → Option EntryRow
blocker by_id ms = elim ms.state [
  | some blocked ↦ elim ms.entry_id [ none ↦ none | some eid ↦ lookup eid by_id ]
  | _ ↦ none
]

unfoldable pub claim_view :
    Dict String (Option String) → Dict String EntryRow → MemberState → ClaimView
claim_view names by_id ms = record {
  tool_record_id = ms.tool_record_id;
  name = name_of names (some ms.tool_record_id);
  number = ms.number;
  observed = ms.observed;
  state = ms.state;
  entry_id = ms.entry_id;
  blocked_by = elim (blocker by_id ms) [
    | none ↦ none
    | some e ↦ some (e.bound_instance_id, name_of names e.bound_instance_id)
  ];
}

-- `ms.entry_id` as a condition.
abbrev has_entry : Option String → Bool
has_entry none = false
has_entry (some id) = not (str_eq id "")

-- Whether the member puts the entry into `consumed`: it is satisfied, mismounted or pending there.
unfoldable pub consumes : String → MemberState → Bool
consumes id ms = claims_entry ms.state && has_entry ms.entry_id && opt_is ms.entry_id id

-- `entry_id in consumed`
unfoldable pub consumed : List MemberState → String → Bool
unfolding consumes
consumed members id = any (consumes id) members

unfoldable pub note_view : Dict String (Option String) → EntryRow → NoteView
note_view names e = record {
  entry_id = e.id;
  number = entry_number e;
  state = if is_none e.bound_instance_id then unidentified else unlisted;
  tool_record_id = e.bound_instance_id;
  name = name_of names e.bound_instance_id;
  description = leaf_value e.canonical.description;
}

abbrev is_satisfied : Option State → Bool
is_satisfied (some satisfied) = true
is_satisfied _ = false

abbrev members_for : Db → String → Option SetRow → ReconcileResult
members_for db machine none = record { members = []; ambiguities = []; machine_bound = true }
members_for db machine (some set_row) = reconcile_set_membership db set_row (some machine)

unfoldable pub mapped_view : Db → String → String → MapRow → MachineView
mapped_view db user machine map_row =
    let set_row = owned_set db user map_row.tool_set_id in
    let result = members_for db machine set_row in
    let entries = entries_on db user machine in
    let names = names_of db result.members entries in
    let claims = map (claim_view names (entry_by_id entries)) result.members in
    let notes =
      map (note_view names)
        (filter (λ (e : EntryRow). not (consumed result.members e.id)) entries) in
    let important = length (filter (λ (c : ClaimView). not (is_satisfied c.state)) claims) in
    record {
      machine_id = machine;
      is_mapped = true;
      setup_id = some map_row.id;
      tool_set_id = some map_row.tool_set_id;
      tool_set_name = elim set_row [ none ↦ none | some r ↦ r.canonical.name.value ];
      ready = some (nat_eq important 0);
      claims = claims;
      notes = notes;
      ambiguities = result.ambiguities;
      important = important;
      note_count = length notes;
    }

abbrev unmapped_view : String → MachineView
unmapped_view machine = record {
  machine_id = machine;
  is_mapped = false;
  setup_id = none;
  tool_set_id = none;
  tool_set_name = none;
  ready = none;
  claims = [];
  notes = [];
  ambiguities = [];
  important = 0;
  note_count = 0;
}

unfoldable pub reconcile_machine : Db → String → String → MachineView
reconcile_machine db user machine = elim (active_map_for_machine db user machine) [
  | none ↦ unmapped_view machine
  | some m ↦ mapped_view db user machine m
]
