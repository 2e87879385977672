-- ===== src/Binding/Bridge.antt =====
-- The request-aware bridge of binding_v2.py: an unbound entry at a number that the machine's active
-- set claims gets a proposal of elevated confidence. `active_map_for_machine` stands here too.
pub mod Frame
use loobric_server.Base.{
  ℕ, suc, String, Bool, true, false, not, ◌&&◌, ◌||◌, Option, none, some, List, [], ◌∷◌, map,
  filter, find?, any, str_eq, is_none, if◌then◌else◌,
}
use loobric_server.Base.Int.{ℤ}
use loobric_server.Base.Dict.{Dict, lookup, integer_eq}
use loobric_server.Base.Index.{index_first}
use loobric_server.Base.Exec.{Exec, pure, gets, ◌>>=◌}
use loobric_server.Contract.{Field, unknown}
use loobric_server.Contract.Provenance.{kind}
use loobric_server.Store.{Db, Session}
use loobric_server.Store.Rows.{
  EntryRow, SetRow, MapRow, MapStatus, active, ended, ProposalRow, Reason, requested_via,
  requested_via_set,
}
use loobric_server.Binding.Proposals.{
  open_proposal, rejected_instances, add_proposal, propose_for_entry,
}
use loobric_server.Binding.Reconcile.{
  State, requested, pending_bind, MemberState, reconcile_set_membership, entries_on,
}

abbrev pub requested_confidence : ℕ
requested_confidence = 950

unfoldable pub is_active : MapRow → Bool
is_active m = elim m.status [ active ↦ true | ended ↦ false ]

unfoldable pub is_setup_of : String → String → MapRow → Bool
unfolding is_active
is_setup_of user machine m = str_eq m.user_id user && str_eq m.machine_id machine && is_active m

unfoldable pub active_map_for_machine : Db → String → String → Option MapRow
unfolding is_setup_of
active_map_for_machine db user machine = find? (is_setup_of user machine) db.maps

-- `active_maps_for_set`, without its order.
unfoldable pub active_maps_for_set : Db → String → String → List MapRow
unfolding is_active
active_maps_for_set db user set_id =
    filter (λ m. str_eq m.user_id user && str_eq m.tool_set_id set_id && is_active m) db.maps

unfoldable pub owned_set : Db → String → String → Option SetRow
owned_set db user set_id = find? (λ r. str_eq r.id set_id && str_eq r.user_id user) db.sets

-- The instance that a member asks for, and the name of its set.
abbrev pub Request : Type 0
Request = String × Option String

-- `ms.state in (REQUESTED, PENDING_BIND)`
abbrev pub is_awaited : Option State → Bool
is_awaited (some requested) = true
is_awaited (some pending_bind) = true
is_awaited _ = false

-- The number under which the loop indexes a member, if it does.
unfoldable pub asserted_number : MemberState → Option ℤ
unfolding kind
asserted_number ms =
    if not (is_awaited ms.state)
    then none
    else if is_none ms.number.value
    then none
    else if str_eq (kind (if str_eq ms.number.source "" then unknown else ms.number.source))
        "asserted"
    then ms.number.value
    else none

unfoldable pub requests_of : Db → SetRow → String → Dict ℤ Request
requests_of db set_row machine =
    index_first asserted_number (λ ms. (ms.tool_record_id, set_row.canonical.name.value))
      (reconcile_set_membership db set_row (some machine)).members []

abbrev requests_for : Db → String → Option SetRow → Dict ℤ Request
requests_for db machine none = []
requests_for db machine (some set_row) = requests_of db set_row machine

unfoldable pub requested_members_by_number : Db → String → String → Dict ℤ Request
requested_members_by_number db user machine = elim (active_map_for_machine db user machine) [
  | none ↦ []
  | some m ↦ requests_for db machine (owned_set db user m.tool_set_id)
]

-- `"requested via set %s" % name if name else "requested via set"`
abbrev pub request_reason : Option String → Reason
request_reason none = requested_via_set
request_reason (some name) = if str_eq name "" then requested_via_set else requested_via name

-- `requested.get(tn) if tn is not None else None`
abbrev pub request_at : Dict ℤ Request → Option ℤ → Option Request
request_at requests none = none
request_at requests (some n) = lookup n requests

unfoldable pub propose_match :
    String → EntryRow → Option Request → Exec Session (Option ProposalRow)
propose_match user entry none = propose_for_entry user entry
propose_match user entry (some (instance_id, set_name)) = do
  db ← gets (λ s. s.db)
  if any (str_eq instance_id) (rejected_instances db entry.id)
      then propose_for_entry user entry
      else add_proposal user entry.id instance_id requested_confidence (request_reason set_name)

unfoldable pub propose_for_requested_entry :
    String → EntryRow → Dict ℤ Request → Exec Session (Option ProposalRow)
propose_for_requested_entry user entry requests =
    if not (is_none entry.bound_instance_id) then pure none else (do
      db ← gets (λ s. s.db)
      if not (is_none (open_proposal db entry.id))
          then pure none
          else propose_match user entry (request_at requests entry.canonical.tool_number.value))

-- The loop of `bridge_requested_claims`, with the number of proposals opened so far.
unfoldable pub bridge_from : String → Dict ℤ Request → List EntryRow → ℕ → Exec Session ℕ
bridge_from user requests [] opened = pure opened
bridge_from user requests (entry ∷ rest) opened =
    let skip = bridge_from user requests rest opened in
    if is_none (request_at requests entry.canonical.tool_number.value) then skip else (do
      p ← propose_for_requested_entry user entry requests
      bridge_from user requests rest (if is_none p then opened else suc opened))

abbrev is_empty : {K V : Type 0} → Dict K V → Bool
is_empty [] = true
is_empty (_ ∷ _) = false

unfoldable pub bridge_requested_claims : String → String → Exec Session ℕ
bridge_requested_claims user machine = do
  db ← gets (λ s. s.db)
  let requests = requested_members_by_number db user machine
  if is_empty requests
      then pure 0
      else bridge_from user requests
          (filter (λ e. is_none e.bound_instance_id) (entries_on db user machine)) 0
