-- ===== src/Binding/Machine/View.antt =====
-- The properties of `reconcile_machine`: its readiness.
use loobric_server.Base.{
  ◌≡◌, refl, ◌≢◌, ◌↔◌, inl, inr, ap, String, true, not, Option, none, some, List, [], ◌∷◌, map, All,
  Each-All, filter, length, nat_eq_iff, arith, Bool-cases, some_inj,
}
use loobric_server.Base.Dict.{Dict, string_eq}
use loobric_server.Contract.{SetMember}
use loobric_server.Store.{Db, constraints_hold}
use loobric_server.Store.Rows.{EntryRow, SetRow, MapRow}
use loobric_server.Binding.Reconcile.{
  State, satisfied, MemberState, reconcile_set_membership, entries_on, entry_by_id,
}
use loobric_server.Binding.Reconcile.Explained.{Stands}
use loobric_server.Binding.Reconcile.Spec.{reconcile-Stands}
use loobric_server.Binding.Bridge.{active_map_for_machine, owned_set}
use loobric_server.Binding.Machine.{
  ClaimView, claim_view, note_view, consumed, is_satisfied, mapped_view, names_of,
  reconcile_machine,
}

is_satisfied_iff : (s : Option State) → (is_satisfied s ≡ true) ↔ (s ≡ some satisfied)
is_satisfied_iff none = (λ h. ground arith, λ h. ground arith)
is_satisfied_iff (some satisfied) = (λ h. refl, λ h. refl)
is_satisfied_iff (some t) = (λ h. ground arith, λ h. ground arith)

-- No claim is counted as important exactly when every member is satisfied.
important_zero :
    (names : Dict String (Option String)) (by_id : Dict String EntryRow)
    (members : List MemberState)
    → (length (
          filter
            (λ (c : ClaimView). not (is_satisfied c.state))
            (map (claim_view names by_id) members))
        ≡ 0)
      ↔ All (λ (ms : MemberState). ms.state ≡ some satisfied) members
unfolding claim_view
important_zero names by_id [] = (λ h. tt, λ h. refl)
important_zero names by_id (ms ∷ rest) =
    let (to, from) = important_zero names by_id rest in
    let (sat, unsat) = is_satisfied_iff ms.state in
    elim (Bool-cases (is_satisfied ms.state)) [
      | inl e ↦ rw e (λ h. (sat e, to h), λ h. from h.1)
      | inr e ↦ rw e (λ h. absurd (omega arith), λ h. absurd (ground (arith, unsat h.0)))
    ]

module _ (db : Db) (user machine : String) (map_row : MapRow) (set_row : SetRow) where
  -- The set is the machine's active setup, and the user's own.
  abbrev pub Mapped : Type 0
  Mapped =
      (active_map_for_machine db user machine ≡ some map_row)
      × (owned_set db user map_row.tool_set_id ≡ some set_row)

  abbrev pub members : List MemberState
  members = (reconcile_set_membership db set_row (some machine)).members

  abbrev es : List EntryRow
  es = entries_on db user machine

  ready_members :
      Mapped
      → ((reconcile_machine db user machine).ready ≡ some true)
        ↔ All (λ (ms : MemberState). ms.state ≡ some satisfied) members
  unfolding reconcile_machine mapped_view
  ready_members (mapped, owned) =
      rw (mapped, reconcile_machine)
        (rw (owned, mapped_view)
          (let (to, from) = important_zero (names_of db members es) (entry_by_id es) members in
            (
              λ h. to ((nat_eq_iff _ 0).0 (some_inj h)),
              λ h. ap some ((nat_eq_iff _ 0).1 (from h)),
            )))

  pub notes_eq :
      Mapped
      → (reconcile_machine db user machine).notes
        ≡ map
            (note_view (names_of db members (entries_on db user machine)))
            (filter (λ (e : EntryRow). not (consumed members e.id)) (entries_on db user machine))
  unfolding reconcile_machine mapped_view
  notes_eq (mapped, owned) = rw (mapped, reconcile_machine) (rw (owned, mapped_view) refl)

-- With the set active on the machine, and the UNIQUE indexes holding: the view says ready exactly
-- when the rules call every member of the set satisfied.
pub ready-satisfied :
    (db : Db) (user machine : String) (map_row : MapRow) (set_row : SetRow)
    → machine ≢ ""
    → constraints_hold db ≡ true
    → active_map_for_machine db user machine ≡ some map_row
    → owned_set db user map_row.tool_set_id ≡ some set_row
    → ((reconcile_machine db user machine).ready ≡ some true)
      ↔ All
          (λ (m : SetMember). Stands db (entries_on db set_row.user_id machine) m satisfied)
          set_row.canonical.members
ready-satisfied db user machine map_row set_row named holds mapped owned =
    let (to, from) = ready_members db user machine map_row set_row (mapped, owned) in
    let (on, back) =
      Each-All _ (λ m. Stands db (entries_on db set_row.user_id machine) m satisfied)
        (λ (ms : MemberState). ms.state ≡ some satisfied) (λ m ms r. r.2 satisfied)
        set_row.canonical.members (members db user machine map_row set_row)
        (reconcile-Stands db set_row machine named holds) in
    (λ r. back (to r), λ a. from (on a))
