-- ===== src/Tests/Machine.antt =====
-- The mill and its set: the theorems on standing and on the machine's view.
use loobric_server.Base.{
  ◌≡◌, refl, ◌↔◌, ◌⊎◌, ◌≢◌, inl, inr, ap, ◌∷◌, str_eq, true, false, none, some, [], In, All, Each,
  any, ◌≤◌,
}
use loobric_server.Store.Rows.{EntryRow, InstanceRow, diameter_matches}
use loobric_server.Contract.{SetMember}
use loobric_server.Binding.Reconcile.{
  State, satisfied, MemberState, claim_of, entries_on, reconcile_set_membership,
}
use loobric_server.Binding.Reconcile.Explained.{Stands}
use loobric_server.Binding.Reconcile.Spec.{reconcile-Stands}
use loobric_server.Binding.Bridge.{active_map_for_machine, owned_set}
use loobric_server.Binding.Machine.{NoteView, reconcile_machine}
use loobric_server.Binding.Machine.View.{ready-satisfied}
use loobric_server.Binding.Machine.Notes.{IsMembers, notes_complete}
use loobric_server.Binding.Proposals.{
  rejected_instances, best_candidate, best_from, consider, score,
}
use loobric_server.Binding.Proposals.Best.{Fits, best_candidate-best}
use loobric_server.Base.Int.{pos}
use loobric_server.Tests.{pocket1, shop, shop_holds, first_set, setup, pocket2, instance_row}

reconcile-Stands_example :
    Each
      (λ (m : SetMember) (ms : MemberState).
        (ms.tool_record_id ≡ m.tool_record_id)
        × (ms.number ≡ claim_of m)
        × ((s : State) → Stands shop.db (entries_on shop.db "ann" "m1") m s ↔ (ms.state ≡ some s)))
      first_set.canonical.members
      (reconcile_set_membership shop.db first_set (some "m1")).members
reconcile-Stands_example = reconcile-Stands shop.db first_set "m1" (λ e. cc e) shop_holds

ready-satisfied_example :
    ((reconcile_machine shop.db "ann" "m1").ready ≡ some true)
    ↔ All
        (λ (m : SetMember). Stands shop.db (entries_on shop.db "ann" "m1") m satisfied)
        first_set.canonical.members
unfolding active_map_for_machine owned_set
ready-satisfied_example =
    ready-satisfied shop.db "ann" "m1" (setup "p1" "ann") first_set (λ e. cc e) shop_holds refl refl

table_filled : (e : EntryRow) → In e (pocket1 ∷ pocket2 ∷ []) → e.id ≢ ""
table_filled e (inl q) h = let b = ap (λ (r : EntryRow). r.id) q in cc (b, h)
table_filled e (inr (inl q)) h = let b = ap (λ (r : EntryRow). r.id) q in cc (b, h)
table_filled e (inr (inr q)) h = elim q [ ]

notes_complete_example :
    ((e : EntryRow)
      → In e (entries_on shop.db "ann" "m1")
      → ((n : NoteView) × In n (reconcile_machine shop.db "ann" "m1").notes
          × (n.entry_id ≡ e.id)
          × (n.tool_record_id ≡ e.bound_instance_id))
        ⊎ IsMembers shop.db first_set (entries_on shop.db "ann" "m1") e.id)
    × ((n : NoteView)
        → In n (reconcile_machine shop.db "ann" "m1").notes
        → ¬ IsMembers shop.db first_set (entries_on shop.db "ann" "m1") n.entry_id)
unfolding active_map_for_machine owned_set entries_on
notes_complete_example =
    notes_complete shop.db "ann" "m1" (setup "p1" "ann") first_set (λ e. cc e) shop_holds
      table_filled refl refl

-- An instance without a diameter.
abbrev stranger : InstanceRow
stranger = record (instance_row "i9" none) {
  canonical = record (instance_row "i9" none).canonical { geometry = [] };
}

best_candidate-best_example :
    In (instance_row "i1" none) shop.db.instances
    × ((instance_row "i1" none).user_id ≡ "ann")
    × Fits
        (rejected_instances shop.db "e2")
        pocket2
        550
        (diameter_matches (pos 6000000))
        (instance_row "i1" none)
    × ((j : InstanceRow)
        → In j shop.db.instances
        → j.user_id ≡ "ann"
        → any (str_eq j.id) (rejected_instances shop.db "e2") ≡ false
        → (score pocket2 j).0 ≤ 550)
unfolding best_candidate best_from consider rejected_instances score
best_candidate-best_example =
    best_candidate-best shop.db "ann" pocket2 550 (diameter_matches (pos 6000000))
      (instance_row "i1" none) refl
