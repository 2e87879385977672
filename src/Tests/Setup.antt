-- ===== src/Tests/Setup.antt =====
-- `use-set` on the mill.
use loobric_server.Base.{ℕ, ◌≡◌, [], ◌∷◌, refl, ◌≢◌, true, none, some, In, inl, All-In}
use loobric_server.Base.Exec.{ok, err, integrity_error}
use loobric_server.Store.Frame.{IsSound}
use loobric_server.Store.{Session, active_machine, constraints_hold}
use loobric_server.Store.Rows.{MapRow}
use loobric_server.Binding.Bridge.{active_map_for_machine, owned_set, bridge_requested_claims}
use loobric_server.Binding.Bridge.Frame.{IsBridged, bridge_requested_claims-IsBridged}
use loobric_server.Base.Exec.{◌>>=◌, gets, modify, pure, raise}
use loobric_server.Binding.Bridge.{
  requested_members_by_number, requests_of, asserted_number, bridge_from,
  propose_for_requested_entry, propose_match, is_active, is_setup_of,
}
use loobric_server.Base.Index.{index_first, index_last}
use loobric_server.Binding.Reconcile.{
  reconcile_set_membership, reconcile_on, bound_by_instance, by_number, classify, entries_on,
  entry_by_id, proposed_entry, tables,
}
use loobric_server.Binding.Proposals.{open_proposal, rejected_instances, add_proposal, has_status}
use loobric_server.Store.{draw, flush, commit, unique_on}
use loobric_server.Contract.Provenance.{kind}
use loobric_server.Store.Audit.{create_audit_log}
use loobric_server.Setups.{activate}
use loobric_server.Setups.Effect.{Untouched}
use loobric_server.Setups.Activate.{activate-active}
use loobric_server.Setups.Atomicity.{activate-foreign}
use loobric_server.Tests.{
  shop_with, session_on, set_row, set_member, seen, shop, shop-IsSound, shared, shared_holds, setup,
  apart,
}

abbrev standing : MapRow
standing = setup "p1" "ann"

has_second : owned_set shop.db "ann" "s2" ≢ none
unfolding owned_set
has_second e = cc e

keyed : (m : MapRow) → In m shop.db.maps → m.id ≢ ""
keyed = All-In (λ (m : MapRow). m.id ≢ "") shop.db.maps ((λ e. cc e), tt)

mine : (m : MapRow) → In m shop.db.maps → active_machine m ≡ some "m1" → m.user_id ≡ "ann"
mine =
    All-In (λ (m : MapRow). active_machine m ≡ some "m1" → m.user_id ≡ "ann") shop.db.maps
      ((λ e. refl), tt)

activate-active_example :
    (s' : Session) × (row : MapRow) × (activate "ann" "m1" "s2" shop ≡ (ok row.id, s'))
    × (active_map_for_machine s'.db "ann" "m1" ≡ some row)
    × (row.tool_set_id ≡ "s2")
    × Untouched shop s'
    × (constraints_hold s'.db ≡ true)
activate-active_example =
    activate-active "ann" "m1" "s2" shop (λ e. cc e) shop-IsSound has_second keyed mine

has_second_shared : owned_set shared.db "ann" "s2" ≢ none
unfolding owned_set
has_second_shared e = cc e

on_mill : active_machine (setup "p1" "bob") ≡ some "m1"
unfolding active_machine
on_mill = refl

activate-foreign_example :
    ((activate "ann" "m1" "s2" shared).0 ≡ err integrity_error)
    × ((activate "ann" "m1" "s2" shared).1.committed ≡ shared.committed)
activate-foreign_example =
    activate-foreign "ann" "m1" "s2" shared (setup "p1" "bob") shared_holds has_second_shared
      (inl refl) on_mill (apart "bob" "ann" refl)

-- The mill with a set that claims pocket 2, by a person's word, for the tool `i2`.
abbrev claiming : Session
claiming = session_on (record (shop_with "ann") {
  sets =
      set_row "s1" (
        set_member "i1" 1
        ∷ record {
          tool_record_id = "i2";
          number = some (record (seen 2) { source = "asserted:ann" });
        }
        ∷ [])
      ∷ [];
})

claiming-IsSound : IsSound claiming
unfolding constraints_hold
claiming-IsSound = record { holds = refl; ids = shop-IsSound.ids }

bridge_requested_claims-IsBridged_example :
    (n : ℕ) × (s' : Session) × (bridge_requested_claims "ann" "m1" claiming ≡ (ok n, s'))
    × IsBridged "ann" claiming s'
bridge_requested_claims-IsBridged_example =
    bridge_requested_claims-IsBridged "ann" (λ e. cc e) claiming "m1" claiming-IsSound

-- There the bridge opens one proposal.
one_opened : (bridge_requested_claims "ann" "m1" claiming).0 ≡ ok 1
unfolding bridge_requested_claims ◌>>=◌ requested_members_by_number active_map_for_machine owned_set
    requests_of index_first reconcile_set_membership reconcile_on asserted_number bridge_from
    propose_for_requested_entry open_proposal propose_match rejected_instances add_proposal draw
    flush gets modify pure raise index_last is_active is_setup_of has_status bound_by_instance
    by_number classify entries_on entry_by_id proposed_entry tables kind create_audit_log
    active_machine commit constraints_hold unique_on
one_opened = refl
