-- ===== src/Tests/Table.antt =====
-- Binding at the mill.
use loobric_server.Base.{
  String, List, str_eq, if◌then◌else◌, ◌≡◌, refl, Bool, true, none, some, [], ◌∷◌, inl,
}
use loobric_server.Base.Exec.{ok, err, integrity_error}
use loobric_server.Store.{Session, constraints_hold}
use loobric_server.Store.Rows.{EntryRow}
use loobric_server.Entries.{BindRequest, owned, bind_instance}
use loobric_server.Base.Dict.{lookup, string_eq}
use loobric_server.Entries.Sections.{ClientWrite, reject_out_of_lane, write_client_section}
use loobric_server.Entries.Sections.Lane.{write_client_section-lane}
use loobric_server.Entries.Backstop.{bind_instance-foreign}
use loobric_server.Tests.{shop, shop-IsSound, pocket1, entry_row, session_on, apart}

abbrev request : Bool → BindRequest
request move = record { instance_id = some "i1"; actor = "human@inbox"; move = move; name = none }

-- The user `bob` has a pocket of his own.
abbrev pocket3 : EntryRow
pocket3 = record (entry_row "e3" 3 none) { user_id = "bob"; updated_by = "bob" }

abbrev two_users : Session
two_users = session_on (record shop.db { entries = pocket1 ∷ pocket3 ∷ [] })

two_users_holds : constraints_hold two_users.db ≡ true
unfolding constraints_hold
two_users_holds = refl

bind_instance-foreign_example :
    ((bind_instance "bob" "e3" (request true) two_users).0 ≡ err integrity_error)
    × ((bind_instance "bob" "e3" (request true) two_users).1.committed ≡ two_users.committed)
unfolding owned
bind_instance-foreign_example =
    bind_instance-foreign "bob" "e3" "i1" (request true) two_users pocket3 pocket1 (λ e. cc e)
      (λ e. cc e) two_users_holds refl refl (inl refl) refl (apart "ann" "bob" refl)
      (apart "e1" "e3" refl)

-- A controller's note on pocket 1; a body is its list of keys, and each is taken.
abbrev note : ClientWrite
note = record { client_version = "2.9"; client_item_id = none; data_text = "{}" }

write_client_section-lane_example :
    (s' : Session) × (row' : EntryRow) × (write_client_section
        (λ (p : List String). p)
        (λ p. some note)
        "ann"
        "e1"
        "linuxcnc"
        ("data" ∷ [])
        shop
      ≡ (ok "e1", s'))
    × (owned s'.db "ann" "e1" ≡ some row')
    × (row'.canonical ≡ pocket1.canonical)
    × (row'.bound_instance_id ≡ pocket1.bound_instance_id)
    × ((other : String)
        → lookup other row'.clients ≡ (
            if str_eq "linuxcnc" other
            then some (record {
              client_version = note.client_version;
              client_item_id = note.client_item_id;
              created_at = elim (lookup "linuxcnc" pocket1.clients) [
                | none ↦ 7
                | some before ↦ before.created_at
              ];
              updated_at = 7;
              data_text = note.data_text;
            })
            else lookup other pocket1.clients))
    × (constraints_hold s'.db ≡ true)
unfolding owned reject_out_of_lane
write_client_section-lane_example =
    write_client_section-lane (λ p. p) (λ p. some note) "ann" "e1" "linuxcnc" ("data" ∷ []) note
      shop pocket1 (λ e. cc e) (λ e. cc e) shop-IsSound refl refl
