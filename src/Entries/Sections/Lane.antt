-- ===== src/Entries/Sections/Lane.antt =====
-- The properties of `write_client_section`.
use loobric_server.Base.{
  ◌≡◌, refl, ◌≢◌, ◌⊎◌, inl, inr, ◌∙◌, String, true, ◌&&◌, ◌||◌, Option, none, some, List, In, any,
  any-In, update_where, arith, str_eq, str_eq_iff, if◌then◌else◌,
}
use loobric_server.Base.Tables.{find?-update_where}
use loobric_server.Base.Dict.{lookup, string_eq, lookup-insert}
use loobric_server.Base.Exec.{ok, err, bad_request, ◌>>=◌}
use loobric_server.Store.{Session, constraints_hold}
use loobric_server.Store.Frame.{IsSound, audit_ok, commit_ok, audited, committed}
use loobric_server.Store.Unique.{unique_on-update_where, constraints_iff}
use loobric_server.Store.Rows.{EntryRow}
use loobric_server.Entries.{owned}
use loobric_server.Entries.Vacate.{owned-row}
use loobric_server.Entries.Sections.{
  ClientWrite, reject_out_of_lane, section_of, sectioned_row, write_client_section,
}

module _ {Payload : Type 0} (keys : Payload → List String)
    (model_validate : Payload → Option ClientWrite) where
  -- A body with an `internal` or a `canonical` key is refused, whatever the validation says of it: the
  -- handler raises a 400 for an entry that exists, and nothing changes.
  pub write_client_section-refused :
      (user record_id client : String) (payload : Payload) (s : Session) (row : EntryRow)
      → owned s.db user record_id ≡ some row
      → In "internal" (keys payload) ⊎ In "canonical" (keys payload)
      → write_client_section keys model_validate user record_id client payload s
        ≡ (err bad_request, s)
  unfolding write_client_section reject_out_of_lane ◌>>=◌
  write_client_section-refused user record_id client payload s row found i =
      let blocked : (any (str_eq "internal") (keys payload)
            || any (str_eq "canonical") (keys payload))
          ≡ true =
        elim i [
          | inl j ↦
              let t = any-In (str_eq "internal") "internal" (keys payload) j refl in ground arith
          | inr j ↦
              let t = any-In (str_eq "canonical") "canonical" (keys payload) j refl in ground arith
        ] in
      rw (found, blocked) refl

  -- A named user's accepted write to an entry of theirs, over a sound session, returns: afterwards the
  -- entry is found with its canonical document and its binding as they were, every other client's
  -- section as it was, and this client's section with the version, the item id and the data that were
  -- sent, written now and first written when it was before; the indexes hold.
  pub write_client_section-lane :
      (user record_id client : String) (payload : Payload) (write : ClientWrite) (s : Session)
      (row : EntryRow)
      → user ≢ ""
      → record_id ≢ ""
      → IsSound s
      → owned s.db user record_id ≡ some row
      → reject_out_of_lane keys model_validate payload ≡ some write
      → (s' : Session) × (row' : EntryRow) × (write_client_section keys model_validate user
            record_id client payload s
          ≡ (ok record_id, s'))
        × (owned s'.db user record_id ≡ some row')
        × (row'.canonical ≡ row.canonical)
        × (row'.bound_instance_id ≡ row.bound_instance_id)
        × ((other : String)
            → lookup other row'.clients ≡ (
                if str_eq client other
                then some (record {
                  client_version = write.client_version;
                  client_item_id = write.client_item_id;
                  created_at = elim (lookup client row.clients) [
                    | none ↦ s.now
                    | some before ↦ before.created_at
                  ];
                  updated_at = s.now;
                  data_text = write.data_text;
                })
                else lookup other row.clients))
        × (constraints_hold s'.db ≡ true)
  unfolding write_client_section owned ◌>>=◌ constraints_hold sectioned_row section_of
  write_client_section-lane user record_id client payload write s row named ne h found accepted =
      let (i, same) = owned-row s.db user record_id row found in
      let hit = λ (x : EntryRow). str_eq x.id record_id in
      let f = sectioned_row user client write s.now in
      let u : Session = record s {
        db = record s.db { entries = update_where hit f s.db.entries };
      } in
      let parts = (constraints_iff s.db).0 h.holds in
      let holds : constraints_hold u.db ≡ true = (constraints_iff u.db).1 (
        parts.0,
        unique_on-update_where (λ (x : EntryRow). x.bound_instance_id) hit f (λ x. refl)
              s.db.entries
            ∙ parts.1,
      ) in
      let v = audited user "SYNC" "tool_table_entry_record" record_id u in
      (
        committed v,
        f row,
        rw (found, accepted, same)
            (rw
              (audit_ok user "SYNC" "tool_table_entry_record" record_id u named (λ e. cc e)
                (λ e. cc e) ne holds)
              (rw (commit_ok v holds) refl)),
        find?-update_where (λ r. str_eq r.id record_id && str_eq r.user_id user) hit f s.db.entries
              (λ r j. ground arith)
            ∙ rw (found, (str_eq_iff row.id record_id).1 same) refl,
        refl,
        refl,
        λ other.
            lookup-insert client other (section_of s.now write (lookup client row.clients))
              row.clients,
        holds,
      )
