-- ===== src/Batch/Settled.antt =====
-- An item of a batch that is synced twice.
use loobric_server.Base.{
  ◌≡◌, ◌≢◌, refl, sym, ap, ◌∙◌, subst, String, true, ◌||◌, some, [], All, inl, inr, Bool-cases,
  if◌then◌else◌,
}
use loobric_server.Base.Dict.{lookup, string_eq}
use loobric_server.Base.Exec.{ok, pure, gets, modify, ◌>>=◌}
use loobric_server.Store.Rows.{InstanceRow}
use loobric_server.Presets.{Texts}
use loobric_server.Presets.Door.{owned_instance}
use loobric_server.Instances.{AssertEntry, update_instance, touched}
use loobric_server.Instances.Asserts.{IsTaken}
use loobric_server.Batch.Asserted.{IsApart, Stand}
use loobric_server.Batch.{
  BatchItem, BatchRequest, Work, updated, unchanged, lift, non_empty, target_of, blank_result,
}
use loobric_server.Batch.Item.{upsert, sync_item, positive}
use loobric_server.Batch.Idle.{
  IsWritten, IsHeld, owned-found, updated-IsHeld, preflight_ok, no_presets, sync_item_idle,
}
use loobric_server.Batch.Sectioned.{write_section-IsSectioned, apply_asserts-IsAsserted}

module _ (py : Texts) (user : String) (named : user ≢ "") (req : BatchRequest) (actor : String)
    (item : BatchItem) (taken : All (λ (e : AssertEntry). IsTaken e.what) item.asserts)
    (bare : item.presets ≡ []) where
  -- After an item: its row, with the section and every assert of the item.
  record IsSynced (id : String) (w : Work) : Type 0 where
    after : Work
    held_row : InstanceRow
    run :
        sync_item py user req actor true item (record w { out = blank_result item })
        ≡ (ok tt, after)
    held : IsHeld user id held_row after.session
    section : IsWritten req item held_row
    stands : Stand held_row.canonical actor item.asserts

  sync_item-IsSynced :
      (row : InstanceRow) (w : Work)
      → row.id ≢ ""
      → non_empty item.id ≡ some row.id
      → IsApart item.asserts
      → IsHeld user row.id row w.session
      → IsSynced row.id w
  unfolding sync_item target_of upsert lift pure gets modify owned_instance ◌>>=◌
  sync_item-IsSynced row w filled target apart h =
      let start : Work = record w { out = blank_result item } in
      let own = owned-found w.session.db.instances user row.id row h.found h.mine in
      let sec =
        write_section-IsSectioned py user named req actor item taken bare row filled w.session h in
      let w1 : Work = record w {
        session = sec.after;
        out = record (blank_result item) { result = if sec.changed then updated else unchanged };
      } in
      let row1 = sec.held_row in
      let h1 = subst (λ x. IsHeld user x row1 sec.after) (sym sec.held.same_id) sec.held in
      let done =
        apply_asserts-IsAsserted py user named req actor item taken bare row1 item.asserts w1
          (λ e. filled (sym sec.held.same_id ∙ e)) taken apart h1 in
      let h2 =
        subst (λ x. IsHeld user x done.held_row done.after.session) sec.held.same_id done.held in
      let there : IsWritten req item done.held_row = record {
        section = sec.section.section;
        there = ap (lookup req.client) done.sections ∙ sec.section.there;
        text = sec.section.text;
        release = sec.section.release;
        item_id = sec.section.item_id;
      } in
      let after_touch : Work = record done.after {
        session = (update_instance row.id (touched user) done.after.session).1;
      } in
      elim (Bool-cases (sec.changed || positive done.applied)) [
        | inl t ↦ record {
          after = record done.after {
            session = (update_instance row.id (touched user) done.after.session).1;
            out = record done.after.out { id = some row.id };
          };
          held_row = touched user done.held_row;
          run =
              rw
                (
                  target,
                  own,
                  preflight_ok item.asserts start taken,
                  sec.run,
                  sec.held.found,
                  done.run,
                  t,
                  no_presets py user named req actor item taken bare row.id after_touch,
                )
                refl;
          held =
              updated-IsHeld user row.id done.held_row done.after.session (touched user)
                (λ x. (refl, refl)) h2;
          section = record {
            section = there.section;
            there = there.there;
            text = there.text;
            release = there.release;
            item_id = there.item_id;
          };
          stands = done.stands;
        }
        | inr f ↦ record {
          after = record done.after { out = record done.after.out { id = some row.id } };
          held_row = done.held_row;
          run =
              rw
                (
                  target,
                  own,
                  preflight_ok item.asserts start taken,
                  sec.run,
                  sec.held.found,
                  done.run,
                  f,
                  no_presets py user named req actor item taken bare row.id done.after,
                )
                refl;
          held = h2;
          section = there;
          stands = done.stands;
        }
      ]

-- Syncing is idempotent: for a named user whose key may assert, an item without presets that names a
-- row of the user, whose asserts the door takes and no two of which write one leaf, is taken; and the
-- same item again is `unchanged`, applies nothing and leaves the database as it is.
pub sync_item-twice :
    (py : Texts) (user : String) (req : BatchRequest) (actor : String) (item : BatchItem)
    (row : InstanceRow) (w : Work)
    → user ≢ ""
    → row.id ≢ ""
    → All (λ (e : AssertEntry). IsTaken e.what) item.asserts
    → IsApart item.asserts
    → item.presets ≡ []
    → non_empty item.id ≡ some row.id
    → IsHeld user row.id row w.session
    → (w' : Work) × (sync_item py user req actor true item (record w { out = blank_result item })
        ≡ (ok tt, w'))
      × (sync_item py user req actor true item (record w' { out = blank_result item }) ≡ (
        ok tt,
        record w' { out = record (blank_result item) { id = some row.id; result = unchanged } },
      ))
sync_item-twice py user req actor item row w named filled taken apart bare target h =
    let one =
      sync_item-IsSynced py user named req actor item taken bare row w filled target apart h in
    (
      one.after,
      one.run,
      sync_item_idle py user named req actor item taken bare row.id filled target one.held_row
          one.after one.held one.section one.stands,
    )
