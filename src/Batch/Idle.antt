-- ===== src/Batch/Idle.antt =====
-- An item of a batch whose section and asserts its row already has.
use loobric_server.Base.{
  ◌≡◌, ◌≢◌, refl, sym, ap, ◌∙◌, subst, String, true, false, ◌&&◌, Option, none, some, List, [], ◌∷◌,
  All, inl, inr, find?, str_eq, str_eq_iff, opt_eq, some_inj, Bool-cases, arith, if◌then◌else◌,
}
use loobric_server.Base.Tables.{find?-update_where}
use loobric_server.Base.Dict.{lookup, string_eq}
use loobric_server.Base.Exec.{ok, pure, gets, modify, ◌>>=◌}
use loobric_server.Contract.{ClientSection}
use loobric_server.Store.{Session, constraints_hold}
use loobric_server.Store.Frame.{IsSound}
use loobric_server.Store.Rows.{InstanceRow}
use loobric_server.Presets.{Texts}
use loobric_server.Presets.Door.{owned_instance}
use loobric_server.Instances.{AssertEntry, update_instance}
use loobric_server.Instances.Asserts.{IsTaken}
use loobric_server.Batch.Asserted.{guards_pass-taken, Stand, assert_from_idle}
use loobric_server.Batch.{
  BatchItem, BatchRequest, Work, unchanged, lift, non_empty, row_by_id, target_of, preflight,
  write_section, refresh_section, blank_result,
}
use loobric_server.Batch.Item.{upsert, apply_asserts, contribute_presets, sync_item}

-- The section of the client is the item's.
pub record IsWritten (req : BatchRequest) (item : BatchItem) (row : InstanceRow) : Type 0 where
  pub section : ClientSection
  pub there : lookup req.client row.clients ≡ some section
  pub text : section.data_text ≡ item.data_text
  pub release : section.client_version ≡ req.client_version
  pub item_id : section.client_item_id ≡ item.client_item_id

-- The row is in the table, and the user's.
pub record IsHeld (user id : String) (row : InstanceRow) (s : Session) : Type 0 where
  pub found : row_by_id s.db id ≡ some row
  pub mine : row.user_id ≡ user
  pub same_id : row.id ≡ id
  pub sound : IsSound s

opt_eq_refl : (o : Option String) → opt_eq o o ≡ true
opt_eq_refl none = refl
opt_eq_refl (some t) = (str_eq_iff t t).1 refl

pub opt_eq-eq : (a b : Option String) → opt_eq a b ≡ true → a ≡ b
opt_eq-eq none none h = refl
opt_eq-eq none (some t) h = ground arith
opt_eq-eq (some t) none h = ground arith
opt_eq-eq (some t) (some u) h = ap some (sym ((str_eq_iff u t).0 h))

pub owned-found :
    (rows : List InstanceRow) (user id : String) (row : InstanceRow)
    → find? (λ r. str_eq r.id id) rows ≡ some row
    → row.user_id ≡ user
    → find? (λ r. str_eq r.id id && str_eq r.user_id user) rows ≡ some row
owned-found [] user id row h m = ground arith
owned-found (r ∷ rows) user id row h m = elim (Bool-cases (str_eq r.id id)) [
  | inl e ↦
      let h' : some r ≡ some row = rw e at h in
      let u =
        (str_eq_iff r.user_id user).1 (ap (λ (x : InstanceRow). x.user_id) (some_inj h') ∙ m) in
      rw (e, u) h'
  | inr e ↦
      let h' : find? (λ r. str_eq r.id id) rows ≡ some row = rw e at h in
      rw e (owned-found rows user id row h' m)
]

-- A write of the row, as a later query sees it.
pub updated-IsHeld :
    (user id : String) (row : InstanceRow) (s : Session) (f : InstanceRow → InstanceRow)
    → ((r : InstanceRow) → ((f r).id ≡ r.id) × ((f r).user_id ≡ r.user_id))
    → IsHeld user id row s
    → IsHeld user id (f row) (update_instance id f s).1
unfolding modify constraints_hold
updated-IsHeld user id row s f keep h = record {
  found =
      find?-update_where (λ r. str_eq r.id id) (λ r. str_eq r.id id) f s.db.instances
        (λ r i. same r)
      ∙ rw (h.found, (str_eq_iff row.id id).1 h.same_id) refl;
  mine = (keep row).1 ∙ h.mine;
  same_id = (keep row).0 ∙ h.same_id;
  sound = record { holds = h.sound.holds; ids = h.sound.ids };
}
  where
    same : (r : InstanceRow) → str_eq (if str_eq r.id id then f r else r).id id ≡ str_eq r.id id
    same r = elim (Bool-cases (str_eq r.id id)) [
      | inl e ↦ rw e (ap (λ x. str_eq x id) (keep r).0 ∙ e)
      | inr e ↦ rw e e
    ]

pub preflight_ok :
    (es : List AssertEntry) (w : Work)
    → All (λ (e : AssertEntry). IsTaken e.what) es
    → preflight es w ≡ (ok tt, w)
unfolding preflight pure
preflight_ok [] w t = refl
preflight_ok (e ∷ es) w t = rw (guards_pass-taken e.what t.0) (preflight_ok es w t.1)

module _ (py : Texts) (user : String) (named : user ≢ "") (req : BatchRequest) (actor : String)
    (item : BatchItem) (taken : All (λ (e : AssertEntry). IsTaken e.what) item.asserts)
    (bare : item.presets ≡ []) where
  pub no_presets :
      (id : String) (w : Work)
      → contribute_presets py user id actor true item.presets w ≡ (ok tt, w)
  unfolding contribute_presets pure
  no_presets id w = rw bare refl

  write_section_idle :
      (row : InstanceRow) (s : Session)
      → IsWritten req item row
      → write_section user req item row s ≡ (ok false, s)
  unfolding write_section refresh_section pure
  write_section_idle row s h =
      rw
        (
          h.there,
          h.text,
          h.release,
          h.item_id,
          (str_eq_iff item.data_text item.data_text).1 refl,
          (str_eq_iff req.client_version req.client_version).1 refl,
          opt_eq_refl item.client_item_id,
        )
        refl

  -- The result under construction of an item that is settled.
  abbrev at_rest : Work → Work
  at_rest w = record w { out = record (blank_result item) { result = unchanged } }

  apply_asserts_idle :
      (row : InstanceRow) (w : Work) (es : List AssertEntry)
      → row.id ≢ ""
      → All (λ (e : AssertEntry). IsTaken e.what) es
      → Stand row.canonical actor es
      → apply_asserts user row actor true es (at_rest w) ≡ (ok 0, at_rest w)
  unfolding apply_asserts pure lift modify ◌>>=◌
  apply_asserts_idle row w [] filled t h = refl
  apply_asserts_idle row w (e ∷ es) filled t h =
      rw (assert_from_idle user named row.id filled actor (e ∷ es) row.canonical 0 w.session t h)
        refl

  module _ (id : String) (filled : id ≢ "") (target : non_empty item.id ≡ some id) where
    -- An item whose section and asserts the row has changes nothing.
    pub sync_item_idle :
        (row : InstanceRow) (w : Work)
        → IsHeld user id row w.session
        → IsWritten req item row
        → Stand row.canonical actor item.asserts
        → sync_item py user req actor true item (record w { out = blank_result item }) ≡ (
          ok tt,
          record w { out = record (blank_result item) { id = some id; result = unchanged } },
        )
    unfolding sync_item target_of upsert contribute_presets lift pure gets modify owned_instance
        ◌>>=◌
    sync_item_idle row w held written stand =
        let start : Work = record w { out = blank_result item } in
        let f = owned-found w.session.db.instances user id row held.found held.mine in
        let again : row_by_id w.session.db row.id ≡ some row =
          subst (λ x. row_by_id w.session.db x ≡ some row) (sym held.same_id) held.found in
        rw
          (
            target,
            f,
            preflight_ok item.asserts start taken,
            write_section_idle row w.session written,
            again,
            apply_asserts_idle row w item.asserts (λ e. filled (sym held.same_id ∙ e)) taken stand,
            bare,
            held.same_id,
          )
          refl
