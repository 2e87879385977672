-- ===== src/Batch/Refused.antt =====
-- An item of a batch that the assert rules refuse.
use loobric_server.Base.{
  ◌≡◌, refl, ◌⊎◌, inl, inr, String, Bool, false, Option, none, some, List, [], ◌∷◌, every, filter,
  str_eq, Bool-cases, Option-cases, arith,
}
use loobric_server.Base.Exec.{Error, ok, err, item_error, bad_request, pure, raise, gets, ◌>>=◌}
use loobric_server.Store.Rows.{InstanceRow}
use loobric_server.Presets.{Texts}
use loobric_server.Presets.Door.{owned_instance}
use loobric_server.Instances.{AssertEntry, guards_pass}
use loobric_server.Batch.{
  BatchItem, BatchRequest, Work, non_empty, row_by_id, only_match, target_of, preflight,
  blank_result,
}
use loobric_server.Batch.Item.{sync_item}
use loobric_server.Batch.Run.{try_item}

-- Finding the row of an item changes nothing.
target_of_idle :
    (user : String) (id cid : Option String) (w : Work)
    → ((r : Option InstanceRow) × (target_of user id cid w ≡ (ok r, w)))
      ⊎ (target_of user id cid w ≡ (err item_error, w))
unfolding target_of pure raise gets ◌>>=◌
target_of_idle user (some id) cid w = elim (Option-cases (owned_instance w.session.db user id)) [
  | inl e ↦ inr (rw e refl)
  | inr (r, e) ↦ inl (some r, rw e refl)
]
target_of_idle user none (some cid) w = go (filter (λ m. str_eq m.0 cid) w.by_item)
  where
    go :
        (ms : List (String × String))
        → ((r : Option InstanceRow) × (only_match w.session.db ms w ≡ (ok r, w)))
          ⊎ (only_match w.session.db ms w ≡ (err item_error, w))
    go [] = inl (none, refl)
    go (m ∷ []) = inl (row_by_id w.session.db m.1, refl)
    go (m ∷ n ∷ ms) = inr refl
target_of_idle user none none w = inr refl

preflight_refused :
    (es : List AssertEntry) (w : Work)
    → every (λ e. guards_pass e.what) es ≡ false
    → preflight es w ≡ (err bad_request, w)
unfolding preflight raise
preflight_refused [] w h = ground arith
preflight_refused (e ∷ es) w h = elim (Bool-cases (guards_pass e.what)) [
  | inl t ↦
      let h' : every (λ e. guards_pass e.what) es ≡ false = rw t at h in
      rw t (preflight_refused es w h')
  | inr f ↦ rw f refl
]

-- An item with an assert that the path rules refuse is reported as a failure, its result stays
-- `error`, and the database and the index are as they were, whatever else the item asks for.
pub try_item-refused :
    (py : Texts) (user : String) (req : BatchRequest) (actor : String) (can_assert : Bool)
    (item : BatchItem) (w : Work)
    → every (λ e. guards_pass e.what) item.asserts ≡ false
    → (e : Error) × (try_item
          (sync_item py user req actor can_assert item)
          (record w { out = blank_result item })
        ≡ (ok tt, record w { out = record (blank_result item) { failure = some e } }))
unfolding try_item sync_item ◌>>=◌
try_item-refused py user req actor can_assert item w h =
    let start : Work = record w { out = blank_result item } in
    elim (target_of_idle user (non_empty item.id) (non_empty item.client_item_id) start) [
      | inl (r, e) ↦ (bad_request, rw (e, preflight_refused item.asserts start h) refl)
      | inr e ↦ (item_error, rw e refl)
    ]
