-- ===== src/Batch/Item.antt =====
-- One item of a batch: its asserts and presets, the row it names or makes, and the whole item.
use loobric_server.Base.{
  ℕ, zero, suc, String, Bool, true, false, not, ◌||◌, Option, none, some, List, [], ◌∷◌, length,
  if◌then◌else◌,
}
use loobric_server.Base.Dict.{string_eq}
use loobric_server.Base.Json.{Json}
use loobric_server.Base.Exec.{
  Exec, Result, ok, err, bad_request, item_error, preset_error, pure, raise, gets, ◌>>=◌, ◌>>◌,
  or_raise,
}
use loobric_server.Contract.{InstanceCanonical}
use loobric_server.Store.{Session}
use loobric_server.Store.Audit.{create_audit_log}
use loobric_server.Store.Rows.{InstanceRow, instance}
use loobric_server.Presets.{Texts}
use loobric_server.Presets.Door.{contribute, materialize}
use loobric_server.Instances.{
  instance_entity, AssertEntry, guards_pass, is_same_value_noop, set_leaf, update_instance,
  with_canonical, touched,
}
use loobric_server.Batch.{
  BatchItem, BatchRequest, Work, lift, report, non_empty, row_by_id, target_of, preflight,
  create_row, write_section, updated, unchanged,
}

-- The loop of `_apply_asserts`: the document so far, and how many applied.
unfoldable pub assert_from :
    String
    → String
    → String
    → List AssertEntry
    → InstanceCanonical
    → ℕ
    → Exec Session (InstanceCanonical × ℕ)
assert_from user id actor [] c n = pure (c, n)
assert_from user id actor (e ∷ es) c n =
    let skip = assert_from user id actor es c n in
    if not (guards_pass e.what)
    then raise bad_request
    else if is_same_value_noop c e actor
    then skip
    else (do
      c' ← or_raise (set_leaf c e actor) bad_request
      create_audit_log user "ASSERT" instance_entity id
      assert_from user id actor es c' (suc n))

abbrev store_canonical : String → InstanceCanonical × ℕ → Exec Session (Unit {0})
store_canonical id (c, zero) = pure tt
store_canonical id (c, suc n) = update_instance id (with_canonical c)

-- `_apply_asserts`
unfoldable pub apply_asserts : String → InstanceRow → String → Bool → List AssertEntry → Exec Work ℕ
apply_asserts user row actor can_assert [] = pure 0
apply_asserts user row actor can_assert (e ∷ es) =
    if not can_assert
    then (do report (λ o. record o { asserts_blocked = length (e ∷ es) }); pure 0)
    else (do
      done ← lift (assert_from user row.id actor (e ∷ es) row.canonical 0)
      lift (store_canonical row.id done)
      report (λ o. record o { asserts_applied = done.1 })
      pure done.1)

-- `except PresetError`, for one entry: whether it was contributed.
unfoldable pub try_preset : Exec Session String → Exec Session Bool
try_preset m s = let (r, s') = m s in (tried r, s')
  where
    tried : Result String → Result Bool
    tried (ok id) = ok true
    tried (err preset_error) = ok false
    tried (err e) = err e

-- The number of presets contributed and skipped.
unfoldable pub contribute_all :
    Texts → String → String → String → List Json → ℕ → ℕ → Exec Session (ℕ × ℕ)
contribute_all py user id actor [] contributed skipped = pure (contributed, skipped)
contribute_all py user id actor (p ∷ ps) contributed skipped = do
  done ← try_preset (contribute py user instance id p actor)
  (if done
      then contribute_all py user id actor ps (suc contributed) skipped
      else contribute_all py user id actor ps contributed (suc skipped))

abbrev materialize_if : String → String → ℕ → Exec Session (Unit {0})
materialize_if user id zero = pure tt
materialize_if user id (suc n) = materialize user instance id

-- `_contribute_presets`
unfoldable pub contribute_presets :
    Texts → String → String → String → Bool → List Json → Exec Work (Unit {0})
contribute_presets py user id actor can_assert [] = pure tt
contribute_presets py user id actor can_assert (p ∷ ps) = do
  counts ←
      (if can_assert
        then lift (contribute_all py user id actor (p ∷ ps) 0 0)
        else pure (0, length (p ∷ ps)))
  lift (materialize_if user id counts.0)
  report (λ o. record o { presets_contributed = counts.0; presets_skipped = counts.1 })

-- The row found, with its section written, or a new row: its id, and whether it changed.
unfoldable pub upsert :
    String → BatchRequest → BatchItem → Bool → Option InstanceRow → Exec Work (String × Bool)
upsert user req item can_assert none =
    if not can_assert then raise item_error else (do id ← create_row user req item; pure (id, true))
upsert user req item can_assert (some row) = do
  changed ← lift (write_section user req item row)
  report (λ o. record o { result = if changed then updated else unchanged })
  pure (row.id, changed)

abbrev pub positive : ℕ → Bool
positive zero = false
positive (suc n) = true

abbrev asserts_on : String → String → Bool → List AssertEntry → Option InstanceRow → Exec Work ℕ
asserts_on user actor can_assert es none = pure 0
asserts_on user actor can_assert es (some row) = apply_asserts user row actor can_assert es

-- The body of the loop, as far as it is tried.
unfoldable pub sync_item :
    Texts → String → BatchRequest → String → Bool → BatchItem → Exec Work (Unit {0})
sync_item py user req actor can_assert item = do
  found ← target_of user (non_empty item.id) (non_empty item.client_item_id)
  preflight item.asserts
  target ← upsert user req item can_assert found
  row ← gets (λ w. row_by_id w.session.db target.0)
  applied ← asserts_on user actor can_assert item.asserts row
  (if target.1 || positive applied then lift (update_instance target.0 (touched user)) else pure tt)
  contribute_presets py user target.0 actor can_assert item.presets
  report (λ o. record o { id = some target.0 })
