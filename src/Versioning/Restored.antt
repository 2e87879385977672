-- ===== src/Versioning/Restored.antt =====
-- What a restore brings back after any run, and how it compares with the version it came from.
use loobric_server.Base.{
  ℕ, suc, ◌≡◌, refl, sym, ap, ◌∙◌, subst, inl, inr, String, true, false, ◌&&◌, not, Option, none,
  some, List, [], ◌∷◌, ◌++◌, find?, is_none, In, find?-In, find?-none, In-append_right,
  In-append_left, str_eq, str_eq_iff, nat_eq_iff, opt_eq, filter, arith, Bool-cases, Option-cases,
}
use loobric_server.Base.Tables.{find?-update_where}
use loobric_server.Base.Exec.{ok, modify, ◌>>=◌}
use loobric_server.Versioning.{
  ToolSet, Snapshot, Summary, before_restore, restored_from, HistoryRow, Session, flush,
  snapshot_of, history_row, snapshot_tool_set, get_owned, is_version, version_row, restored,
  restore_found, restore_tool_set, same_field, SetField, name, description, set_type, machine_id,
  job_id, members, capacity, status, activation, texts_eq, fields, differences, compare_versions,
}
use loobric_server.Versioning.Calls.{
  data_of, set_data, written, IsKept, restored_session, restore_from_ok,
}
use loobric_server.Versioning.Kept.{
  Steps, Steps-IsKept, steps-keep, Step-IsKept, snapshotting, flushing, restoring, get_owned-In,
}

abbrev pub flushed : Session → Session
unfolding flush
flushed s = (flush s).1

is_version_iff :
    (id : String) (v : ℕ) (h : HistoryRow)
    → is_version id v h ≡ true
    → (h.tool_set_id ≡ id) × (h.version ≡ v)
unfolding is_version
is_version_iff id v h e =
    (ground (arith, str_eq_iff h.tool_set_id id), ground (arith, nat_eq_iff h.version v))

is_version-own : (h : HistoryRow) → is_version h.tool_set_id h.version h ≡ true
unfolding is_version
is_version-own h =
    ground (arith, str_eq_iff h.tool_set_id h.tool_set_id, nat_eq_iff h.version h.version)

-- A row of the flushed history is found under its version, or one with its data.
pub version_row-agrees :
    (s : Session) (h : HistoryRow)
    → IsKept s.sets (written s)
    → In h s.history
    → (k : HistoryRow) × (version_row s h.tool_set_id h.version ≡ some k)
      × (data_of k.snapshot ≡ data_of h.snapshot)
unfolding version_row
version_row-agrees s h kept i =
    elim (Option-cases (find? (is_version h.tool_set_id h.version) s.history)) [
      | inl e ↦
          let f = find?-none (is_version h.tool_set_id h.version) h s.history e i in
          let t = is_version-own h in ground arith
      | inr (k, e) ↦
          let (j, own) = find?-In (is_version h.tool_set_id h.version) k s.history e in
          let (same, at) = is_version_iff h.tool_set_id h.version k own in
          (
            k,
            e,
            kept.agree k h (In-append_left k s.history s.pending j)
                (In-append_left h s.history s.pending i) same at,
          )
    ]

-- A restore to the version of a row of the flushed history.
restore_tool_set_ok :
    (s : Session) (t : ToolSet) (user : String) (h : HistoryRow)
    → IsKept s.sets (written s)
    → In h s.history
    → get_owned s h.tool_set_id user ≡ some t
    → (k : HistoryRow) × (restore_tool_set h.tool_set_id h.version user s
        ≡ (ok (some (restored k.snapshot user s.now t)), restored_session t k h.version user s))
      × (data_of k.snapshot ≡ data_of h.snapshot)
unfolding restore_tool_set restore_found ◌>>=◌
restore_tool_set_ok s t user h kept i owned =
    let (k, found, same) = version_row-agrees s h kept i in
    (k, rw (owned, found) (restore_from_ok t k h.version user s), same)

-- A snapshot is not lost: in a session whose history is that of its tool sets, after a snapshot of a
-- tool set and any run of the client, flushed, a restore to the version of the snapshot by the owner
-- returns the tool set with the data that it had, under the version after its present one, and keeps
-- the present data in the history.
pub snapshot-restore :
    (s s' : Session) (t now_t : ToolSet) (by user : String) (why : Option Summary)
    → IsKept s.sets (written s)
    → In t s.sets
    → Steps (snapshot_tool_set t by why s).1 s'
    → get_owned (flushed s') t.id user ≡ some now_t
    → (r : ToolSet) × (s2 : Session) × (restore_tool_set t.id t.version user (flushed s')
        ≡ (ok (some r), s2))
      × (set_data r ≡ set_data t)
      × (r.version ≡ suc now_t.version)
      × In (history_row now_t user (some (before_restore t.version))) s2.history
unfolding flush snapshot_tool_set history_row snapshot_of restored ◌>>=◌
snapshot-restore s s' t now_t by user why kept i steps owned =
    let kept' = Steps-IsKept steps (Step-IsKept (snapshotting t by why s i) kept) in
    let taken =
      In-append_right (history_row t by why) s.history (s.pending ++ history_row t by why ∷ [])
        (In-append_right (history_row t by why) s.pending (history_row t by why ∷ []) (inl refl)) in
    let there = steps-keep (history_row t by why) steps taken in
    let (k, run, same) =
      restore_tool_set_ok (flushed s') now_t user (history_row t by why)
        (Step-IsKept (flushing s') kept') there owned in
    (
      restored k.snapshot user s'.now now_t,
      restored_session now_t k t.version user (flushed s'),
      run,
      same,
      refl,
      In-append_right (history_row now_t user (some (before_restore t.version)))
          (flushed s').history _ (inl refl),
    )

texts_eq_refl : (xs : List String) → texts_eq xs xs ≡ true
texts_eq_refl [] = refl
texts_eq_refl (x ∷ xs) = ground (arith, str_eq_iff x x, texts_eq_refl xs)

opt_eq_refl : (o : Option String) → opt_eq o o ≡ true
opt_eq_refl none = refl
opt_eq_refl (some x) = (str_eq_iff x x).1 refl

same_field-data : (a b : Snapshot) (f : SetField) → data_of a ≡ data_of b → same_field a b f ≡ true
unfolding same_field
same_field-data a b name e = (str_eq_iff a.name b.name).1 (ap (λ d. d.name) e)
same_field-data a b description e =
    subst (λ o. opt_eq a.description o ≡ true) (ap (λ d. d.description) e)
      (opt_eq_refl a.description)
same_field-data a b set_type e = (str_eq_iff a.set_type b.set_type).1 (ap (λ d. d.set_type) e)
same_field-data a b machine_id e =
    subst (λ o. opt_eq a.machine_id o ≡ true) (ap (λ d. d.machine_id) e) (opt_eq_refl a.machine_id)
same_field-data a b job_id e =
    subst (λ o. opt_eq a.job_id o ≡ true) (ap (λ d. d.job_id) e) (opt_eq_refl a.job_id)
same_field-data a b members e =
    subst (λ o. texts_eq a.members o ≡ true) (ap (λ d. d.members) e) (texts_eq_refl a.members)
same_field-data a b capacity e =
    subst (λ o. opt_eq a.capacity o ≡ true) (ap (λ d. d.capacity) e) (opt_eq_refl a.capacity)
same_field-data a b status e = (str_eq_iff a.status b.status).1 (ap (λ d. d.status) e)
same_field-data a b activation e =
    subst (λ o. opt_eq a.activation o ≡ true) (ap (λ d. d.activation) e) (opt_eq_refl a.activation)

no_differences :
    (a b : Snapshot) (fs : List SetField)
    → data_of a ≡ data_of b
    → filter (λ f. not (same_field a b f)) fs ≡ []
no_differences a b [] e = refl
no_differences a b (f ∷ fs) e = ground (arith, same_field-data a b f e, no_differences a b fs e)

get_owned-restored :
    (s : Session) (t : ToolSet) (k : HistoryRow) (version : ℕ) (id user : String)
    → get_owned s id user ≡ some t
    → is_none (get_owned (flushed (restored_session t k version user s)) id user) ≡ false
unfolding get_owned flush modify restored
get_owned-restored s t k version id user owned =
    rw
      (
        find?-update_where (λ r. str_eq r.id id && str_eq r.user_id user) (λ r. str_eq r.id t.id)
            (restored k.snapshot user s.now) s.sets
            (λ r i. elim (Bool-cases (str_eq r.id t.id)) [ inl e ↦ rw e refl | inr e ↦ rw e refl ]),
        owned,
      )
      refl

-- After a restore, flushed, `compare_versions` finds no difference between the version restored and
-- the new one.
pub restore-compare :
    (s : Session) (t : ToolSet) (user : String) (h : HistoryRow)
    → IsKept s.sets (written s)
    → In h s.history
    → get_owned s h.tool_set_id user ≡ some t
    → compare_versions
        (flushed (restore_tool_set h.tool_set_id h.version user s).1)
        h.tool_set_id
        h.version
        (suc t.version)
        user
      ≡ some []
unfolding compare_versions differences flush modify history_row snapshot_of restored
restore-compare s t user h kept i owned =
    let (k, run, same) = restore_tool_set_ok s t user h kept i owned in
    let s2 = flushed (restored_session t k h.version user s) in
    let kept2 =
      subst (λ x. IsKept (flushed x.1).sets (written (flushed x.1))) run
        (Step-IsKept (flushing (restore_tool_set h.tool_set_id h.version user s).1)
          (Step-IsKept (restoring h.tool_set_id h.version user s) kept)) in
    let new =
      history_row (restored k.snapshot user s.now t) user (some (restored_from h.version)) in
    let (_, own, _) = get_owned-In s h.tool_set_id user t owned in
    let old_in : In h s2.history = In-append_left h _ (new ∷ []) (In-append_left h s.history _ i) in
    let new_in : In new s2.history = In-append_right new (s.history ++ _) (new ∷ []) (inl refl) in
    let (a, found_a, same_a) = version_row-agrees s2 h kept2 old_in in
    let (b, found_b, same_b) = version_row-agrees s2 new kept2 new_in in
    let found_b' = subst (λ id. version_row s2 id (suc t.version) ≡ some b) own found_b in
    rw (run, get_owned-restored s t k h.version h.tool_set_id user owned, found_a, found_b')
      (ap some (no_differences a.snapshot b.snapshot fields (same_a ∙ sym same ∙ sym same_b)))
