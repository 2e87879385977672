-- ===== src/Versioning/Kept.antt =====
-- The runs of a client of the versioning module, and what holds of the history in all of them.
use loobric_server.Base.{
  ℕ, ◌≡◌, refl, sym, subst, String, ◌&&◌, Option, none, some, [], ◌∷◌, ◌++◌, append-nil,
  append_assoc, In, In-append_left, find?-In, str_eq, str_eq_iff, arith,
}
use loobric_server.Base.Exec.{pure, ◌>>=◌}
use loobric_server.Versioning.{
  ToolSet, Summary, before_restore, HistoryRow, Session, flush, snapshot_of, history_row,
  snapshot_tool_set, get_owned, version_row, update_set, restore_found, restore_tool_set,
}
use loobric_server.Versioning.Calls.{
  written, IsKept, IsEdit, restore_from_ok, restored-IsKept, add-IsKept, edit-IsKept,
}

-- One call of a client: a snapshot, a change of a tool set, a flush, or a restore.
pub data Step : Session → Session → Type 0 where
  snapshotting :
      (t : ToolSet) (user : String) (why : Option Summary) (s : Session)
      → In t s.sets
      → Step s (snapshot_tool_set t user why s).1
  editing :
      (id : String) (f : ToolSet → ToolSet) (s : Session) → IsEdit f → Step s (update_set id f s).1
  flushing : (s : Session) → Step s (flush s).1
  restoring :
      (id : String) (version : ℕ) (user : String) (s : Session)
      → Step s (restore_tool_set id version user s).1

pub data Steps : Session → Session → Type 0 where
  done : (s : Session) → Steps s s
  step : (s t u : Session) → Step s t → Steps t u → Steps s u

pub get_owned-In :
    (s : Session) (id user : String) (t : ToolSet)
    → get_owned s id user ≡ some t
    → In t s.sets × (t.id ≡ id) × (t.user_id ≡ user)
unfolding get_owned
get_owned-In s id user t h =
    let (i, e) = find?-In (λ t. str_eq t.id id && str_eq t.user_id user) t s.sets h in
    (i, ground (arith, str_eq_iff t.id id), ground (arith, str_eq_iff t.user_id user))

restore_found-IsKept :
    (t : Option ToolSet) (h : Option HistoryRow) (version : ℕ) (user : String) (s : Session)
    → ((r : ToolSet) → t ≡ some r → In r s.sets)
    → IsKept s.sets (written s)
    → let s' = (restore_found t h version user s).1 in IsKept s'.sets (written s')
unfolding restore_found pure
restore_found-IsKept none h version user s i kept = kept
restore_found-IsKept (some t) none version user s i kept = kept
restore_found-IsKept (some t) (some h) version user s i kept =
    rw (restore_from_ok t h version user s) (restored-IsKept t h version user s kept (i t refl))

pub Step-IsKept :
    {s s' : Session} → Step s s' → IsKept s.sets (written s) → IsKept s'.sets (written s')
unfolding snapshot_tool_set update_set flush restore_tool_set ◌>>=◌ history_row snapshot_of
Step-IsKept (snapshotting t user why s i) kept =
    let row = history_row t user why in
    subst (IsKept s.sets) (append_assoc s.history s.pending (row ∷ []))
      (add-IsKept s.sets (written s) kept t i row refl refl refl)
Step-IsKept (editing id f s edit) kept =
    edit-IsKept s.sets (written s) kept id f edit.same_id edit.next_version
Step-IsKept (flushing s) kept = subst (IsKept s.sets) (sym (append-nil (written s))) kept
Step-IsKept (restoring id version user s) kept =
    restore_found-IsKept (get_owned s id user) (version_row s id version) version user s
      (λ r h. (get_owned-In s id user r h).0) kept

-- Whatever snapshots, changes, flushes and restores a client makes, the history stays one of the
-- tool sets: each row is of an earlier version or has the present data, and two rows of a version
-- have the same data.
pub Steps-IsKept :
    {s s' : Session} → Steps s s' → IsKept s.sets (written s) → IsKept s'.sets (written s')
Steps-IsKept (done s) kept = kept
Steps-IsKept (step s t u one more) kept = Steps-IsKept more (Step-IsKept one kept)

step-keeps : {s s' : Session} (h : HistoryRow) → Step s s' → In h (written s) → In h (written s')
unfolding snapshot_tool_set update_set flush restore_tool_set restore_found pure ◌>>=◌
step-keeps h (snapshotting t user why s i) j =
    subst (In h) (append_assoc s.history s.pending (history_row t user why ∷ []))
      (In-append_left h (written s) (history_row t user why ∷ []) j)
step-keeps h (editing id f s edit) j = j
step-keeps h (flushing s) j = subst (In h) (sym (append-nil (written s))) j
step-keeps h (restoring id version user s) j = go (get_owned s id user) (version_row s id version)
  where
    go :
        (t : Option ToolSet) (k : Option HistoryRow)
        → In h (written (restore_found t k version user s).1)
    go none k = j
    go (some t) none = j
    go (some t) (some k) =
        let before = history_row t user (some (before_restore version)) ∷ [] in
        rw (restore_from_ok t k version user s) (
          In-append_left h (s.history ++ (s.pending ++ before)) _ (
            subst (In h) (append_assoc s.history s.pending before)
              (In-append_left h (written s) before j)))

-- No call takes a history row away.
pub steps-keep :
    {s s' : Session} (h : HistoryRow) → Steps s s' → In h (written s) → In h (written s')
steps-keep h (done s) j = j
steps-keep h (step s t u one more) j = steps-keep h more (step-keeps h one j)
