-- ===== src/Tests/Undo.antt =====
-- A tool set that is snapshotted, renamed, and restored.
use loobric_server.Base.{suc, ◌≡◌, refl, inl, inr, none, some, [], ◌∷◌, In}
use loobric_server.Base.Exec.{ok, modify, ◌>>=◌}
use loobric_server.Versioning.{
  ToolSet, before_restore, Session, flush, snapshot_of, history_row, snapshot_tool_set, get_owned,
  update_set, restore_tool_set, compare_versions,
}
use loobric_server.Versioning.Calls.{set_data, written, IsKept, IsEdit}
use loobric_server.Versioning.Kept.{
  Steps, done, step, editing, flushing, snapshotting, Steps-IsKept,
}
use loobric_server.Versioning.Restored.{flushed, snapshot-restore, restore-compare}

abbrev kit : ToolSet
kit = record {
  id = "s1";
  name = "Kit";
  description = none;
  set_type = "template";
  machine_id = none;
  job_id = none;
  members = "t1" ∷ [];
  capacity = none;
  status = "draft";
  activation = none;
  user_id = "ann";
  created_by = "ann";
  updated_by = "ann";
  created_at = some 1;
  updated_at = some 1;
  version = 1;
}

abbrev fresh : Session
fresh = record { sets = kit ∷ []; history = []; pending = []; now = 5 }

abbrev renamed : ToolSet → ToolSet
renamed t = record t { name = "Other"; members = []; version = suc t.version }

renamed-IsEdit : IsEdit renamed
renamed-IsEdit = record { same_id = λ t. refl; same_user = λ t. refl; next_version = λ t. refl }

fresh-IsKept : IsKept fresh.sets (written fresh)
fresh-IsKept = record {
  one = λ t u i j e. one i j;
  below = λ h t i j e. elim i [ ];
  agree = λ h k i j e v. elim i [ ];
}
  where
    one : {t u : ToolSet} → In t (kit ∷ []) → In u (kit ∷ []) → t ≡ u
    one (inl a) (inl b) = cc
    one (inl a) (inr b) = elim b [ ]
    one (inr a) j = elim a [ ]

abbrev taken : Session
unfolding snapshot_tool_set history_row snapshot_of modify ◌>>=◌
taken = (snapshot_tool_set kit "ann" none fresh).1

abbrev changed : Session
unfolding update_set modify
changed = (update_set "s1" renamed taken).1

edited : Steps taken changed
unfolding update_set modify
edited = step taken changed changed (editing "s1" renamed taken renamed-IsEdit) (done changed)

snapshot-restore_example :
    (r : ToolSet) × (s2 : Session) × (restore_tool_set "s1" 1 "ann" (flushed changed)
      ≡ (ok (some r), s2))
    × (set_data r ≡ set_data kit)
    × (r.version ≡ 3)
    × In (history_row (renamed kit) "ann" (some (before_restore 1))) s2.history
unfolding get_owned flush modify update_set snapshot_tool_set taken
snapshot-restore_example =
    snapshot-restore fresh changed kit (renamed kit) "ann" "ann" none fresh-IsKept (inl refl) edited
      refl

Steps-IsKept_example : IsKept changed.sets (written changed)
unfolding snapshot_tool_set history_row snapshot_of modify ◌>>=◌
Steps-IsKept_example =
    Steps-IsKept (step fresh taken changed (snapshotting kit "ann" none fresh (inl refl)) edited)
      fresh-IsKept

changed-IsKept : IsKept (flushed changed).sets (written (flushed changed))
unfolding snapshot_tool_set history_row snapshot_of modify update_set flush taken ◌>>=◌
changed-IsKept =
    Steps-IsKept
      (step fresh taken (flushed changed) (snapshotting kit "ann" none fresh (inl refl)) (
        step taken changed (flushed changed) (editing "s1" renamed taken renamed-IsEdit) (
          step changed (flushed changed) (flushed changed) (flushing changed)
            (done (flushed changed)))))
      fresh-IsKept

restore-compare_example :
    compare_versions (flushed (restore_tool_set "s1" 1 "ann" (flushed changed)).1) "s1" 1 3 "ann"
    ≡ some []
unfolding get_owned flush modify update_set snapshot_tool_set history_row taken ◌>>=◌
restore-compare_example =
    restore-compare (flushed changed) (renamed kit) "ann" (history_row kit "ann" none)
      changed-IsKept (inl refl) refl
