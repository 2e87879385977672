-- ===== src/Versioning/Calls.antt =====
-- What each operation of the versioning module does to the history rows.
use loobric_server.Base.{
  ℕ, suc, ◌<◌, ◌≡◌, refl, sym, ap, ◌∙◌, subst, ◌⊎◌, inl, inr, String, Bool, true, false, Option,
  some, List, [], ◌∷◌, ◌++◌, append_assoc, update_where, In, In-snoc, str_eq, str_eq_iff, arith,
}
use loobric_server.Base.Tables.{In-update_where, In-update_where_hit}
use loobric_server.Base.Exec.{ok, ◌>>=◌}
use loobric_server.Versioning.{
  ToolSet, Snapshot, before_restore, restored_from, HistoryRow, Session, flush, snapshot_of,
  history_row, snapshot_tool_set, restored, update_set, restore_from,
}

-- The data of a tool set that a restore brings back: what it is, and not who wrote it and when.
pub record SetData : Type 0 where
  pub name : String
  pub description : Option String
  pub set_type : String
  pub machine_id : Option String
  pub job_id : Option String
  pub members : List String
  pub capacity : Option String
  pub status : String
  pub activation : Option String

abbrev pub data_of : Snapshot → SetData
data_of s = record {
  name = s.name;
  description = s.description;
  set_type = s.set_type;
  machine_id = s.machine_id;
  job_id = s.job_id;
  members = s.members;
  capacity = s.capacity;
  status = s.status;
  activation = s.activation;
}

abbrev pub set_data : ToolSet → SetData
set_data t = record {
  name = t.name;
  description = t.description;
  set_type = t.set_type;
  machine_id = t.machine_id;
  job_id = t.job_id;
  members = t.members;
  capacity = t.capacity;
  status = t.status;
  activation = t.activation;
}

-- The history rows, flushed or not.
abbrev pub written : Session → List HistoryRow
written s = s.history ++ s.pending

-- A history row against its tool set: of an earlier version, or of the present one with its data.
abbrev pub Precedes : HistoryRow → ToolSet → Type 0
Precedes h t =
    (h.version < t.version) ⊎ ((h.version ≡ t.version) × (data_of h.snapshot ≡ set_data t))

pub record IsKept (sets : List ToolSet) (rows : List HistoryRow) : Type 0 where
  pub one : (t u : ToolSet) → In t sets → In u sets → t.id ≡ u.id → t ≡ u
  pub below :
      (h : HistoryRow) (t : ToolSet) → In h rows → In t sets → h.tool_set_id ≡ t.id → Precedes h t
  pub agree :
      (h k : HistoryRow)
      → In h rows
      → In k rows
      → h.tool_set_id ≡ k.tool_set_id
      → h.version ≡ k.version
      → data_of h.snapshot ≡ data_of k.snapshot

-- A change of a tool set as the module asks for it: another version of the same tool set.
pub record IsEdit (f : ToolSet → ToolSet) : Type 0 where
  pub same_id : (t : ToolSet) → (f t).id ≡ t.id
  pub same_user : (t : ToolSet) → (f t).user_id ≡ t.user_id
  pub next_version : (t : ToolSet) → (f t).version ≡ suc t.version

lt_irrefl : (m n : ℕ) → m ≡ n → m < n → ⊥
lt_irrefl m n e l = omega arith

module _ (sets : List ToolSet) (rows : List HistoryRow) (kept : IsKept sets rows) where
  module _ (t : ToolSet) (i : In t sets) (row : HistoryRow) (set_id : row.tool_set_id ≡ t.id)
      (at : row.version ≡ t.version) (same : data_of row.snapshot ≡ set_data t) where
    new-agree :
        (h : HistoryRow)
        → In h rows
        → h.tool_set_id ≡ row.tool_set_id
        → h.version ≡ row.version
        → data_of h.snapshot ≡ data_of row.snapshot
    new-agree h j e v = elim (kept.below h t j i (e ∙ set_id)) [
      | inl less ↦
          absurd (lt_irrefl h.version row.version v (subst (λ n. h.version < n) (sym at) less))
      | inr (v', d) ↦ d ∙ sym same
    ]

    -- A row of the present version and data.
    pub add-IsKept : IsKept sets (rows ++ row ∷ [])
    add-IsKept = record {
      one = kept.one;
      below = λ h u j k e. elim (In-snoc h row rows j) [
        | inl old ↦ kept.below h u old k e
        | inr new ↦
            let tu = kept.one t u i k (sym set_id ∙ ap (λ r. r.tool_set_id) (sym new) ∙ e) in
            inr (
              ap (λ r. r.version) new ∙ at ∙ ap (λ r. r.version) tu,
              ap (λ r. data_of r.snapshot) new ∙ same ∙ ap (λ r. set_data r) tu,
            )
      ];
      agree = λ h k j l e v. elim (In-snoc h row rows j) [
        | inl old ↦ elim (In-snoc k row rows l) [
          | inl old' ↦ kept.agree h k old old' e v
          | inr new ↦
              new-agree h old (e ∙ ap (λ r. r.tool_set_id) new) (v ∙ ap (λ r. r.version) new)
              ∙ ap (λ r. data_of r.snapshot) (sym new)
        ]
        | inr new ↦ elim (In-snoc k row rows l) [
          | inl old ↦
              ap (λ r. data_of r.snapshot) new
              ∙ sym (
                  new-agree k old (sym e ∙ ap (λ r. r.tool_set_id) new)
                    (sym v ∙ ap (λ r. r.version) new))
          | inr new' ↦ ap (λ r. data_of r.snapshot) (new ∙ sym new')
        ]
      ];
    }

  module _ (set_id : String) (f : ToolSet → ToolSet) (same_id : (t : ToolSet) → (f t).id ≡ t.id)
      (next : (t : ToolSet) → (f t).version ≡ suc t.version) where
    abbrev pub is_set : ToolSet → Bool
    is_set t = str_eq t.id set_id

    -- Where a row of the changed table comes from.
    origin :
        (t : ToolSet)
        → In t (update_where is_set f sets)
        → (u : ToolSet) × In u sets
          × (t.id ≡ u.id)
          × (((is_set u ≡ true) × (t ≡ f u)) ⊎ ((is_set u ≡ false) × (t ≡ u)))
    origin t i =
        let (u, j, d) = In-update_where is_set f t sets i in
        elim d [
          | inl (q, e) ↦ (u, j, ap (λ r. r.id) e ∙ same_id u, inl (q, e))
          | inr (q, e) ↦ (u, j, ap (λ r. r.id) e, inr (q, e))
        ]

    pub edit-IsKept : IsKept (update_where is_set f sets) rows
    edit-IsKept = record {
      one = λ t u i j e.
          let (t', i', te, dt) = origin t i in
          let (u', j', ue, du) = origin u j in
          let same = kept.one t' u' i' j' (sym te ∙ e ∙ ue) in
          elim dt [
            | inl (q, a) ↦ elim du [
              | inl (r, b) ↦ a ∙ ap f same ∙ sym b
              | inr (r, b) ↦ let c = ap is_set same in ground arith
            ]
            | inr (q, a) ↦ elim du [
              | inl (r, b) ↦ let c = ap is_set same in ground arith
              | inr (r, b) ↦ a ∙ same ∙ sym b
            ]
          ];
      below = λ h t i j e.
          let (u, k, te, d) = origin t j in edited h u t (kept.below h u i k (e ∙ te)) d;
      agree = kept.agree;
    }
      where
        edited :
            (h : HistoryRow) (u t : ToolSet)
            → Precedes h u
            → ((is_set u ≡ true) × (t ≡ f u)) ⊎ ((is_set u ≡ false) × (t ≡ u))
            → Precedes h t
        edited h u t p (inl (q, e)) =
            let v = ap (λ r. r.version) e in
            let n = next u in
            elim p [ inl less ↦ inl (omega arith) | inr (w, d) ↦ inl (omega arith) ]
        edited h u t p (inr (q, e)) = subst (Precedes h) (sym e) p

-- The session after a restore.
abbrev pub restored_session : ToolSet → HistoryRow → ℕ → String → Session → Session
restored_session t h version user s = record s {
  sets = update_where (λ r. str_eq r.id t.id) (restored h.snapshot user s.now) s.sets;
  history = s.history ++ (s.pending ++ history_row t user (some (before_restore version)) ∷ []);
  pending = history_row (restored h.snapshot user s.now t) user (some (restored_from version)) ∷ [];
}

pub restore_from_ok :
    (t : ToolSet) (h : HistoryRow) (version : ℕ) (user : String) (s : Session)
    → restore_from t h version user s
      ≡ (ok (some (restored h.snapshot user s.now t)), restored_session t h version user s)
unfolding restore_from snapshot_tool_set update_set flush ◌>>=◌
restore_from_ok t h version user s = refl

pub restored-IsKept :
    (t : ToolSet) (h : HistoryRow) (version : ℕ) (user : String) (s : Session)
    → IsKept s.sets (written s)
    → In t s.sets
    → IsKept
        (restored_session t h version user s).sets
        (written (restored_session t h version user s))
unfolding restored history_row snapshot_of
restored-IsKept t h version user s kept i =
    let before = history_row t user (some (before_restore version)) in
    let one = add-IsKept s.sets (written s) kept t i before refl refl refl in
    let two = subst (IsKept s.sets) (append_assoc s.history s.pending (before ∷ [])) one in
    let f = restored h.snapshot user s.now in
    let three =
      edit-IsKept s.sets (s.history ++ (s.pending ++ before ∷ [])) two t.id f (λ r. refl)
        (λ r. refl) in
    add-IsKept (update_where (λ r. str_eq r.id t.id) f s.sets)
      (s.history ++ (s.pending ++ before ∷ [])) three (f t)
      (In-update_where_hit (λ r. str_eq r.id t.id) f t s.sets i ((str_eq_iff t.id t.id).1 refl))
      (history_row (f t) user (some (restored_from version))) refl refl refl
