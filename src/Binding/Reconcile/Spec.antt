-- ===== src/Binding/Reconcile/Spec.antt =====
-- `reconcile_set_membership` against the rules of its docstring, as a relation between a member and
-- a state that reads the rows and not the dicts.
use loobric_server.Base.{
  ◌≡◌, refl, ◌≢◌, ◌↔◌, inl, inr, ap, sym, ◌∙◌, subst, some_inj, ◌&&◌, String, true, none, some,
  List, map, In, Each, Each-map, filter-In, arith, Option-cases, str_eq, str_eq_iff,
}
use loobric_server.Base.Int.{ℤ}
use loobric_server.Base.Dict.{lookup, string_eq, integer_eq}
use loobric_server.Contract.{SetMember}
use loobric_server.Store.{Db, constraints_hold}
use loobric_server.Store.Unique.{unique_on-eq}
use loobric_server.Store.Rows.{EntryRow, SetRow}
use loobric_server.Binding.Reconcile.{
  State, MemberState, claim_of, entries_on, Tables, tables, classify, on_bound, reconcile_on,
  reconcile_set_membership,
}
use loobric_server.Binding.Reconcile.Lookups.{first_at, lookup-bound_some, lookup-bound_none}
use loobric_server.Binding.Reconcile.Explained.{
  claimed, InPlace, Stands, classify-Explained, absent, in_place, in_the_way, out_of_place,
  proposed, unsettled,
}

-- An instance is held by one entry at most.
abbrev pub OneHolder : List EntryRow → Type 0
OneHolder es =
    (i : String) (e f : EntryRow)
    → In e es
    → In f es
    → e.bound_instance_id ≡ some i
    → f.bound_instance_id ≡ some i
    → e ≡ f

module _ (db : Db) (es : List EntryRow) (one : OneHolder es) (m : SetMember) where
  same_place :
      (e f : EntryRow)
      → In e es
      → In f es
      → e.bound_instance_id ≡ some m.tool_record_id
      → f.bound_instance_id ≡ some m.tool_record_id
      → InPlace m e
      → InPlace m f
  same_place e f i j he hf p = let same : e ≡ f = one m.tool_record_id e f i j he hf in rw same at p

  one_row :
      (n k : ℤ) (e f : EntryRow) {j : String}
      → claimed m ≡ some n
      → claimed m ≡ some k
      → first_at n es ≡ some e
      → first_at k es ≡ some f
      → e.bound_instance_id ≡ none
      → f.bound_instance_id ≡ some j
      → ⊥
  one_row n k e f c d a b u v =
      let same : n ≡ k = some_inj (sym c ∙ d) in
      let row : e ≡ f = some_inj (sym a ∙ rw same b) in cc

  free_row : (n : ℤ) (e : EntryRow) → first_at n es ≡ some e → first_at n es ≡ none → ⊥
  free_row n e a b = cc

  -- The rules do not overlap.
  Stands-eq : (s t : State) → Stands db es m s → Stands db es m t → s ≡ t
  Stands-eq _ _ (in_place e i h p) (in_place f j k q) = refl
  Stands-eq _ _ (in_place e i h p) (out_of_place f j k q) = absurd (q (same_place e f i j h k p))
  Stands-eq _ _ (in_place e i h p) (proposed r u n) = absurd (u e i h)
  Stands-eq _ _ (in_place e i h p) (unsettled n f u v c a b) = absurd (u e i h)
  Stands-eq _ _ (in_place e i h p) (in_the_way n f j u v c a b) = absurd (u e i h)
  Stands-eq _ _ (in_place e i h p) (absent u v w) = absurd (u e i h)
  Stands-eq _ _ (out_of_place e i h p) (in_place f j k q) = absurd (p (same_place f e j i k h q))
  Stands-eq _ _ (out_of_place e i h p) (out_of_place f j k q) = refl
  Stands-eq _ _ (out_of_place e i h p) (proposed r u n) = absurd (u e i h)
  Stands-eq _ _ (out_of_place e i h p) (unsettled n f u v c a b) = absurd (u e i h)
  Stands-eq _ _ (out_of_place e i h p) (in_the_way n f j u v c a b) = absurd (u e i h)
  Stands-eq _ _ (out_of_place e i h p) (absent u v w) = absurd (u e i h)
  Stands-eq _ _ (proposed r u n) (in_place f j k q) = absurd (u f j k)
  Stands-eq _ _ (proposed r u n) (out_of_place f j k q) = absurd (u f j k)
  Stands-eq _ _ (proposed r u n) (proposed r' u' n') = refl
  Stands-eq _ _ (proposed r u n) (unsettled k f u' v c a b) = absurd (v r n)
  Stands-eq _ _ (proposed r u n) (in_the_way k f j u' v c a b) = absurd (v r n)
  Stands-eq _ _ (proposed r u n) (absent u' v w) = absurd (v r n)
  Stands-eq _ _ (unsettled n e u v c a b) (in_place f j k q) = absurd (u f j k)
  Stands-eq _ _ (unsettled n e u v c a b) (out_of_place f j k q) = absurd (u f j k)
  Stands-eq _ _ (unsettled n e u v c a b) (proposed r u' n') = absurd (v r n')
  Stands-eq _ _ (unsettled n e u v c a b) (unsettled n' e' u' v' c' a' b') = refl
  Stands-eq _ _ (unsettled n e u v c a b) (in_the_way n' e' j u' v' c' a' b') =
      absurd (one_row n n' e e' c c' a a' b b')
  Stands-eq _ _ (unsettled n e u v c a b) (absent u' v' w) = absurd (free_row n e a (w n c))
  Stands-eq _ _ (in_the_way n e j u v c a b) (in_place f k h q) = absurd (u f k h)
  Stands-eq _ _ (in_the_way n e j u v c a b) (out_of_place f k h q) = absurd (u f k h)
  Stands-eq _ _ (in_the_way n e j u v c a b) (proposed r u' n') = absurd (v r n')
  Stands-eq _ _ (in_the_way n e j u v c a b) (unsettled n' e' u' v' c' a' b') =
      absurd (one_row n' n e' e c' c a' a b' b)
  Stands-eq _ _ (in_the_way n e j u v c a b) (in_the_way n' e' j' u' v' c' a' b') = refl
  Stands-eq _ _ (in_the_way n e j u v c a b) (absent u' v' w) = absurd (free_row n e a (w n c))
  Stands-eq _ _ (absent u v w) (in_place f k h q) = absurd (u f k h)
  Stands-eq _ _ (absent u v w) (out_of_place f k h q) = absurd (u f k h)
  Stands-eq _ _ (absent u v w) (proposed r u' n') = absurd (v r n')
  Stands-eq _ _ (absent u v w) (unsettled n e u' v' c a b) = absurd (free_row n e a (w n c))
  Stands-eq _ _ (absent u v w) (in_the_way n e j u' v' c a b) = absurd (free_row n e a (w n c))
  Stands-eq _ _ (absent u v w) (absent u' v' w') = refl

  -- The loop gives the state that the rules give.
  classify-Stands : (s : State) → Stands db es m s ↔ ((classify (tables db es) m).state ≡ some s)
  classify-Stands s =
      let (t, given, stands) = classify-Explained db es m in
      (
        λ h. given ∙ ap some (Stands-eq t s stands h),
        λ h. subst (Stands db es m) (some_inj (sym given ∙ h)) stands,
      )

classify-id : (t : Tables) (m : SetMember) → (classify t m).tool_record_id ≡ m.tool_record_id
unfolding classify
classify-id t m = ground arith

classify-number : (t : Tables) (m : SetMember) → (classify t m).number ≡ claim_of m
unfolding classify
classify-number t m = ground arith

pub OneHolder-entries_on :
    (db : Db) (user machine : String)
    → constraints_hold db ≡ true
    → OneHolder (entries_on db user machine)
unfolding entries_on constraints_hold
OneHolder-entries_on db user machine holds i e f ei fi eh fh =
    unique_on-eq (λ (x : EntryRow). x.bound_instance_id) i e f db.entries (ground arith)
      ((filter-In (λ (x : EntryRow). str_eq x.user_id user && str_eq x.machine_id machine) e
          db.entries).0
        ei).0
      ((filter-In (λ (x : EntryRow). str_eq x.user_id user && str_eq x.machine_id machine) f
          db.entries).0
        fi).0
      eh fh

module _ (db : Db) (set_row : SetRow) (machine : String) (named : machine ≢ "") where
  pub reconcile_members :
      (reconcile_set_membership db set_row (some machine)).members
      ≡ map (classify (tables db (entries_on db set_row.user_id machine))) set_row.canonical.members
  unfolding reconcile_set_membership reconcile_on
  reconcile_members = ground (arith, str_eq_iff machine "")

-- A member whose instance an entry holds is judged by that entry.
pub classify_held :
    (db : Db) (es : List EntryRow) (m : SetMember) (e : EntryRow)
    → OneHolder es
    → In e es
    → e.bound_instance_id ≡ some m.tool_record_id
    → classify (tables db es) m ≡ on_bound m e
unfolding classify
classify_held db es m e one row held =
    elim (Option-cases (lookup m.tool_record_id (tables db es).bound)) [
      | inl n ↦ absurd (lookup-bound_none db es m.tool_record_id e n row held)
      | inr (f, s) ↦
          let (f_row, f_held) = lookup-bound_some db es m.tool_record_id f s in
          let same : f ≡ e = one m.tool_record_id f e f_row row f_held held in ground arith
    ]

-- Against a machine, over a database whose UNIQUE indexes hold: the answer has the members of the
-- set in their order, each under its own id and with its claim verbatim, and in exactly the state
-- that the rules of the docstring give it.
pub reconcile-Stands :
    (db : Db) (set_row : SetRow) (machine : String)
    → machine ≢ ""
    → constraints_hold db ≡ true
    → Each
        (λ (m : SetMember) (ms : MemberState).
          (ms.tool_record_id ≡ m.tool_record_id)
          × (ms.number ≡ claim_of m)
          × ((s : State)
              → Stands db (entries_on db set_row.user_id machine) m s ↔ (ms.state ≡ some s)))
        set_row.canonical.members
        (reconcile_set_membership db set_row (some machine)).members
reconcile-Stands db set_row machine named holds =
    let es = entries_on db set_row.user_id machine in
    rw (reconcile_members db set_row machine named) (
      Each-map _ (classify (tables db es))
        (λ m. (
          classify-id (tables db es) m,
          classify-number (tables db es) m,
          classify-Stands db es (OneHolder-entries_on db set_row.user_id machine holds) m,
        ))
        set_row.canonical.members)
