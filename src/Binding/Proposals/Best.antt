-- ===== src/Binding/Proposals/Best.antt =====
-- The choice that `propose_for_entry` makes among the instances.
use loobric_server.Base.{
  ℕ, ◌≤◌, ◌<◌, ◌≡◌, refl, ◌⊎◌, inl, inr, ap, sym, ◌∙◌, subst, String, Bool, true, false, ◌&&◌,
  Option, none, some, some_inj, List, [], ◌∷◌, In, any, filter, filter-In, leb, leb→le, arith,
  if◌then◌else◌, str_eq, str_eq_iff,
}
use loobric_server.Store.{Db}
use loobric_server.Store.Rows.{EntryRow, InstanceRow, Reason}
use loobric_server.Binding.Proposals.{
  Candidate, beats, consider, best_from, best_candidate, rejected_instances, score,
  proposal_threshold,
}

-- The confidence of the best candidate so far.
abbrev pub rank : Option Candidate → ℕ
rank none = 0
rank (some (s, _, _)) = s

-- A candidate that the loop may choose: not rejected, with its score and over the threshold.
pub record Fits (refused : List String) (entry : EntryRow) (s : ℕ) (r : Reason) (i : InstanceRow)
    : Type 0 where
  pub not_refused : any (str_eq i.id) refused ≡ false
  pub scored : score entry i ≡ (s, r)
  pub over : proposal_threshold ≤ s

abbrev instance_of : Candidate → InstanceRow
instance_of (_, _, i) = i

abbrev reason_of : Candidate → Reason
reason_of (_, r, _) = r

abbrev score_of : Candidate → ℕ
score_of (s, _, _) = s

module _ (refused : List String) (entry : EntryRow) where
  consider-chosen :
      (best : Option Candidate) (inst : InstanceRow) (s : ℕ) (r : Reason) (i : InstanceRow)
      → consider refused entry best inst ≡ some (s, r, i)
      → (best ≡ some (s, r, i)) ⊎ ((inst ≡ i) × Fits refused entry s r i)
  unfolding consider
  consider-chosen best inst s r i h =
      pick (any (str_eq inst.id) refused)
        (leb proposal_threshold (score entry inst).0 && beats (score entry inst).0 best) refl refl h
    where
      pick :
          (b c : Bool)
          → any (str_eq inst.id) refused ≡ b
          → (leb proposal_threshold (score entry inst).0 && beats (score entry inst).0 best) ≡ c
          → (if b
              then best
              else if◌then◌else◌ {A = Option Candidate} c
                  (some ((score entry inst).0, (score entry inst).1, inst))
                  best)
            ≡ some (s, r, i)
          → (best ≡ some (s, r, i)) ⊎ ((inst ≡ i) × Fits refused entry s r i)
      pick true c e f q = inl q
      pick false false e f q = inl q
      pick false true e f q =
          let p =
            some_inj {A = Candidate} {a = ((score entry inst).0, (score entry inst).1, inst)}
              {b = (s, r, i)} q in
          let same : inst ≡ i = ap instance_of p in
          let value : score entry inst ≡ (s, r) = ap (λ c. (score_of c, reason_of c)) p in
          let over : proposal_threshold ≤ (score entry inst).0 =
            leb→le proposal_threshold (score entry inst).0 (ground arith) in
          inr (
            same,
            record {
              not_refused = ap (λ (x : InstanceRow). any (str_eq x.id) refused) (sym same) ∙ e;
              scored = ap (λ x. score entry x) (sym same) ∙ value;
              over = subst (λ n. proposal_threshold ≤ n) (ap score_of p) over;
            },
          )

  consider-rank :
      (best : Option Candidate) (inst : InstanceRow)
      → rank best ≤ rank (consider refused entry best inst)
  unfolding consider
  consider-rank none inst = ground arith
  consider-rank (some (t, q, j)) inst = ground arith

  consider-best :
      (best : Option Candidate) (inst : InstanceRow)
      → any (str_eq inst.id) refused ≡ false
      → proposal_threshold ≤ (score entry inst).0
      → (score entry inst).0 ≤ rank (consider refused entry best inst)
  unfolding consider
  consider-best none inst n t = ground arith
  consider-best (some (u, q, j)) inst n t = ground arith

  best_from-chosen :
      (insts : List InstanceRow) (best : Option Candidate) (s : ℕ) (r : Reason) (i : InstanceRow)
      → best_from refused entry best insts ≡ some (s, r, i)
      → (best ≡ some (s, r, i)) ⊎ (In i insts × Fits refused entry s r i)
  unfolding best_from
  best_from-chosen [] best s r i h = inl h
  best_from-chosen (x ∷ xs) best s r i h =
      elim (best_from-chosen xs (consider refused entry best x) s r i h) [
        | inr (j, f) ↦ inr (inr j, f)
        | inl e ↦ elim (consider-chosen best x s r i e) [
          | inl q ↦ inl q
          | inr (same, f) ↦ inr (inl (sym same), f)
        ]
      ]

  best_from-rank :
      (insts : List InstanceRow) (best : Option Candidate)
      → rank best ≤ rank (best_from refused entry best insts)
  unfolding best_from
  best_from-rank [] best = ground arith
  best_from-rank (x ∷ xs) best =
      let here = consider-rank best x in
      let rest = best_from-rank xs (consider refused entry best x) in omega arith

  best_from-best :
      (insts : List InstanceRow) (best : Option Candidate) (inst : InstanceRow)
      → In inst insts
      → any (str_eq inst.id) refused ≡ false
      → proposal_threshold ≤ (score entry inst).0
      → (score entry inst).0 ≤ rank (best_from refused entry best insts)
  unfolding best_from
  best_from-best [] best inst i n t = absurd i
  best_from-best (x ∷ xs) best inst (inl e) n t =
      let here = consider-best best inst n t in
      let rest = best_from-rank xs (consider refused entry best inst) in
      subst
        (λ y.
          (score entry inst).0 ≤ rank (best_from refused entry (consider refused entry best y) xs))
        e (omega arith)
  best_from-best (x ∷ xs) best inst (inr i) n t =
      best_from-best xs (consider refused entry best x) inst i n t

-- The instance that the engine proposes for an entry is one of the user's, was not rejected for the
-- entry, has the confidence and the reason that `score` gives it, reaches the threshold, and no other
-- instance of the user that was not rejected scores more.
pub best_candidate-best :
    (db : Db) (user : String) (entry : EntryRow) (s : ℕ) (r : Reason) (i : InstanceRow)
    → best_candidate db user entry ≡ some (s, r, i)
    → In i db.instances
      × (i.user_id ≡ user)
      × Fits (rejected_instances db entry.id) entry s r i
      × ((j : InstanceRow)
          → In j db.instances
          → j.user_id ≡ user
          → any (str_eq j.id) (rejected_instances db entry.id) ≡ false
          → (score entry j).0 ≤ s)
unfolding best_candidate
best_candidate-best db user entry s r i h =
    let mine = filter (λ (x : InstanceRow). str_eq x.user_id user) db.instances in
    let refused = rejected_instances db entry.id in
    elim (best_from-chosen refused entry mine none s r i h) [
      | inl q ↦ absurd (none_ne q)
      | inr (j, f) ↦
          let (row, own) =
            (filter-In (λ (x : InstanceRow). str_eq x.user_id user) i db.instances).0 j in
          (
            row,
            (str_eq_iff i.user_id user).0 own,
            f,
            λ x x_row x_own n. elim (leb_cases (score entry x).0) [
              | inr low ↦ let over = f.over in omega arith
              | inl t ↦
                  let top =
                    best_from-best refused entry mine none x
                      ((filter-In (λ (y : InstanceRow). str_eq y.user_id user) x db.instances).1
                        (x_row, (str_eq_iff x.user_id user).1 x_own))
                      n t in
                  subst (λ o. (score entry x).0 ≤ rank o) h top
            ],
          )
    ]
  where
    none_ne : {A : Type 0} {x : A} → none ≡ some x → ⊥
    none_ne q = cc q

    leb_cases : (n : ℕ) → (proposal_threshold ≤ n) ⊎ (n ≤ proposal_threshold)
    leb_cases n = omega arith

-- When the engine proposes nothing, every instance of the user was rejected for the entry or scores
-- under the threshold.
pub best_candidate-none :
    (db : Db) (user : String) (entry : EntryRow)
    → best_candidate db user entry ≡ none
    → (j : InstanceRow) → In j db.instances
    → j.user_id ≡ user
    → any (str_eq j.id) (rejected_instances db entry.id) ≡ false
    → (score entry j).0 < proposal_threshold
unfolding best_candidate
best_candidate-none db user entry h j row own n =
    let mine = filter (λ (x : InstanceRow). str_eq x.user_id user) db.instances in
    let top = λ (t : proposal_threshold ≤ (score entry j).0).
      best_from-best (rejected_instances db entry.id) entry mine none j
        ((filter-In (λ (y : InstanceRow). str_eq y.user_id user) j db.instances).1
          (row, (str_eq_iff j.user_id user).1 own))
        n t in
    let low : proposal_threshold ≤ (score entry j).0 → (score entry j).0 ≤ 0 =
      λ t. subst (λ o. (score entry j).0 ≤ rank o) h (top t) in
    ground arith
