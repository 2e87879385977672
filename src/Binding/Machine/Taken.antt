-- ===== src/Binding/Machine/Taken.antt =====
-- Which entry of the table a member of a set takes up, by the rows: the rule of reconcile_machine.
use loobric_server.Base.{
  ◌≡◌, refl, subst, ◌≢◌, inl, inr, ap, sym, ◌∙◌, String, true, Option, none, some, some_inj, List,
  In, filter, find?, arith, Option-cases, str_eq_iff, opt_is_iff,
}
use loobric_server.Base.Int.{ℤ}
use loobric_server.Base.Dict.{lookup, string_eq}
use loobric_server.Base.Index.{has_key}
use loobric_server.Contract.{SetMember}
use loobric_server.Store.{Db}
use loobric_server.Store.Rows.{EntryRow, ProposalRow}
use loobric_server.Binding.Reconcile.{
  requested, MemberState, tables, classify, on_bound, on_proposed, on_claimed, member_state,
}
use loobric_server.Binding.Reconcile.Lookups.{
  first_at, on_entry, lookup-bound_some, lookup-bound_none, lookup-numbered, lookup-proposed,
}
use loobric_server.Binding.Reconcile.Explained.{claimed, Unheld}
use loobric_server.Binding.Reconcile.Spec.{OneHolder}
use loobric_server.Binding.Machine.{consumes}

-- The first open proposal on one of the entries that names the instance.
abbrev pub proposal_for : Db → List EntryRow → String → Option ProposalRow
proposal_for db es i =
    find? (has_key (λ (p : ProposalRow). some p.proposed_instance_id) i)
      (filter (on_entry db es) db.proposals)

module _ (db : Db) (es : List EntryRow) (m : SetMember) where
  -- The member takes up the entry of that id: the entry holds its tool, in place or not; or no entry
  -- does, and the open proposal for its tool is on that entry; or there is none, and that entry
  -- stands at the claimed number without a tool. An entry with another tool in it at the claimed
  -- number is not taken up.
  pub data IsTakenUp (id : String) : Type 0 where
    holding :
        (e : EntryRow)
        → In e es
        → e.bound_instance_id ≡ some m.tool_record_id
        → e.id ≡ id
        → IsTakenUp id
    proposing :
        (p : ProposalRow)
        → Unheld db es m
        → proposal_for db es m.tool_record_id ≡ some p
        → p.entry_id ≡ id
        → IsTakenUp id
    awaiting :
        (n : ℤ) (e : EntryRow)
        → Unheld db es m
        → proposal_for db es m.tool_record_id ≡ none
        → claimed m ≡ some n
        → first_at n es ≡ some e
        → e.bound_instance_id ≡ none
        → e.id ≡ id
        → IsTakenUp id

  -- The branches of the loop, with what each one found in the rows.
  data Branch : MemberState → Type 0 where
    bound :
        (e : EntryRow)
        → In e es
        → e.bound_instance_id ≡ some m.tool_record_id
        → Branch (on_bound m e)
    proposed :
        (p : ProposalRow)
        → Unheld db es m
        → proposal_for db es m.tool_record_id ≡ some p
        → Branch (on_proposed (tables db es) m p.entry_id)
    at_number :
        (n : ℤ) (e : EntryRow)
        → Unheld db es m
        → proposal_for db es m.tool_record_id ≡ none
        → claimed m ≡ some n
        → first_at n es ≡ some e
        → Branch (on_claimed m e)
    nowhere :
        Unheld db es m
        → proposal_for db es m.tool_record_id ≡ none
        → ((n : ℤ) → claimed m ≡ some n → first_at n es ≡ none)
        → Branch (member_state m requested none none)

  abbrev given : MemberState
  given = classify (tables db es) m

  is_proposed :
      (p : ProposalRow)
      → lookup m.tool_record_id (tables db es).bound ≡ none
      → proposal_for db es m.tool_record_id ≡ some p
      → given ≡ on_proposed (tables db es) m p.entry_id
  unfolding classify
  is_proposed p b h =
      let q : lookup m.tool_record_id (tables db es).proposed ≡ some p.entry_id =
        lookup-proposed db es m.tool_record_id ∙ rw h refl in
      ground arith

  module _ (b : lookup m.tool_record_id (tables db es).bound ≡ none)
      (none_open : proposal_for db es m.tool_record_id ≡ none) where
    not_proposed : lookup m.tool_record_id (tables db es).proposed ≡ none
    not_proposed = lookup-proposed db es m.tool_record_id ∙ rw none_open refl

    is_unclaimed : claimed m ≡ none → given ≡ member_state m requested none none
    unfolding classify
    is_unclaimed c = let q = not_proposed in ground arith

    is_nowhere :
        (n : ℤ)
        → claimed m ≡ some n
        → first_at n es ≡ none
        → given ≡ member_state m requested none none
    unfolding classify
    is_nowhere n c f = let q = not_proposed in ground (arith, lookup-numbered db es n)

    is_at_number :
        (n : ℤ) (e : EntryRow)
        → claimed m ≡ some n
        → first_at n es ≡ some e
        → given ≡ on_claimed m e
    unfolding classify
    is_at_number n e c f = let q = not_proposed in ground (arith, lookup-numbered db es n)

  unbound-Branch : lookup m.tool_record_id (tables db es).bound ≡ none → Branch given
  unbound-Branch b = elim (Option-cases (proposal_for db es m.tool_record_id)) [
    | inr (p, h) ↦ subst Branch (sym (is_proposed p b h)) (proposed p unheld h)
    | inl q ↦ elim (Option-cases (claimed m)) [
      | inl c ↦ subst Branch (sym (is_unclaimed b q c)) (nowhere unheld q (λ n d. ground arith))
      | inr (n, c) ↦ elim (Option-cases (first_at n es)) [
        | inl f ↦
            subst Branch (sym (is_nowhere b q n c f))
              (nowhere unheld q (λ k d. let same : some n ≡ some k = sym c ∙ d in ground arith))
        | inr (e, f) ↦ subst Branch (sym (is_at_number b q n e c f)) (at_number n e unheld q c f)
      ]
    ]
  ]
    where
      unheld : Unheld db es m
      unheld e row = lookup-bound_none db es m.tool_record_id e b row

  classify-Branch : Branch given
  unfolding classify
  classify-Branch = elim (Option-cases (lookup m.tool_record_id (tables db es).bound)) [
    | inl b ↦ unbound-Branch b
    | inr (e, h) ↦
        let (row, held) = lookup-bound_some db es m.tool_record_id e h in
        let eq : given ≡ on_bound m e = ground arith in subst Branch (sym eq) (bound e row held)
  ]

  module _ (id : String) (filled : id ≢ "") where
    consumes-id : (ms : MemberState) → consumes id ms ≡ true → ms.entry_id ≡ some id
    unfolding consumes
    consumes-id ms h = (opt_is_iff ms.entry_id id).0 (ground arith)

    shut :
        (e : EntryRow) (j : String)
        → e.bound_instance_id ≡ some j
        → consumes id (on_claimed m e) ≡ true
        → ⊥
    unfolding consumes
    shut e j b h = ground arith

    not_there : consumes id (member_state m requested none none) ≡ true → ⊥
    unfolding consumes
    not_there h = ground arith

    by_branch : (ms : MemberState) → Branch ms → consumes id ms ≡ true → IsTakenUp id
    by_branch _ (bound e row held) h = holding e row held (some_inj (consumes-id (on_bound m e) h))
    by_branch _ (proposed p u q) h =
        proposing p u q (some_inj (consumes-id (on_proposed (tables db es) m p.entry_id) h))
    by_branch _ (at_number n e u q c f) h = elim (Option-cases e.bound_instance_id) [
      | inl b ↦ awaiting n e u q c f b (some_inj (consumes-id (on_claimed m e) h))
      | inr (j, b) ↦ absurd (shut e j b h)
    ]
    by_branch _ (nowhere u q f) h = absurd (not_there h)

    -- The loop lets a member take up only entries that the rule says.
    pub classify-IsTakenUp : consumes id given ≡ true → IsTakenUp id
    classify-IsTakenUp = by_branch given classify-Branch

    takes_bound : (e : EntryRow) → e.id ≡ id → consumes id (on_bound m e) ≡ true
    unfolding consumes
    takes_bound e q = ground (arith, str_eq_iff e.id "", str_eq_iff e.id id)

    takes_proposed :
        (p : ProposalRow)
        → p.entry_id ≡ id
        → consumes id (on_proposed (tables db es) m p.entry_id) ≡ true
    unfolding consumes
    takes_proposed p q = ground (arith, str_eq_iff p.entry_id "", str_eq_iff p.entry_id id)

    takes_claimed :
        (e : EntryRow)
        → e.bound_instance_id ≡ none
        → e.id ≡ id
        → consumes id (on_claimed m e) ≡ true
    unfolding consumes
    takes_claimed e b q = ground (arith, str_eq_iff e.id "", str_eq_iff e.id id)

    back : (ms : MemberState) → OneHolder es → Branch ms → IsTakenUp id → consumes id ms ≡ true
    back _ one (bound f f_row f_held) (holding e row held q) =
        takes_bound f
          (ap (λ (r : EntryRow). r.id) (one m.tool_record_id f e f_row row f_held held) ∙ q)
    back _ one (bound f f_row f_held) (proposing p u h q) = absurd (u f f_row f_held)
    back _ one (bound f f_row f_held) (awaiting n e u h c g b q) = absurd (u f f_row f_held)
    back _ one (proposed p u h) (holding e row held q) = absurd (u e row held)
    back _ one (proposed p u h) (proposing r v k q) =
        takes_proposed p (ap (λ (x : ProposalRow). x.entry_id) (some_inj (sym h ∙ k)) ∙ q)
    back _ one (proposed p u h) (awaiting n e v k c g b q) = absurd (none_ne (sym k ∙ h))
      where
        none_ne : none ≡ some p → ⊥
        none_ne w = cc w
    back _ one (at_number n e u h c g) (holding f row held q) = absurd (u f row held)
    back _ one (at_number n e u h c g) (proposing p v k q) = absurd (none_ne (sym h ∙ k))
      where
        none_ne : none ≡ some p → ⊥
        none_ne w = cc w
    back _ one (at_number n e u h c g) (awaiting n' e' v k c' g' b q) =
        let same : n ≡ n' = some_inj (sym c ∙ c') in
        let row : e ≡ e' = some_inj (sym g ∙ ap (λ x. first_at x es) same ∙ g') in
        takes_claimed e (ap (λ (r : EntryRow). r.bound_instance_id) row ∙ b)
          (ap (λ (r : EntryRow). r.id) row ∙ q)
    back _ one (nowhere u h f) (holding e row held q) = absurd (u e row held)
    back _ one (nowhere u h f) (proposing p v k q) = absurd (none_ne (sym h ∙ k))
      where
        none_ne : none ≡ some p → ⊥
        none_ne w = cc w
    back _ one (nowhere u h f) (awaiting n e v k c g b q) = absurd (none_ne (sym (f n c) ∙ g))
      where
        none_ne : none ≡ some e → ⊥
        none_ne w = cc w

    -- And it lets the member take up every entry that the rule says.
    pub IsTakenUp-classify : OneHolder es → IsTakenUp id → consumes id given ≡ true
    IsTakenUp-classify one = back given one classify-Branch
