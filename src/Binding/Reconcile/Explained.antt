-- ===== src/Binding/Reconcile/Explained.antt =====
-- The rules of the docstring of reconcile_set_membership, stated on the rows, and the loop.
use loobric_server.Base.{
  ◌≡◌, refl, ◌≢◌, ◌↔◌, ◌⊎◌, inl, inr, ap, sym, ◌∙◌, String, true, Option, none, some, List, In,
  arith, Bool-cases, Option-cases,
}
use loobric_server.Base.Int.{ℤ, int_eq_iff}
use loobric_server.Base.Dict.{lookup, string_eq, integer_eq}
use loobric_server.Contract.{SetMember}
use loobric_server.Store.{Db}
use loobric_server.Store.Rows.{EntryRow, ProposalRow}
use loobric_server.Binding.Reconcile.{
  State, satisfied, mismounted, blocked, requested, pending_bind, claim_of, agrees, tables,
  classify,
}
use loobric_server.Binding.Reconcile.Lookups.{
  number_of, first_at, Names, lookup-bound_some, lookup-bound_none, lookup-numbered,
  lookup-proposed_some, lookup-proposed_none,
}

abbrev pub claimed : SetMember → Option ℤ
claimed m = (claim_of m).value

-- The claim is open, or it is the number that the entry shows.
abbrev pub InPlace : SetMember → EntryRow → Type 0
InPlace m e = (claimed m ≡ none) ⊎ (claimed m ≡ number_of e)

module _ (db : Db) (es : List EntryRow) where
  -- No entry holds the member's instance.
  abbrev pub Unheld : SetMember → Type 0
  Unheld m = (e : EntryRow) → In e es → e.bound_instance_id ≢ some m.tool_record_id

  abbrev pub Unproposed : SetMember → Type 0
  Unproposed m = (p : ProposalRow) → ¬ Names db es m.tool_record_id p

  -- How a member stands, rule by rule.
  pub data Stands (m : SetMember) : State → Type 0 where
    in_place :
        (e : EntryRow)
        → In e es
        → e.bound_instance_id ≡ some m.tool_record_id
        → InPlace m e
        → Stands m satisfied
    out_of_place :
        (e : EntryRow)
        → In e es
        → e.bound_instance_id ≡ some m.tool_record_id
        → ¬ InPlace m e
        → Stands m mismounted
    proposed : (p : ProposalRow) → Unheld m → Names db es m.tool_record_id p → Stands m pending_bind
    unsettled :
        (n : ℤ) (e : EntryRow)
        → Unheld m
        → Unproposed m
        → claimed m ≡ some n
        → first_at n es ≡ some e
        → e.bound_instance_id ≡ none
        → Stands m pending_bind
    in_the_way :
        (n : ℤ) (e : EntryRow) (j : String)
        → Unheld m
        → Unproposed m
        → claimed m ≡ some n
        → first_at n es ≡ some e
        → e.bound_instance_id ≡ some j
        → Stands m blocked
    absent :
        Unheld m
        → Unproposed m
        → ((n : ℤ) → claimed m ≡ some n → first_at n es ≡ none)
        → Stands m requested

agrees_iff : (c n : Option ℤ) → (agrees c n ≡ true) ↔ ((c ≡ none) ⊎ (c ≡ n))
agrees_iff none n = (λ h. inl refl, λ h. refl)
agrees_iff (some c) none = (λ h. ground arith, λ h. ground arith)
agrees_iff (some c) (some n) =
    (λ h. inr (ap some ((int_eq_iff c n).0 h)), λ h. ground (arith, int_eq_iff c n))

-- A member that has some state by the rules, and to which the loop gives that state.
abbrev Explained : Db → List EntryRow → SetMember → Type 0
Explained db es m = (s : State) × ((classify (tables db es) m).state ≡ some s) × Stands db es m s

module _ (db : Db) (es : List EntryRow) (m : SetMember) where
  bound-Explained :
      (e : EntryRow) → lookup m.tool_record_id (tables db es).bound ≡ some e → Explained db es m
  unfolding classify
  bound-Explained e h =
      let (row, held) = lookup-bound_some db es m.tool_record_id e h in
      elim (Bool-cases (agrees (claimed m) (number_of e))) [
        | inl a ↦ (
          satisfied,
          ground arith,
          in_place e row held ((agrees_iff (claimed m) (number_of e)).0 a),
        )
        | inr a ↦ (
          mismounted,
          ground arith,
          out_of_place e row held (λ p. ground (arith, (agrees_iff (claimed m) (number_of e)).1 p)),
        )
      ]

  proposed-Explained :
      (eid : String)
      → lookup m.tool_record_id (tables db es).bound ≡ none
      → lookup m.tool_record_id (tables db es).proposed ≡ some eid
      → Explained db es m
  unfolding classify
  proposed-Explained eid b h =
      let (p, named, same) = lookup-proposed_some db es m.tool_record_id eid h in
      (
        pending_bind,
        ground arith,
        proposed p (λ e row. lookup-bound_none db es m.tool_record_id e b row) named,
      )

  claimed-Explained :
      lookup m.tool_record_id (tables db es).bound ≡ none
      → lookup m.tool_record_id (tables db es).proposed ≡ none
      → Explained db es m
  unfolding classify
  claimed-Explained b q = elim (Option-cases (claimed m)) [
    | inl open_claim ↦ (requested, ground arith, absent unheld unproposed (λ n c. ground arith))
    | inr (n, c) ↦ elim (Option-cases (first_at n es)) [
      | inl free ↦ (
        requested,
        ground (arith, lookup-numbered db es n),
        absent unheld unproposed (λ k d. let same : some n ≡ some k = sym c ∙ d in ground arith),
      )
      | inr (e, f) ↦ elim (Option-cases e.bound_instance_id) [
        | inl u ↦ (
          pending_bind,
          ground (arith, lookup-numbered db es n),
          unsettled n e unheld unproposed c f u,
        )
        | inr (j, u) ↦ (
          blocked,
          ground (arith, lookup-numbered db es n),
          in_the_way n e j unheld unproposed c f u,
        )
      ]
    ]
  ]
    where
      unheld : Unheld db es m
      unheld e row = lookup-bound_none db es m.tool_record_id e b row

      unproposed : Unproposed db es m
      unproposed = lookup-proposed_none db es m.tool_record_id q

  pub classify-Explained : Explained db es m
  classify-Explained = elim (Option-cases (lookup m.tool_record_id (tables db es).bound)) [
    | inr (e, h) ↦ bound-Explained e h
    | inl b ↦ elim (Option-cases (lookup m.tool_record_id (tables db es).proposed)) [
      | inr (eid, h) ↦ proposed-Explained eid b h
      | inl q ↦ claimed-Explained b q
    ]
  ]
