-- ===== src/Binding/Reconcile/Lookups.antt =====
-- What the loop finds in its dicts, by the rows of the machine's table.
use loobric_server.Base.{
  ◌≡◌, refl, ◌≢◌, inl, inr, String, Bool, true, ◌&&◌, Option, none, some, List, [], In, any, filter,
  find?, find?-In, find?-none, find_last?, find_last?-In, find_last?-none, filter-In, any_iff,
  any-In, str_eq, str_eq_iff, arith, Option-cases,
}
use loobric_server.Base.Int.{ℤ}
use loobric_server.Base.Dict.{lookup, string_eq, integer_eq}
use loobric_server.Base.Index.{has_key, has_key_iff, lookup-index_last, lookup-index_first}
use loobric_server.Store.{Db}
use loobric_server.Store.Rows.{EntryRow, ProposalRow, ProposalStatus, is_open, confirmed, rejected}
use loobric_server.Binding.Proposals.{has_status}
use loobric_server.Binding.Reconcile.{bound_by_instance, by_number, proposed_entry, tables}

abbrev pub number_of : EntryRow → Option ℤ
number_of e = e.canonical.tool_number.value

-- The first entry of the list at the number.
abbrev pub first_at : ℤ → List EntryRow → Option EntryRow
first_at n es = find? (has_key number_of n) es

-- An open proposal that names the instance for one of the entries.
pub record Names (db : Db) (es : List EntryRow) (i : String) (p : ProposalRow) : Type 0 where
  pub row : In p db.proposals
  pub status : p.status ≡ is_open
  pub entry : EntryRow
  pub entry_row : In entry es
  pub entry_id : entry.id ≡ p.entry_id
  pub instance_id : p.proposed_instance_id ≡ i

module _ (db : Db) (es : List EntryRow) where
  lookup-bound :
      (i : String)
      → lookup i (tables db es).bound ≡ find_last? (has_key (λ e. e.bound_instance_id) i) es
  unfolding tables bound_by_instance
  lookup-bound i =
      ground (arith, lookup-index_last (λ (e : EntryRow). e.bound_instance_id) (λ e. e) i es [])

  -- An instance that is found is held by that entry.
  pub lookup-bound_some :
      (i : String) (e : EntryRow)
      → lookup i (tables db es).bound ≡ some e
      → In e es × (e.bound_instance_id ≡ some i)
  lookup-bound_some i e h =
      let (row, k) =
        find_last?-In (has_key (λ x. x.bound_instance_id) i) e es (rw lookup-bound at h) in
      (row, (has_key_iff (λ (x : EntryRow). x.bound_instance_id) i e).0 k)

  -- An instance that is not found is held by no entry.
  pub lookup-bound_none :
      (i : String) (e : EntryRow)
      → lookup i (tables db es).bound ≡ none
      → In e es
      → e.bound_instance_id ≢ some i
  lookup-bound_none i e h row b = ground (
    arith,
    find_last?-none (has_key (λ x. x.bound_instance_id) i) e es (rw lookup-bound at h) row,
    (has_key_iff (λ (x : EntryRow). x.bound_instance_id) i e).1 b,
  )

  pub lookup-numbered : (n : ℤ) → lookup n (tables db es).numbered ≡ first_at n es
  unfolding tables by_number
  lookup-numbered n = ground (arith, lookup-index_first number_of (λ (e : EntryRow). e) n es [])

  -- Open, and on one of the entries.
  abbrev pub on_entry : ProposalRow → Bool
  on_entry p = has_status p.status is_open && any (λ (e : EntryRow). str_eq e.id p.entry_id) es

  pub lookup-proposed :
      (i : String)
      → lookup i (tables db es).proposed
        ≡ (elim (find?
            (has_key (λ (p : ProposalRow). some p.proposed_instance_id) i)
            (filter on_entry db.proposals)) [ none ↦ none | some p ↦ some p.entry_id ])
  unfolding tables proposed_entry
  lookup-proposed i = ground (
    arith,
    lookup-index_first (λ (p : ProposalRow). some p.proposed_instance_id) (λ p. p.entry_id) i
        (filter on_entry db.proposals) [],
  )

has_status-open : (s : ProposalStatus) → has_status s is_open ≡ true → s ≡ is_open
unfolding has_status
has_status-open is_open h = refl
has_status-open confirmed h = ground arith
has_status-open rejected h = ground arith

module _ (db : Db) (es : List EntryRow) (i : String) where
  Names-on_entry : (p : ProposalRow) → Names db es i p → on_entry db es p ≡ true
  unfolding has_status
  Names-on_entry p n = ground (
    arith,
    n.status,
    any-In (λ (e : EntryRow). str_eq e.id p.entry_id) n.entry es n.entry_row
        ((str_eq_iff n.entry.id p.entry_id).1 n.entry_id),
  )

  -- A proposal that is found is open, names the instance, and is for that entry.
  pub lookup-proposed_some :
      (eid : String)
      → lookup i (tables db es).proposed ≡ some eid
      → (p : ProposalRow) × Names db es i p × (p.entry_id ≡ eid)
  lookup-proposed_some eid h = elim (Option-cases (find? named open_on)) [
    | inl n ↦ absurd (ground (arith, lookup-proposed db es i))
    | inr (p, s) ↦
        let (row, k) = find?-In named p open_on s in
        let (stored, q) = (filter-In (on_entry db es) p db.proposals).0 row in
        let (e, e_row, e_id) =
          any_iff (λ (e : EntryRow). str_eq e.id p.entry_id) es (ground arith) in
        (
          p,
          record {
            row = stored;
            status = has_status-open p.status (ground arith);
            entry = e;
            entry_row = e_row;
            entry_id = (str_eq_iff e.id p.entry_id).0 e_id;
            instance_id =
                ground
                  (arith, (has_key_iff (λ (x : ProposalRow). some x.proposed_instance_id) i p).0 k);
          },
          ground (arith, lookup-proposed db es i),
        )
  ]
    where
      named : ProposalRow → Bool
      named = has_key (λ p. some p.proposed_instance_id) i

      open_on : List ProposalRow
      open_on = filter (on_entry db es) db.proposals

  -- Without one in the dict no open proposal names the instance.
  pub lookup-proposed_none :
      lookup i (tables db es).proposed ≡ none → (p : ProposalRow) → Names db es i p → ⊥
  lookup-proposed_none h p n = elim (Option-cases (find? named open_on)) [
    | inl e ↦ ground (
      arith,
      find?-none named p open_on e
          ((filter-In (on_entry db es) p db.proposals).1 (n.row, Names-on_entry p n)),
      (str_eq_iff p.proposed_instance_id i).1 n.instance_id,
    )
    | inr (q, s) ↦ ground (arith, lookup-proposed db es i)
  ]
    where
      named : ProposalRow → Bool
      named = has_key (λ p. some p.proposed_instance_id) i

      open_on : List ProposalRow
      open_on = filter (on_entry db es) db.proposals
