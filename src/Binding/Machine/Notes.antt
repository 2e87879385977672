-- ===== src/Binding/Machine/Notes.antt =====
-- The notes of `reconcile_machine`: which entries of the table it shows as no member's.
use loobric_server.Base.{
  ◌≡◌, refl, ◌≢◌, ◌⊎◌, inl, inr, ap, sym, subst, String, Bool, true, false, not, ◌&&◌, some, List,
  map, In, find?-In, In-map, In-map_inv, filter, filter-In, any_iff, any-In, arith, Bool-cases,
  str_eq, str_eq_iff,
}
use loobric_server.Base.Dict.{string_eq}
use loobric_server.Contract.{SetMember}
use loobric_server.Store.{Db, constraints_hold}
use loobric_server.Store.Rows.{EntryRow, SetRow, MapRow}
use loobric_server.Binding.Reconcile.{
  MemberState, reconcile_set_membership, entries_on, tables, classify,
}
use loobric_server.Binding.Reconcile.Spec.{reconcile_members, OneHolder-entries_on}
use loobric_server.Binding.Bridge.{active_map_for_machine, owned_set}
use loobric_server.Binding.Machine.{
  NoteView, note_view, consumes, consumed, names_of, reconcile_machine,
}
use loobric_server.Binding.Machine.View.{Mapped, members, notes_eq}
use loobric_server.Binding.Machine.Taken.{IsTakenUp, classify-IsTakenUp, IsTakenUp-classify}

module _ (db : Db) (user machine : String) (map_row : MapRow) (set_row : SetRow)
    (is_mapped : Mapped db user machine map_row set_row) where
  abbrev outs : List MemberState
  outs = members db user machine map_row set_row

  abbrev untaken : EntryRow → Bool
  untaken e = not (consumed outs e.id)

  abbrev rows : List EntryRow
  rows = entries_on db user machine

  -- An entry that no member takes up has its note.
  note_of_entry :
      (e : EntryRow)
      → In e rows
      → consumed outs e.id ≡ false
      → (n : NoteView) × In n (reconcile_machine db user machine).notes
        × (n.entry_id ≡ e.id)
        × (n.tool_record_id ≡ e.bound_instance_id)
  unfolding note_view
  note_of_entry e row free =
      let view = note_view (names_of db outs rows) in
      (
        view e,
        rw (notes_eq db user machine map_row set_row is_mapped) (
            In-map view e (filter untaken rows) ((filter-In untaken e rows).1 (row, ground arith))),
        refl,
        refl,
      )

  -- A note is about such an entry, and shows its binding.
  entry_of_note :
      (n : NoteView)
      → In n (reconcile_machine db user machine).notes
      → (e : EntryRow) × In e rows
        × (consumed outs e.id ≡ false)
        × (n.entry_id ≡ e.id)
        × (n.tool_record_id ≡ e.bound_instance_id)
  unfolding note_view
  entry_of_note n row =
      let view = note_view (names_of db outs rows) in
      let (e, i, same) =
        In-map_inv view n (filter untaken rows)
          (rw (notes_eq db user machine map_row set_row is_mapped) at row) in
      let (i', free) = (filter-In untaken e rows).0 i in
      (
        e,
        i',
        ground arith,
        ap (λ (x : NoteView). x.entry_id) same,
        ap (λ (x : NoteView). x.tool_record_id) same,
      )

owned_set-user :
    (db : Db) (user set_id : String) (r : SetRow)
    → owned_set db user set_id ≡ some r
    → r.user_id ≡ user
unfolding owned_set
owned_set-user db user set_id r h =
    let (_, t) =
      find?-In (λ (x : SetRow). str_eq x.id set_id && str_eq x.user_id user) r db.sets h in
    (str_eq_iff r.user_id user).0 (ground arith)

-- A member of the set takes up the entry of that id.
abbrev pub IsMembers : Db → SetRow → List EntryRow → String → Type 0
IsMembers db set_row es id = (m : SetMember) × In m set_row.canonical.members × IsTakenUp db es m id

module _ (db : Db) (set_row : SetRow) (machine id : String) (named : machine ≢ "")
    (filled : id ≢ "") where
  abbrev table : List EntryRow
  table = entries_on db set_row.user_id machine

  abbrev outcome : List MemberState
  outcome = (reconcile_set_membership db set_row (some machine)).members

  consumed-IsMembers : consumed outcome id ≡ true → IsMembers db set_row table id
  unfolding consumed
  consumed-IsMembers h =
      let (ms, i, t) = any_iff (consumes id) outcome h in
      let listed : In ms (map (classify (tables db table)) set_row.canonical.members) =
        subst (In ms) (reconcile_members db set_row machine named) i in
      let (m, j, q) = In-map_inv (classify (tables db table)) ms set_row.canonical.members listed in
      (m, j, classify-IsTakenUp db table m id filled (subst (λ x. consumes id x ≡ true) q t))

  IsMembers-consumed :
      constraints_hold db ≡ true → IsMembers db set_row table id → consumed outcome id ≡ true
  unfolding consumed
  IsMembers-consumed holds (m, j, up) =
      let one = OneHolder-entries_on db set_row.user_id machine holds in
      let listed =
        subst (In (classify (tables db table) m)) (sym (reconcile_members db set_row machine named))
          (In-map (classify (tables db table)) m set_row.canonical.members j) in
      any-In (consumes id) (classify (tables db table) m) outcome listed
        (IsTakenUp-classify db table m id filled one up)

-- With the set active on the machine, the UNIQUE indexes holding and ids on its entries: the view shows
-- every entry of the user on the machine, in a note with its binding or else as one that a member of
-- the set takes up by the rules; and it has no note for an entry that a member takes up.
pub notes_complete :
    (db : Db) (user machine : String) (map_row : MapRow) (set_row : SetRow)
    → machine ≢ ""
    → constraints_hold db ≡ true
    → ((e : EntryRow) → In e (entries_on db user machine) → e.id ≢ "")
    → active_map_for_machine db user machine ≡ some map_row
    → owned_set db user map_row.tool_set_id ≡ some set_row
    → ((e : EntryRow)
        → In e (entries_on db user machine)
        → ((n : NoteView) × In n (reconcile_machine db user machine).notes
            × (n.entry_id ≡ e.id)
            × (n.tool_record_id ≡ e.bound_instance_id))
          ⊎ IsMembers db set_row (entries_on db user machine) e.id)
      × ((n : NoteView)
          → In n (reconcile_machine db user machine).notes
          → ¬ IsMembers db set_row (entries_on db user machine) n.entry_id)
notes_complete db user machine map_row set_row named holds filled mapped owned = (
  λ e row. elim (Bool-cases (consumed taken e.id)) [
    | inl c ↦ inr (
        subst (λ u. IsMembers db set_row (entries_on db u machine) e.id) mine
          (consumed-IsMembers db set_row machine e.id named (filled e row) c))
    | inr free ↦ inl (note_of_entry db user machine map_row set_row (mapped, owned) e row free)
  ],
  λ n row up.
      let (e, i, free, same, _) =
        entry_of_note db user machine map_row set_row (mapped, owned) n row in
      let up' : IsMembers db set_row (entries_on db set_row.user_id machine) e.id =
        subst (λ u. IsMembers db set_row (entries_on db u machine) e.id) (sym mine)
          (subst (IsMembers db set_row (entries_on db user machine)) same up) in
      let c = IsMembers-consumed db set_row machine e.id named (filled e i) holds up' in cc,
)
  where
    taken : List MemberState
    taken = (reconcile_set_membership db set_row (some machine)).members

    mine : set_row.user_id ≡ user
    mine = owned_set-user db user map_row.tool_set_id set_row owned
