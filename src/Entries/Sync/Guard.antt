-- ===== src/Entries/Sync/Guard.antt =====
-- The guard of a snapshot push against a mass-wipe.
use loobric_server.Base.{
  ℕ, suc, ◌*◌, ◌≤◌, ◌≡◌, ◌≢◌, refl, sym, ap, ◌∙◌, subst, String, Bool, true, false, not, ◌&&◌, ◌||◌,
  ◌⊎◌, inl, inr, Option, some, List, [], ◌∷◌, ◌++◌, map, filter, filter-In, length, ltb, arith,
  Bool-cases, In, In-map, In-map_inv, In-append_left, All, any_iff, any-In, is_none, str_eq,
  str_eq_iff,
}
use loobric_server.Base.Int.{ℤ, int_eq, int_eq_iff}
use loobric_server.Base.Dict.{Dict, integer_eq}
use loobric_server.Base.Index.{In-index_last, length-index_last}
use loobric_server.Base.Tables.{In-delete_where_miss}
use loobric_server.Base.Exec.{ok, err, conflict, raise, gets, ◌>>=◌}
use loobric_server.Base.Exec.Runs.{raise_inv}
use loobric_server.Store.{Db, Session}
use loobric_server.Store.Frame.{IsSound}
use loobric_server.Store.Rows.{EntryRow}
use loobric_server.Binding.Reconcile.{entries_on}
use loobric_server.Entries.Sync.{
  EntryIn, EntrySyncRequest, snapshot, existing_rows, number_of, is_present, is_doomed, absent,
  is_empty, refused, doomed_rows, sync_entries,
}
use loobric_server.Entries.Sync.Pushed.{binding_of, unbound, IsMetered}
use loobric_server.Entries.Sync.Bindings.{IsSynced, sync_entries-bindings}

length-map : {A B : Type 0} (f : A → B) (xs : List A) → length (map f xs) ≡ length xs
length-map f [] = refl
length-map f (x ∷ xs) = ap suc (length-map f xs)

abbrev pub is_numbered : EntryRow → Bool
is_numbered e = not (is_none e.canonical.tool_number.value)

few :
    (es : List EntryIn) (n : ℕ) (doomed : Dict ℤ String)
    → (not (is_empty doomed) && (is_empty es || ltb n (length doomed * 2))) ≡ false
    → (length doomed * 2 ≤ n) × (es ≡ [] → doomed ≡ [])
few es n [] h = (omega arith, λ e. refl)
few [] n (d ∷ ds) h = ground arith
few (e ∷ es) n (d ∷ ds) h =
    let le : length (d ∷ ds) * 2 ≤ n = ground arith in (le, λ q. absurd (cons_ne e es q))
  where
    cons_ne : (x : EntryIn) (xs : List EntryIn) → x ∷ xs ≡ [] → ⊥
    cons_ne x xs q = cc q

guard_bound :
    (req : EntrySyncRequest) (existing : Dict ℤ String)
    → refused req existing ≡ false
    → req.mode ≡ snapshot
    → req.force ≡ false
    → (length (absent req.entries existing) * 2 ≤ length existing)
      × (req.entries ≡ [] → absent req.entries existing ≡ [])
unfolding refused absent
guard_bound req [] open_guard mode unforced = (omega arith, λ e. refl)
guard_bound req (kv ∷ existing) open_guard mode unforced =
    few req.entries (length (kv ∷ existing)) (absent req.entries (kv ∷ existing))
      (rw (mode, unforced) at open_guard)

-- A push that the guard refuses is a 409 that changes nothing.
pub sync_entries-refused :
    (user : String) (req : EntrySyncRequest) (s : Session)
    → refused req (existing_rows s.db user req.machine_id) ≡ true
    → sync_entries user req s ≡ (err conflict, s)
unfolding sync_entries gets raise ◌>>=◌
sync_entries-refused user req s h = rw h refl

-- What a snapshot push takes away: entries of the user on the machine, whose numbers the payload does
-- not have.
abbrev pub IsAbsent : EntrySyncRequest → EntryRow → Type 0
IsAbsent req e =
    (n : ℤ) × (e.canonical.tool_number.value ≡ some n)
    × ((x : EntryIn) → In x req.entries → x.tool_number ≢ n)

absent-row :
    (db : Db) (user : String) (req : EntrySyncRequest) (id : String)
    → In id (map (λ kv. kv.1) (absent req.entries (existing_rows db user req.machine_id)))
    → (e : EntryRow) × In e (entries_on db user req.machine_id) × (e.id ≡ id) × IsAbsent req e
unfolding absent existing_rows number_of is_present
absent-row db user req id i =
    let existing = existing_rows db user req.machine_id in
    let (kv, j, q) = In-map_inv (λ kv. kv.1) id (absent req.entries existing) i in
    let (k, gone) = (filter-In (λ kv. not (is_present req.entries kv.0)) kv existing).0 j in
    elim (In-index_last number_of (λ r. r.id) (entries_on db user req.machine_id) [] kv.0 kv.1 k) [
      | inl (e, row, number, same) ↦ (
        e,
        row,
        same ∙ sym q,
        (
          kv.0,
          number,
          λ x m at.
              let yes =
                any-In (λ y. int_eq y.tool_number kv.0) x req.entries m
                  ((int_eq_iff x.tool_number kv.0).1 at) in
              ground arith,
        ),
      )
      | inr m ↦ absurd m
    ]

-- What the push leaves of an entry that it does not take away.
stays :
    (user : String) (req : EntrySyncRequest) (s s' : Session)
    → IsSynced user req s s'
    → (e : EntryRow) → In e s.db.entries
    → In e.id (map (λ kv. kv.1) (doomed_rows req (existing_rows s.db user req.machine_id)))
      ⊎ ((e' : EntryRow) × In e' s'.db.entries
          × (e'.id ≡ e.id)
          × (e'.bound_instance_id ≡ e.bound_instance_id))
stays user req s s' done e row =
    let doomed = doomed_rows req (existing_rows s.db user req.machine_id) in
    let gone : String × Option String → Bool = λ b. is_doomed doomed b.0 in
    elim (Bool-cases (is_doomed doomed e.id)) [
      | inl t ↦
          let (kv, i, q) = any_iff (λ kv. str_eq kv.1 e.id) doomed t in
          inl (
            subst (λ x. In x (map (λ kv. kv.1) doomed)) ((str_eq_iff kv.1 e.id).0 q)
              (In-map (λ kv. kv.1) kv doomed i))
      | inr f ↦
          let kept =
            In-delete_where_miss gone (binding_of e)
              (map binding_of s.db.entries ++ map unbound done.new)
              (In-append_left (binding_of e) (map binding_of s.db.entries) (map unbound done.new)
                (In-map binding_of e s.db.entries row))
              f in
          let (e', i, q) =
            In-map_inv binding_of (binding_of e) s'.db.entries
              (subst (In (binding_of e)) (sym done.bindings) kept) in
          inr (e', i, ap (λ b. b.0) (sym q), ap (λ b. b.1) (sym q))
    ]

-- What a push has taken out of the table: the ids, in all of which an entry of the user on the machine
-- stood whose number the payload does not have; every other entry is still there, with its binding.
pub record IsBounded (user : String) (req : EntrySyncRequest) (s s' : Session) : Type 0 where
  pub gone : List String
  pub half : length gone * 2 ≤ length (filter is_numbered (entries_on s.db user req.machine_id))
  pub nothing : req.entries ≡ [] → gone ≡ []
  pub absent_ones :
      (id : String)
      → In id gone
      → (e : EntryRow) × In e (entries_on s.db user req.machine_id) × (e.id ≡ id) × IsAbsent req e
  pub others :
      (e : EntryRow)
      → In e s.db.entries
      → In e.id gone
        ⊎ ((e' : EntryRow) × In e' s'.db.entries
            × (e'.id ≡ e.id)
            × (e'.bound_instance_id ≡ e.bound_instance_id))

-- By a named user, on a sound session where no entry is bound to an empty id, with readings that the
-- ledger takes: a snapshot that is not forced and goes through takes away at most half of the
-- entries with a number that the user had on the machine, and none when the payload is empty. Each
-- was an entry there whose number the payload does not have, and every other entry of the table, on
-- any machine and of any user, stands with its binding.
pub sync_entries-bound :
    (user : String) (req : EntrySyncRequest) (s s' : Session) (ids : List String) (removed : List ℤ)
    → user ≢ ""
    → req.machine_id ≢ ""
    → IsSound s
    → ((e : EntryRow) → In e s.db.entries → e.bound_instance_id ≢ some "")
    → All IsMetered req.entries
    → req.mode ≡ snapshot
    → req.force ≡ false
    → sync_entries user req s ≡ (ok (ids, removed), s')
    → IsBounded user req s s'
unfolding sync_entries doomed_rows gets existing_rows number_of ◌>>=◌
sync_entries-bound user req s s' ids removed named machine h whole metered mode unforced run =
    let existing = existing_rows s.db user req.machine_id in
    elim (Bool-cases (refused req existing)) [
      | inl t ↦
          let run' : raise {A = List String × List ℤ} conflict s ≡ (ok (ids, removed), s') =
            rw t at run in
          absurd (raise_inv conflict (ids, removed) s s' run')
      | inr f ↦
          let (_, _, s2, run2, done) =
            sync_entries-bindings user named req s machine h whole metered f in
          let same : s2 ≡ s' = ap (λ r. r.1) (sym run2 ∙ run) in
          let done' = subst (IsSynced user req s) same done in
          let is : doomed_rows req existing ≡ absent req.entries existing = rw mode refl in
          let (b, z) = guard_bound req existing f mode unforced in
          let l = length-map (λ kv. kv.1) (absent req.entries existing) in
          let rows =
            length-index_last number_of (λ r. r.id) (entries_on s.db user req.machine_id) [] in
          record {
            gone = map (λ kv. kv.1) (absent req.entries existing);
            half = omega arith;
            nothing = λ e. ap (map (λ kv. kv.1)) (z e);
            absent_ones = absent-row s.db user req;
            others = λ e row.
                subst
                  (λ d.
                    In e.id (map (λ kv. kv.1) d)
                    ⊎ ((e' : EntryRow) × In e' s'.db.entries
                        × (e'.id ≡ e.id)
                        × (e'.bound_instance_id ≡ e.bound_instance_id)))
                  is (stays user req s s' done' e row);
          }
    ]
