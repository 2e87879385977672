-- ===== src/Entries/Sync/Pushed.antt =====
-- The steps of a push over a sound session, and what becomes of the bindings in each.
use loobric_server.Base.{
  ℕ, ◌≡◌, ◌≢◌, refl, sym, ap, ◌∙◌, subst, ◌⊎◌, inl, inr, String, Bool, Option, none, some, List, [],
  ◌∷◌, ◌++◌, append_assoc, map, find?-In, delete_where, In, In-map, In-append, In-map_inv, str_eq,
  arith, some_inj, All,
}
use loobric_server.Base.Tables.{map-update_where}
use loobric_server.Base.Int.{ℤ, pos}
use loobric_server.Base.Dict.{Dict, lookup, integer_eq}
use loobric_server.Base.Exec.{pure, modify, ◌>>=◌}
use loobric_server.Base.Exec.Runs.{
  Runs, runs_rules, Runs-bind, Runs-pure, Runs-gets, Runs-gets_bind,
}
use loobric_server.Store.{Session, constraints_hold}
use loobric_server.Store.Frame.{IsSound, draw_ok, flush_ok, drawn}
use loobric_server.Store.Unique.{unique_on-update_where, unique_on-append, constraints_iff}
use loobric_server.Store.Rows.{EntryRow}
use loobric_server.Usage.{accepted, number, hours_unit}
use loobric_server.Usage.Attribution.{ingest-Accounts}
use loobric_server.Entries.{update_entry}
use loobric_server.Entries.Sync.{
  EntryIn, EntrySyncRequest, blank_row, add_entry, row_at, meter, target_row, pushed_row,
  push_entry, push_all,
}

-- The binding of a row, by its id.
abbrev pub binding_of : EntryRow → String × Option String
binding_of e = (e.id, e.bound_instance_id)

abbrev pub unbound : String → String × Option String
unbound id = (id, none)

-- Every reading of the payload is one that the ledger takes.
abbrev pub IsMetered : EntryIn → Type 0
IsMetered e = (e.usage_hours ≡ none) ⊎ ((n : ℕ) × (e.usage_hours ≡ some (pos n)))

-- The bindings are those of `base`, and new rows without one.
pub record IsPushed (base : List (String × Option String)) (s : Session) : Type 0 where
  pub sound : IsSound s
  pub new : List String
  pub kept : map binding_of s.db.entries ≡ base ++ map unbound new

map-snoc :
    {A B : Type 0} (f : A → B) (x : A) (xs : List A) → map f (xs ++ x ∷ []) ≡ map f xs ++ f x ∷ []
map-snoc f x [] = refl
map-snoc f x (y ∷ ys) = ap (λ zs. f y ∷ zs) (map-snoc f x ys)

pub map-delete_where :
    {A B : Type 0} (f : A → B) (p : B → Bool) (xs : List A)
    → map f (delete_where (λ x. p (f x)) xs) ≡ delete_where p (map f xs)
map-delete_where f p [] = refl
map-delete_where f p (x ∷ xs) = ground (arith, map-delete_where f p xs)

module _ (base : List (String × Option String)) (user : String) (named : user ≢ "") where
  -- The session with a new blank row.
  abbrev added : String → Session → Session
  added machine s = record (drawn s) {
    db = record s.db { entries = s.db.entries ++ blank_row user machine [] (s.uuid s.drawn) ∷ [] };
  }

  added-IsPushed :
      (machine : String) (s : Session) → IsPushed base s → IsPushed base (added machine s)
  unfolding constraints_hold
  added-IsPushed machine s h = record {
    sound = record {
      holds = (constraints_iff (added machine s).db).1 (
        ((constraints_iff s.db).0 h.sound.holds).0,
        unique_on-append (λ e. e.bound_instance_id) (blank_row user machine [] (s.uuid s.drawn))
            s.db.entries ((constraints_iff s.db).0 h.sound.holds).1 (λ x k i e q. cc q),
      );
      ids = h.sound.ids;
    };
    new = h.new ++ s.uuid s.drawn ∷ [];
    kept =
        map-snoc binding_of (blank_row user machine [] (s.uuid s.drawn)) s.db.entries
        ∙ ap (λ xs. xs ++ unbound (s.uuid s.drawn) ∷ []) h.kept
        ∙ append_assoc base (map unbound h.new) (unbound (s.uuid s.drawn) ∷ [])
        ∙ ap (λ xs. base ++ xs) (sym (map-snoc unbound (s.uuid s.drawn) h.new));
  }

  add_entry-Runs : (machine : String) → Runs (IsPushed base) (add_entry user machine [])
  unfolding add_entry ◌>>=◌
  add_entry-Runs machine = record {
    at = λ s h.
        let k = added-IsPushed machine s h in
        rw (draw_ok s) (rw (flush_ok (added machine s) k.sound.holds) (tt, k));
  }

  module _ (whole : (b : String × Option String) → In b base → b.1 ≢ some "") where
    whole-IsPushed :
        (s : Session) (row : EntryRow)
        → IsPushed base s
        → In row s.db.entries
        → row.bound_instance_id ≢ some ""
    whole-IsPushed s row h i e =
        let j = subst (In (binding_of row)) h.kept (In-map binding_of row s.db.entries i) in
        elim (In-append (binding_of row) base (map unbound h.new) j) [
          | inl k ↦ whole (binding_of row) k e
          | inr k ↦
              let (id, _, q) = In-map_inv unbound (binding_of row) h.new k in
              let u = ap (λ b. b.1) q in cc (u, e)
        ]

    meter-Runs :
        (machine src : String) (row : EntryRow) (n : ℕ)
        → row.bound_instance_id ≢ some ""
        → Runs (IsPushed base) (meter user machine src (some row) (some (pos n)))
    unfolding meter accepted ◌>>=◌ pure
    meter-Runs machine src row n ne = record {
      at = λ s h.
          let (s', d, rows, held, run, _, _, _, ch) =
            ingest-Accounts user row machine src (number (pos n)) (some hours_unit) n s named ne
              h.sound refl in
          rw run (
            tt,
            record {
              sound = ch.sound;
              new = h.new;
              kept =
                  ap (map binding_of) ch.entries_eq
                  ∙ map-update_where (λ e. str_eq e.id row.id)
                      (λ e. record e { usage_baseline_instance_id = e.bound_instance_id })
                      binding_of (λ e. refl) s.db.entries
                  ∙ h.kept;
            },
          );
    }

    any_meter-Runs :
        (machine src : String) (s : Session) (id : String) (hours : Option ℤ)
        → IsPushed base s
        → (hours ≡ none) ⊎ ((n : ℕ) × (hours ≡ some (pos n)))
        → Runs (IsPushed base) (meter user machine src (row_at s.db id) hours)
    unfolding meter
    any_meter-Runs machine src s id hours h ok_hours =
        go (row_at s.db id) hours
          (λ row e. whole-IsPushed s row h (find?-In (λ r. str_eq r.id id) row s.db.entries e).0)
          ok_hours
      where
        go :
            (row : Option EntryRow) (hours : Option ℤ)
            → ((r : EntryRow) → row ≡ some r → r.bound_instance_id ≢ some "")
            → (hours ≡ none) ⊎ ((n : ℕ) × (hours ≡ some (pos n)))
            → Runs (IsPushed base) (meter user machine src row hours)
        go none hours ne m = search runs_rules
        go (some r) none ne m = search runs_rules
        go (some r) (some z) ne (inl e) = absurd (cc e)
        go (some r) (some z) ne (inr (n, e)) =
            subst (λ y. Runs (IsPushed base) (meter user machine src (some r) (some y)))
              (sym (some_inj e)) (meter-Runs machine src r n (ne r refl))

    update-Runs :
        (id : String) (f : EntryRow → EntryRow)
        → ((e : EntryRow) → binding_of (f e) ≡ binding_of e)
        → Runs (IsPushed base) (update_entry id f)
    unfolding constraints_hold modify
    update-Runs id f keep = record {
      at = λ s h. (
        tt,
        record {
          sound = record {
            holds =
                rw
                  (unique_on-update_where (λ e. e.bound_instance_id) (λ e. str_eq e.id id) f
                    (λ e. ap (λ b. b.1) (keep e)) s.db.entries)
                  h.sound.holds;
            ids = h.sound.ids;
          };
          new = h.new;
          kept = map-update_where (λ e. str_eq e.id id) f binding_of keep s.db.entries ∙ h.kept;
        },
      );
    }

    target_row-Runs :
        (machine : String) (found : Option String)
        → Runs (IsPushed base) (target_row user machine found)
    unfolding target_row
    target_row-Runs machine (some id) = search runs_rules
    target_row-Runs machine none = search (runs_rules, add_entry-Runs)

    push_entry-Runs :
        (req : EntrySyncRequest) (src : String) (existing : Dict ℤ String) (e : EntryIn)
        → IsMetered e
        → Runs (IsPushed base) (push_entry user req src existing e)
    unfolding push_entry pushed_row
    push_entry-Runs req src existing e ok_hours =
        Runs-bind _ _ (target_row-Runs req.machine_id (lookup e.tool_number existing)) λ target.
          Runs-gets_bind (λ s. row_at s.db target.0) _
            λ s h.
              Runs-bind _ _ (any_meter-Runs req.machine_id src s target.0 e.usage_hours h ok_hours)
                λ _. Runs-bind _ _ (Runs-gets (λ s. s.now)) λ now.
                  Runs-bind _ _ (update-Runs target.0 (pushed_row user req src e now) (λ r. refl))
                    λ _. Runs-pure target

    pub push_all-Runs :
        (req : EntrySyncRequest) (src : String) (existing : Dict ℤ String) (es : List EntryIn)
        → All IsMetered es
        → Runs (IsPushed base) (push_all user req src existing es)
    unfolding push_all
    push_all-Runs req src existing [] m = search runs_rules
    push_all-Runs req src existing (e ∷ es) m =
        let first = push_entry-Runs req src existing e m.0 in
        let rest = push_all-Runs req src existing es m.1 in search (runs_rules, first, rest)
