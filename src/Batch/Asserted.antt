-- ===== src/Batch/Asserted.antt =====
-- The asserts of an item, run over its document.
use loobric_server.Base.{
  ℕ, suc, ◌≤◌, ◌≡◌, ◌≢◌, refl, ◌∙◌, String, true, false, none, some, List, [], ◌∷◌, All, inl, inr,
  str_eq_iff, Bool-cases, arith,
}
use loobric_server.Base.Dict.{string_eq}
use loobric_server.Base.Exec.{ok, pure, ◌>>=◌}
use loobric_server.Contract.{InstanceCanonical}
use loobric_server.Store.{Session, constraints_hold}
use loobric_server.Store.Frame.{IsSound, audit_ok, audited}
use loobric_server.Binding.Bridge.Frame.{IsFramed}
use loobric_server.Instances.{
  Assertion, name, catalog_type_id, status, geometry, usage, presets, off_schema, AssertEntry,
  guards_pass, is_same_value_noop, instance_entity,
}
use loobric_server.Instances.Asserts.{same_path, IsTaken, set_leaf-HasLeaf}
use loobric_server.Batch.Item.{assert_from}

pub guards_pass-taken : (a : Assertion) → IsTaken a → guards_pass a ≡ true
unfolding guards_pass
guards_pass-taken (name v) t = refl
guards_pass-taken (catalog_type_id v) t = refl
guards_pass-taken (status none) t = refl
guards_pass-taken (status (some v)) t = (str_eq_iff v "retired").1 t
guards_pass-taken (geometry k v) t = refl
guards_pass-taken usage t = absurd t
guards_pass-taken presets t = absurd t
guards_pass-taken off_schema t = absurd t

-- No two assertions of the list write one leaf.
abbrev pub IsApart : List AssertEntry → Type 0
IsApart [] = Unit
IsApart (e ∷ es) = All (λ (d : AssertEntry). same_path d.what e.what ≡ false) es × IsApart es

-- Every assertion of the list stands in the document.
abbrev pub Stand : InstanceCanonical → String → List AssertEntry → Type 0
Stand c actor es = All (λ e. is_same_value_noop c e actor ≡ true) es

grown : (n m : ℕ) → suc n ≤ m → m ≡ n → ⊥
grown n m h e = omega arith

module _ (user : String) (named : user ≢ "") (id : String) (filled : id ≢ "") (actor : String) where
  pub record IsRun (es : List AssertEntry) (c : InstanceCanonical) (n : ℕ) (s : Session)
      : Type 0 where
    pub doc : InstanceCanonical
    pub count : ℕ
    pub after : Session
    pub run : assert_from user id actor es c n s ≡ (ok (doc, count), after)
    pub stands : Stand doc actor es
    pub others :
        (d : AssertEntry)
        → All (λ (e : AssertEntry). same_path e.what d.what ≡ false) es
        → is_same_value_noop doc d actor ≡ is_same_value_noop c d actor
    pub more : n ≤ count
    pub same : count ≡ n → doc ≡ c
    pub frame : IsFramed s.db s.uuid after

  pub assert_from-IsRun :
      (es : List AssertEntry) (c : InstanceCanonical) (n : ℕ) (s : Session)
      → All (λ (e : AssertEntry). IsTaken e.what) es
      → IsApart es
      → IsSound s
      → IsRun es c n s
  unfolding assert_from pure ◌>>=◌ constraints_hold
  assert_from-IsRun [] c n s t a h = record {
    doc = c;
    count = n;
    after = s;
    run = refl;
    stands = tt;
    others = λ d q. refl;
    more = omega arith;
    same = λ e. refl;
    frame = record {
      instances_eq = refl;
      entries_eq = refl;
      sets_eq = refl;
      maps_eq = refl;
      ledger_eq = refl;
      supply_eq = refl;
      sound = h;
    };
  }
  assert_from-IsRun (e ∷ es) c n s t a h = elim (Bool-cases (is_same_value_noop c e actor)) [
    | inl noop ↦
        let r = assert_from-IsRun es c n s t.1 a.1 h in
        record {
          doc = r.doc;
          count = r.count;
          after = r.after;
          run = rw (guards_pass-taken e.what t.0, noop) r.run;
          stands = (r.others e a.0 ∙ noop, r.stands);
          others = λ d q. r.others d q.1;
          more = r.more;
          same = r.same;
          frame = r.frame;
        }
    | inr fresh ↦
        let (c', written, set) = set_leaf-HasLeaf c actor e.what e.unit t.0 in
        let s1 = audited user "ASSERT" instance_entity id s in
        let r =
          assert_from-IsRun es c' (suc n) s1 t.1 a.1 (record { holds = h.holds; ids = h.ids }) in
        let le = r.more in
        record {
          doc = r.doc;
          count = r.count;
          after = r.after;
          run =
              rw
                (
                  guards_pass-taken e.what t.0,
                  fresh,
                  written,
                  audit_ok user "ASSERT" instance_entity id s named (λ q. cc q) (λ q. cc q) filled
                      h.holds,
                )
                r.run;
          stands = (r.others e a.0 ∙ set.stands, r.stands);
          others = λ d q. r.others d q.1 ∙ set.others d q.0;
          more = omega arith;
          same = λ q. absurd (grown n r.count le q);
          frame = record {
            instances_eq = r.frame.instances_eq;
            entries_eq = r.frame.entries_eq;
            sets_eq = r.frame.sets_eq;
            maps_eq = r.frame.maps_eq;
            ledger_eq = r.frame.ledger_eq;
            supply_eq = r.frame.supply_eq;
            sound = r.frame.sound;
          };
        }
  ]

  -- Assertions that stand change nothing.
  pub assert_from_idle :
      (es : List AssertEntry) (c : InstanceCanonical) (n : ℕ) (s : Session)
      → All (λ (e : AssertEntry). IsTaken e.what) es
      → Stand c actor es
      → assert_from user id actor es c n s ≡ (ok (c, n), s)
  unfolding assert_from pure
  assert_from_idle [] c n s t h = refl
  assert_from_idle (e ∷ es) c n s t h =
      rw (guards_pass-taken e.what t.0, h.0) (assert_from_idle es c n s t.1 h.1)
