-- ===== src/Instances/Asserts.antt =====
-- Assertions over a canonical document: what one leaves, and a run of several.
use loobric_server.Base.{
  ◌≡◌, refl, String, Bool, true, false, Option, none, some, str_eq, str_eq_iff, opt_eq, arith,
}
use loobric_server.Base.Int.{ℤ, int_eq_iff}
use loobric_server.Base.Dict.{insert, string_eq, lookup-insert}
use loobric_server.Contract.{Field, InstanceCanonical}
use loobric_server.Contract.Provenance.{asserted}
use loobric_server.Instances.{
  Assertion, name, catalog_type_id, status, geometry, usage, presets, off_schema, AssertEntry,
  int_opt_eq, same_leaf, is_same_value_noop, set_leaf,
}

-- Whether two assertions write one leaf.
unfoldable pub same_path : Assertion → Assertion → Bool
same_path (name _) (name _) = true
same_path (catalog_type_id _) (catalog_type_id _) = true
same_path (status _) (status _) = true
same_path (geometry j _) (geometry k _) = str_eq j k
same_path _ _ = false

-- An assertion that the door takes.
abbrev pub IsTaken : Assertion → Type 0
IsTaken (name _) = Unit
IsTaken (catalog_type_id _) = Unit
IsTaken (status none) = Unit
IsTaken (status (some v)) = v ≡ "retired"
IsTaken (geometry _ _) = Unit
IsTaken _ = ⊥

opt_eq_refl : (o : Option String) → opt_eq o o ≡ true
opt_eq_refl none = refl
opt_eq_refl (some t) = (str_eq_iff t t).1 refl

int_opt_eq_refl : (o : Option ℤ) → int_opt_eq o o ≡ true
int_opt_eq_refl none = refl
int_opt_eq_refl (some z) = (int_eq_iff z z).1 refl

same_leaf-own :
    {A : Type 0} (eq : Option A → Option A → Bool) (v : Option A) (unit : Option String)
    (source : String)
    → eq v v ≡ true
    → same_leaf eq (some (record { value = v; unit = unit; source = source })) v unit source ≡ true
unfolding same_leaf
same_leaf-own eq v unit source h = rw (h, opt_eq_refl unit, (str_eq_iff source source).1 refl) refl

-- The document after an assertion: it is there as asserted, and every other leaf stays.
pub record HasLeaf (c c' : InstanceCanonical) (e : AssertEntry) (actor : String) : Type 0 where
  pub stands : is_same_value_noop c' e actor ≡ true
  pub others :
      (d : AssertEntry)
      → same_path e.what d.what ≡ false
      → is_same_value_noop c' d actor ≡ is_same_value_noop c d actor

module _ (c : InstanceCanonical) (actor : String) where
  others_name :
      (f : Field String) (w : Assertion) (u : Option String)
      → same_path (name none) w ≡ false
      → is_same_value_noop (record c { name = f }) (record { what = w; unit = u }) actor
        ≡ is_same_value_noop c (record { what = w; unit = u }) actor
  unfolding is_same_value_noop same_path
  others_name f (name v) u h = ground arith
  others_name f _ u h = refl

  others_catalog :
      (f : Field String) (w : Assertion) (u : Option String)
      → same_path (catalog_type_id none) w ≡ false
      → is_same_value_noop (record c { catalog_type_id = f }) (record { what = w; unit = u }) actor
        ≡ is_same_value_noop c (record { what = w; unit = u }) actor
  unfolding is_same_value_noop same_path
  others_catalog f (catalog_type_id v) u h = ground arith
  others_catalog f _ u h = refl

  others_status :
      (f : Field String) (w : Assertion) (u : Option String)
      → same_path (status none) w ≡ false
      → is_same_value_noop (record c { status = some f }) (record { what = w; unit = u }) actor
        ≡ is_same_value_noop c (record { what = w; unit = u }) actor
  unfolding is_same_value_noop same_path
  others_status f (status v) u h = ground arith
  others_status f _ u h = refl

  others_geometry :
      (k : String) (f : Field ℤ) (w : Assertion) (u : Option String)
      → same_path (geometry k none) w ≡ false
      → is_same_value_noop
          (record c { geometry = insert k f c.geometry })
          (record { what = w; unit = u })
          actor
        ≡ is_same_value_noop c (record { what = w; unit = u }) actor
  unfolding is_same_value_noop same_path
  others_geometry k f (geometry j v) u h = rw (lookup-insert k j f c.geometry, h) refl
  others_geometry k f _ u h = refl

  pub set_leaf-HasLeaf :
      (what : Assertion) (unit : Option String)
      → IsTaken what
      → (c' : InstanceCanonical) × (set_leaf c (record { what = what; unit = unit }) actor
          ≡ some c')
        × HasLeaf c c' (record { what = what; unit = unit }) actor
  unfolding set_leaf is_same_value_noop same_path
  set_leaf-HasLeaf (name v) unit t = (
    _,
    refl,
    record {
      stands = same_leaf-own opt_eq v unit (asserted actor) (opt_eq_refl v);
      others = λ d h. others_name _ d.what d.unit h;
    },
  )
  set_leaf-HasLeaf (catalog_type_id v) unit t = (
    _,
    refl,
    record {
      stands = same_leaf-own opt_eq v unit (asserted actor) (opt_eq_refl v);
      others = λ d h. others_catalog _ d.what d.unit h;
    },
  )
  set_leaf-HasLeaf (status v) unit t = (
    _,
    refl,
    record {
      stands = same_leaf-own opt_eq v unit (asserted actor) (opt_eq_refl v);
      others = λ d h. others_status _ d.what d.unit h;
    },
  )
  set_leaf-HasLeaf (geometry k v) unit t = (
    _,
    refl,
    record {
      stands =
          rw
            (
              lookup-insert k k (record { value = v; unit = unit; source = asserted actor })
                  c.geometry,
              (str_eq_iff k k).1 refl,
            )
            (same_leaf-own int_opt_eq v unit (asserted actor) (int_opt_eq_refl v));
      others = λ d h. others_geometry k _ d.what d.unit h;
    },
  )
  set_leaf-HasLeaf usage unit t = absurd t
  set_leaf-HasLeaf presets unit t = absurd t
  set_leaf-HasLeaf off_schema unit t = absurd t
