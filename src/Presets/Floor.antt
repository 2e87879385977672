-- ===== src/Presets/Floor.antt =====
-- The floor of a preset: what a contribution that passes the checks of presets.py has.
use loobric_server.Base.{
  ℕ, zero, suc, ◌≡◌, ◌≢◌, refl, inl, inr, String, Bool, true, false, not, ◌&&◌, Option, none, some,
  any, str_eq, str_eq_iff, is_none, Bool-cases, some_inj, subst, arith, if◌then◌else◌,
}
use loobric_server.Base.Int.{ℤ, pos, negsuc}
use loobric_server.Base.Json.{Json, null, boolean, number, str, array, object, Members, get}
use loobric_server.Contract.{Leaf}
use loobric_server.Presets.{
  Texts, to_text, Normalized, ◌then◌, guard, op_types, stripped, clean_value, clean_members,
  clean_value_unit, clean_op_type, normalize_members, normalize_contribution,
}
use loobric_server.Presets.Door.{known_op}

-- A leaf, if it is there, has a number above zero.
abbrev pub IsPositive : Option Leaf → Type 0
IsPositive none = Unit
IsPositive (some l) = (n : ℕ) × (l.value ≡ pos (suc n))

-- A preset above the floor.
pub record IsPreset (n : Normalized) : Type 0 where
  pub named : n.origin ≢ ""
  pub labelled : n.label ≢ ""
  pub operation : known_op n.op_type ≡ true
  pub engineering :
      (is_none n.contents.vc && is_none n.contents.fz && is_none n.contents.ratio) ≡ false
  pub vc_positive : IsPositive n.contents.vc
  pub fz_positive : IsPositive n.contents.fz
  pub ratio_positive : IsPositive n.contents.ratio

-- A chain of checks that passed.
then_inv :
    {A B : Type 0} (o : Option A) (f : A → Option B) (b : B)
    → (o then f) ≡ some b
    → (a : A) × (o ≡ some a) × (f a ≡ some b)
unfolding ◌then◌
then_inv none f b h = ground arith
then_inv (some a) f b h = (a, refl, h)

guard_inv : (b : Bool) (u : Unit {0}) → guard b ≡ some u → b ≡ true
unfolding guard
guard_inv true u h = refl
guard_inv false u h = ground arith

not_empty : (t : String) → not (str_eq t "") ≡ true → t ≢ ""
not_empty t h e = ground (arith, str_eq_iff t "")

module _ (py : Texts) where
  clean_value-pos : (v : Json) (z : ℤ) → clean_value py v ≡ some z → (n : ℕ) × (z ≡ pos (suc n))
  unfolding clean_value
  clean_value-pos null z h = ground arith
  clean_value-pos (boolean b) z h = ground arith
  clean_value-pos (number (pos zero)) z h = ground arith
  clean_value-pos (number (pos (suc n))) z h = (n, ground arith)
  clean_value-pos (number (negsuc n)) z h = ground arith
  clean_value-pos (str t) z h = ground arith
  clean_value-pos (array xs) z h = ground arith
  clean_value-pos (object ms) z h = ground arith

  clean_members-IsPositive :
      (ms : Members) (l : Option Leaf) → clean_members py ms ≡ some l → IsPositive l
  unfolding clean_members
  clean_members-IsPositive ms l h =
      let (_, _, h1) = then_inv _ _ l h in
      let (v, ev, h2) = then_inv _ _ l h1 in
      let (u, _, h3) = then_inv _ _ l h2 in
      let (_, _, h4) = then_inv _ _ l h3 in
      subst IsPositive (some_inj h4) (clean_value-pos (get "value" ms) v ev)

  clean_value_unit-IsPositive :
      (v : Json) (l : Option Leaf) → clean_value_unit py v ≡ some l → IsPositive l
  unfolding clean_value_unit
  clean_value_unit-IsPositive null l h = subst IsPositive (some_inj h) tt
  clean_value_unit-IsPositive (boolean b) l h = ground arith
  clean_value_unit-IsPositive (number z) l h = ground arith
  clean_value_unit-IsPositive (str t) l h = ground arith
  clean_value_unit-IsPositive (array xs) l h = ground arith
  clean_value_unit-IsPositive (object ms) l h = clean_members-IsPositive ms l h

  one_of :
      (t : String) (o : Option String)
      → (if any (str_eq t) op_types then some (some t) else none) ≡ some o
      → known_op o ≡ true
  one_of t o h = elim (Bool-cases (any (str_eq t) op_types)) [
    | inl e ↦
        let h' : some (some t) ≡ some o = rw e at h in
        subst (λ x. known_op x ≡ true) (some_inj h') e
    | inr e ↦ ground arith
  ]

  clean_op_type-known :
      (v : Json) (o : Option String) → clean_op_type py v ≡ some o → known_op o ≡ true
  unfolding clean_op_type
  clean_op_type-known null o h = subst (λ x. known_op x ≡ true) (some_inj h) refl
  clean_op_type-known (boolean b) o h = one_of (py.strip (to_text py (boolean b))) o h
  clean_op_type-known (number z) o h = one_of (py.strip (to_text py (number z))) o h
  clean_op_type-known (str t) o h = one_of (py.strip (to_text py (str t))) o h
  clean_op_type-known (array xs) o h = one_of (py.strip (to_text py (array xs))) o h
  clean_op_type-known (object ms) o h = one_of (py.strip (to_text py (object ms))) o h

  normalize_members-IsPreset :
      (ms : Members) (n : Normalized) → normalize_members py ms ≡ some n → IsPreset n
  unfolding normalize_members
  normalize_members-IsPreset ms n h =
      let (u0, g0, h0) = then_inv _ _ n h in
      let (u1, g1, h1) = then_inv _ _ n h0 in
      let (material, _, h2) = then_inv _ _ n h1 in
      let (op_type, g3, h3) = then_inv _ _ n h2 in
      let (vc, g4, h4) = then_inv _ _ n h3 in
      let (fz, g5, h5) = then_inv _ _ n h4 in
      let (ratio, g6, h6) = then_inv _ _ n h5 in
      let (u7, g7, h7) = then_inv _ _ n h6 in
      let (extras, _, h8) = then_inv _ _ n h7 in
      let (_, _, h9) = then_inv _ _ n h8 in
      let some_leaf = guard_inv _ u7 g7 in
      subst IsPreset (some_inj h9) (record {
        named = not_empty (stripped py (get "origin" ms)) (guard_inv _ u0 g0);
        labelled = not_empty (stripped py (get "label" ms)) (guard_inv _ u1 g1);
        operation = clean_op_type-known (get "op_type" ms) op_type g3;
        engineering = ground arith;
        vc_positive = clean_value_unit-IsPositive (get "vc" ms) vc g4;
        fz_positive = clean_value_unit-IsPositive (get "fz" ms) fz g5;
        ratio_positive = clean_value_unit-IsPositive (get "ratio" ms) ratio g6;
      })

  -- A contribution that passes has an origin and a label that are not blank, an operation of the
  -- vocabulary or none, and at least one engineering value; each such value is above zero.
  pub normalize_contribution-IsPreset :
      (payload : Json) (n : Normalized) → normalize_contribution py payload ≡ some n → IsPreset n
  unfolding normalize_contribution
  normalize_contribution-IsPreset null n h = ground arith
  normalize_contribution-IsPreset (boolean b) n h = ground arith
  normalize_contribution-IsPreset (number z) n h = ground arith
  normalize_contribution-IsPreset (str t) n h = ground arith
  normalize_contribution-IsPreset (array xs) n h = ground arith
  normalize_contribution-IsPreset (object ms) n h = normalize_members-IsPreset ms n h
