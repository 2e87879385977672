-- ===== src/Base/Exec/Runs.antt =====
-- Total correctness of actions: from a state with `P` an action returns and ends with `P`. One
-- rule for each way to build an action.
use mathlib.Core.Path.{◌≡◌, refl, sym, ap}
use mathlib.Core.Bool.{Bool, true, false}
use mathlib.Core.List.{List, [], ◌∷◌}
use loobric_server.Base.Tests.{if◌then◌else◌}
use loobric_server.Base.Exec.{
  Exec, Error, Result, ok, err, pure, raise, gets, modify, continue, ◌>>=◌, for_each,
}

abbrev pub Returns : {A : Type 0} → Result A → Type 0
Returns (ok a) = Unit
Returns (err e) = ⊥

pub record Runs {S A : Type 0} (P : S → Type 0) (m : Exec S A) : Type 0 where
  pub at : (s : S) → P s → Returns (m s).0 × P (m s).1

module _ {S : Type 0} {P : S → Type 0} where
  pub Runs-pure : {A : Type 0} (a : A) → Runs P (pure a)
  unfolding pure
  Runs-pure a = record { at = λ s h. (tt, h) }

  pub Runs-gets : {A : Type 0} (f : S → A) → Runs P (gets f)
  unfolding gets
  Runs-gets f = record { at = λ s h. (tt, h) }

  pub Runs-modify : (f : S → S) → ((s : S) → P s → P (f s)) → Runs P (modify f)
  unfolding modify
  Runs-modify f keep = record { at = λ s h. (tt, keep s h) }

  continue-Runs :
      {A B : Type 0} (r : Result A) (f : A → Exec S B) (s : S)
      → Returns r
      → P s
      → ((a : A) → Runs P (f a))
      → Returns (continue r f s).0 × P (continue r f s).1
  continue-Runs (ok a) f s q h kf = (kf a).at s h
  continue-Runs (err e) f s q h kf = absurd q

  pub Runs-bind :
      {A B : Type 0} (m : Exec S A) (f : A → Exec S B)
      → Runs P m
      → ((a : A) → Runs P (f a))
      → Runs P (m >>= f)
  unfolding ◌>>=◌
  Runs-bind m f km kf = record {
    at = λ s h. continue-Runs (m s).0 f (m s).1 (km.at s h).0 (km.at s h).1 kf;
  }

  -- What a query read may be used of the value that it gives.
  pub Runs-gets_bind :
      {A B : Type 0} (g : S → A) (f : A → Exec S B)
      → ((s : S) → P s → Runs P (f (g s)))
      → Runs P (gets g >>= f)
  unfolding ◌>>=◌
  Runs-gets_bind g f kf = record { at = λ s h. (kf s h).at s h }

  pub Runs-if :
      {A : Type 0} (b : Bool) (m n : Exec S A)
      → (b ≡ true → Runs P m)
      → (b ≡ false → Runs P n)
      → Runs P (if b then m else n)
  Runs-if true m n km kn = km refl
  Runs-if false m n km kn = kn refl

  pub Runs-for_each :
      {A : Type 0} (xs : List A) (body : A → Exec S (Unit {0}))
      → ((x : A) → Runs P (body x))
      → Runs P (for_each xs body)
  unfolding for_each
  Runs-for_each [] body step = Runs-pure tt
  Runs-for_each (x ∷ xs) body step =
      Runs-bind (body x) (λ _. for_each xs body) (step x) (λ _. Runs-for_each xs body step)

pub ruleset runs_rules = (Runs-pure, Runs-gets, Runs-modify, Runs-bind, Runs-if, Runs-for_each)

-- The value and the final state of an action that returns.
pub Runs-ok :
    {S A : Type 0} {P : S → Type 0} (m : Exec S A)
    → Runs P m
    → (s : S) → P s
    → (a : A) × (s' : S) × (m s ≡ (ok a, s')) × P s'
Runs-ok {S} {A} {P} m run s h = go (m s).0 (m s).1 refl (run.at s h).0 (run.at s h).1
  where
    go :
        (r : Result A) (t : S)
        → m s ≡ (r, t)
        → Returns r
        → P t
        → (a : A) × (s' : S) × (m s ≡ (ok a, s')) × P s'
    go (ok a) t e q p = (a, t, e, p)
    go (err x) t e q p = absurd q

-- A chain that returned: its first action did, and the rest from there.
pub bind_inv :
    {S A B : Type 0} (m : Exec S A) (f : A → Exec S B) (s s' : S) (b : B)
    → (m >>= f) s ≡ (ok b, s')
    → (a : A) × (t : S) × (m s ≡ (ok a, t)) × (f a t ≡ (ok b, s'))
unfolding ◌>>=◌
bind_inv {S} {A} {B} m f s s' b h = go (m s).0 (m s).1 refl h
  where
    go :
        (r : Result A) (t : S)
        → m s ≡ (r, t)
        → continue r f t ≡ (ok b, s')
        → (a : A) × (t : S) × (m s ≡ (ok a, t)) × (f a t ≡ (ok b, s'))
    go (ok a) t e k = (a, t, e, k)
    go (err x) t e k = cc

abbrev value_of : {A : Type 0} → A → Result A → A
value_of d (ok a) = a
value_of d (err e) = d

pub pure_inv : {S A : Type 0} (a b : A) (s s' : S) → pure a s ≡ (ok b, s') → (b ≡ a) × (s' ≡ s)
unfolding pure
pure_inv a b s s' h = (ap (λ r. value_of a r.0) (sym h), ap (λ r. r.1) (sym h))

pub raise_inv : {S A : Type 0} (e : Error) (b : A) (s s' : S) → raise e s ≡ (ok b, s') → ⊥
unfolding raise
raise_inv e b s s' h = cc
