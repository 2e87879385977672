-- ===== src/Labels/Normal.antt =====
-- The properties of `normalize_code` and `new_unique_code`.
use loobric_server.Base.{
  ℕ, ◌≡◌, refl, ◌≢◌, inl, inr, ap, sym, ◌∙◌, subst, String, true, false, not, ◌||◌, none, some,
  some_inj, List, [], ◌∷◌, map, every, nat_eq, str_eq, str_eq_iff, find?, find?-none, find?-In, In,
  arith, Option-cases, if◌then◌else◌,
}
use loobric_server.Labels.{
  in_alphabet, canonical_digit, without, is_empty_code, CodeText, normalize_code, new_unique_code,
}

-- A text that is over the alphabet has no space around it and is in upper case.
abbrev pub KeepsCodes : CodeText → Type 0
KeepsCodes str = (c : List ℕ) → every in_alphabet c ≡ true → (str.strip c ≡ c) × (str.upper c ≡ c)

canonical_digit-fixed : (c : ℕ) → in_alphabet c ≡ true → canonical_digit c ≡ c
unfolding in_alphabet canonical_digit
canonical_digit-fixed c h = ground arith

not_separator : (c : ℕ) → in_alphabet c ≡ true → (nat_eq c b'-' ≡ false) × (nat_eq c b' ' ≡ false)
unfolding in_alphabet
not_separator c h = (ground arith, ground arith)

cleaned_fixed :
    (c : List ℕ)
    → every in_alphabet c ≡ true
    → (without b' ' c ≡ c) × (without b'-' c ≡ c) × (map canonical_digit c ≡ c)
cleaned_fixed [] h = (refl, refl, refl)
cleaned_fixed (x ∷ xs) h =
    let (a, b, m) = cleaned_fixed xs (ground arith) in
    let here : in_alphabet x ≡ true = ground arith in
    let (dash, space) = not_separator x here in
    (ground arith, ground arith, cc (canonical_digit-fixed x here, m))

accepted_code :
    (d c : List ℕ)
    → (if is_empty_code d || not (every in_alphabet d) then none else some d) ≡ some c
    → (d ≡ c) × (is_empty_code d ≡ false) × (every in_alphabet d ≡ true)
accepted_code d c h = (ground arith, ground arith, ground arith)

-- Given that `strip` and `upper` leave a text over the alphabet alone: a code that `normalize_code`
-- returns is not empty, is over the alphabet, and is returned unchanged when it is given again.
pub normalize_code_idem :
    (str : CodeText) (raw c : List ℕ)
    → KeepsCodes str
    → normalize_code str raw ≡ some c
    → (c ≢ []) × (every in_alphabet c ≡ true) × (normalize_code str c ≡ some c)
unfolding normalize_code
normalize_code_idem str raw c keeps h =
    let (same, full, over) =
      accepted_code (map canonical_digit (without b'-' (without b' ' (str.upper (str.strip raw)))))
        c h in
    let over' : every in_alphabet c ≡ true = ap (every in_alphabet) (sym same) ∙ over in
    let full' : is_empty_code c ≡ false = ap is_empty_code (sym same) ∙ full in
    let (spaces, dashes, digits) = cleaned_fixed c over' in
    let (stripped, raised) = keeps c over' in
    (
      λ e. true_ne (sym (ap is_empty_code e) ∙ full'),
      over',
      rw (stripped, raised, spaces, dashes, digits, full', over') refl,
    )
  where
    true_ne : true ≡ false → ⊥
    true_ne e = ground arith

-- A code that `new_unique_code` returns is one of those drawn and stands on no label; when it gives
-- up, every code that was drawn stands on a label.
pub new_unique_code-new :
    (labels attempts : List String)
    → ((c : String) → new_unique_code labels attempts ≡ some c → In c attempts × (In c labels → ⊥))
      × (new_unique_code labels attempts ≡ none → (c : String) → In c attempts → In c labels)
unfolding new_unique_code
new_unique_code-new labels [] = (λ c e. absurd (none_ne e), λ e c i. absurd i)
  where
    none_ne : {c : String} → none ≡ some c → ⊥
    none_ne e = ground arith
new_unique_code-new labels (x ∷ xs) =
    let (drawn, failed) = new_unique_code-new labels xs in
    elim (Option-cases (find? (str_eq x) labels)) [
      | inl n ↦ rw n (
        λ c e. let same : x ≡ c = some_inj e in (inl (sym same), λ i. fresh x c n same i),
        λ e. absurd (some_ne e),
      )
      | inr (y, f) ↦ rw f (
        λ c e. let (i, new) = drawn c e in (inr i, new),
        λ e c i. elim i [
          | inl q ↦
              let (row, t) = find?-In (str_eq x) y labels f in
              subst (λ z. In z labels) (sym ((str_eq_iff x y).0 t) ∙ sym q) row
          | inr j ↦ failed e c j
        ],
      )
    ]
  where
    some_ne : {c : String} → some c ≡ none → ⊥
    some_ne e = ground arith

    fresh : (a c : String) → find? (str_eq a) labels ≡ none → a ≡ c → In c labels → ⊥
    fresh a c n same i =
        let miss = find?-none (str_eq a) c labels n i in ground (arith, str_eq_iff a c)
