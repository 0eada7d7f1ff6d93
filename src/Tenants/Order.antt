-- ===== src/Tenants/Order.antt =====
-- How the order of the table decides an abbreviation.
use mathlib.Core.List.{append_assoc}
use wazire.Base.{ℕ, ◌≡◌, refl, true, none, [], ◌∷◌, ◌++◌, Bool-cases, inl, inr}
use wazire.Base.Text.{Text, text_eq, includes, to_lower, trim}
use wazire.Base.Dict.{Dict, lookup}
use wazire.Tenants.Abbreviate.{abbreviate, partial_match}
use wazire.Tenants.Includes.{includes_trans}

partial_match-found :
    (before rest : Dict Text) (k a s : Text)
    → includes s k ≡ true
    → partial_match (before ++ (k, a) ∷ rest) s ≡ partial_match (before ++ (k, a) ∷ []) s
unfolding partial_match
partial_match-found [] rest k a s h = rw h refl
partial_match-found ((j, b) ∷ before) rest k a s h =
    rw (partial_match-found before rest k a s h) refl

lookup-prefix :
    (before rest : Dict Text) (s : Text) → lookup s (before ++ rest) ≡ none → lookup s before ≡ none
unfolding lookup
lookup-prefix [] rest s h = refl
lookup-prefix ((j, b) ∷ before) rest s h = elim (Bool-cases (text_eq j s)) [
  | inl e ↦ let h' = rw e at h in absurd (cc)
  | inr e ↦ rw e (lookup-prefix before rest s (rw e at h))
]

-- A name that includes a key decides nothing beyond the first key in the table that this key
-- includes: where the name is longer than the limit and is no key itself, the entries behind that
-- first key, also that of the longer key, make no difference to its abbreviation.
pub shadowed_keys :
    (before rest : Dict Text) (k a longer name : Text) (max_length : ℕ)
    → includes longer k ≡ true
    → includes (trim (to_lower name)) longer ≡ true
    → lookup (trim (to_lower name)) (before ++ (k, a) ∷ rest) ≡ none
    → abbreviate (before ++ (k, a) ∷ rest) name max_length
      ≡ abbreviate (before ++ (k, a) ∷ []) name max_length
unfolding abbreviate
shadowed_keys before rest k a longer name m inner outer whole =
    let part =
      lookup-prefix (before ++ (k, a) ∷ []) rest (trim (to_lower name))
        (rw (append_assoc before ((k, a) ∷ []) rest) whole) in
    let here = includes_trans (trim (to_lower name)) longer k outer inner in
    rw (whole, part, partial_match-found before rest k a (trim (to_lower name)) here) refl
