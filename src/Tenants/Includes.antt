-- ===== src/Tenants/Includes.antt =====
-- What `includes` finds, and that it is transitive.
use mathlib.Core.List.{append_assoc}
use wazire.Base.{◌≡◌, ◌∙◌, refl, ap, true, [], ◌∷◌, ◌++◌, arith, Bool-cases, inl, inr}
use wazire.Base.Text.{Text, includes, starts_with}

starts_with_sound : (s p : Text) → starts_with s p ≡ true → (post : Text) × (s ≡ p ++ post)
unfolding starts_with
starts_with_sound s [] h = (s, refl)
starts_with_sound [] (c ∷ p) h = cc
starts_with_sound (a ∷ s) (c ∷ p) h =
    let first : a ≡ c = ground arith in
    let rest : starts_with s p ≡ true = ground arith in
    let (post, e) = starts_with_sound s p rest in (post, λ i. first i ∷ e i)

starts_with-append : (p post : Text) → starts_with (p ++ post) p ≡ true
unfolding starts_with
starts_with-append [] [] = refl
starts_with-append [] (c ∷ post) = refl
starts_with-append (c ∷ p) post = ground (arith, starts_with-append p post)

pub includes_sound :
    (s p : Text) → includes s p ≡ true → (pre : Text) × (post : Text) × (s ≡ pre ++ (p ++ post))
unfolding includes
includes_sound [] [] h = ([], [], refl)
includes_sound [] (c ∷ p) h = cc
includes_sound (a ∷ s) p h = elim (Bool-cases (starts_with (a ∷ s) p)) [
  | inl here ↦ let (post, e) = starts_with_sound (a ∷ s) p here in ([], post, e)
  | inr later ↦
      let (pre, post, e) = includes_sound s p (rw later at h) in (a ∷ pre, post, ap (λ t. a ∷ t) e)
]

pub includes-append : (pre p post : Text) → includes (pre ++ (p ++ post)) p ≡ true
unfolding includes
includes-append [] [] [] = refl
includes-append [] [] (c ∷ post) = rw (starts_with-append [] (c ∷ post)) refl
includes-append [] (c ∷ p) post = rw (starts_with-append (c ∷ p) post) refl
includes-append (a ∷ pre) p post = ground (arith, includes-append pre p post)

regroup : (a b p c d : Text) → a ++ ((b ++ (p ++ c)) ++ d) ≡ (a ++ b) ++ (p ++ (c ++ d))
regroup a b p c d = simp append_assoc

-- A text that includes a longer one includes all that the longer one includes.
pub includes_trans :
    (s k p : Text) → includes s k ≡ true → includes k p ≡ true → includes s p ≡ true
includes_trans s k p h i =
    let (a, d, e) = includes_sound s k h in
    let (b, c, f) = includes_sound k p i in
    let whole : s ≡ (a ++ b) ++ (p ++ (c ++ d)) =
      e ∙ ap (λ t. a ++ (t ++ d)) f ∙ regroup a b p c d in
    rw whole (includes-append (a ++ b) p (c ++ d))
