-- ===== src/Base/Dict.antt =====
-- A JavaScript object used as a dictionary: its entries in insertion order. Writing a key that is
-- there keeps its place, as in `{ ...m, [k]: v }`, and `delete` drops the key.
use wazire.Base.{
  ◌≡◌, refl, Bool, true, false, ◌||◌, All, Option, none, some, List, [], ◌∷◌, arith, if◌then◌else◌,
}
use wazire.Base.Text.{Text, text_eq, text_eq_iff}

abbrev pub Dict {ℓ} : Type ℓ → Type ℓ
Dict V = List (Text × V)

module _ {ℓ} {V : Type ℓ} where
  unfoldable pub lookup : Text → Dict V → Option V
  lookup k [] = none
  lookup k ((j, v) ∷ m) = if text_eq j k then some v else lookup k m

  unfoldable pub insert : Text → V → Dict V → Dict V
  insert k v [] = (k, v) ∷ []
  insert k v ((j, w) ∷ m) = if text_eq j k then (k, v) ∷ m else (j, w) ∷ insert k v m

  unfoldable pub delete : Text → Dict V → Dict V
  delete k [] = []
  delete k ((j, v) ∷ m) = if text_eq j k then delete k m else (j, v) ∷ delete k m

  pub lookup-insert :
      (k j : Text) (v : V) (m : Dict V)
      → lookup j (insert k v m) ≡ (if text_eq k j then some v else lookup j m)
  unfolding lookup insert
  lookup-insert k j v [] = refl
  lookup-insert k j v ((i, w) ∷ m) =
      ground (arith, text_eq_iff k j, text_eq_iff i k, text_eq_iff i j, lookup-insert k j v m)

  pub lookup-delete :
      (k j : Text) (m : Dict V) → lookup j (delete k m) ≡ (if text_eq k j then none else lookup j m)
  unfolding lookup delete
  lookup-delete k j [] = ground arith
  lookup-delete k j ((i, w) ∷ m) =
      ground (arith, text_eq_iff k j, text_eq_iff i k, text_eq_iff i j, lookup-delete k j m)

pub text_eq_refl : (k : Text) → text_eq k k ≡ true
text_eq_refl k = (text_eq_iff k k).1 refl

abbrev pub keys {ℓ} : {V : Type ℓ} → Dict V → List Text
keys [] = []
keys ((k, v) ∷ m) = k ∷ keys m

-- `keys` as a set, and the entries whose key is outside of it.
abbrev pub contains : List Text → Text → Bool
contains [] k = false
contains (j ∷ js) k = text_eq j k || contains js k

module _ {ℓ} {V : Type ℓ} where
  pub without : List Text → Dict V → Dict V
  without ks [] = []
  without ks ((k, v) ∷ m) = if contains ks k then without ks m else (k, v) ∷ without ks m

  pub without-nil : (m : Dict V) → without [] m ≡ m
  unfolding without
  without-nil [] = refl
  without-nil ((k, v) ∷ m) = rw (without-nil m)

  pub without-delete :
      (k : Text) (ks : List Text) (m : Dict V) → without ks (delete k m) ≡ without (k ∷ ks) m
  unfolding without delete
  without-delete k ks [] = refl
  without-delete k ks ((j, v) ∷ m) =
      ground (arith, text_eq_iff k j, text_eq_iff j k, without-delete k ks m)

  without-covered :
      (ks : List Text) (m : Dict V) → All (λ k. contains ks k ≡ true) (keys m) → without ks m ≡ []
  unfolding without
  without-covered ks [] h = refl
  without-covered ks ((k, v) ∷ m) (h, hs) = rw h (without-covered ks m hs)

  pub delete_of_none : (k : Text) (m : Dict V) → lookup k m ≡ none → delete k m ≡ m
  unfolding delete lookup
  delete_of_none k [] h = refl
  delete_of_none k ((j, v) ∷ m) h = ground (arith, delete_of_none k m)

contains_later :
    (j : Text) (ks js : List Text)
    → All (λ k. contains ks k ≡ true) js
    → All (λ k. contains (j ∷ ks) k ≡ true) js
contains_later j ks [] h = tt
contains_later j ks (k ∷ js) (h, hs) = (ground arith, contains_later j ks js hs)

contains_self : (ks : List Text) → All (λ k. contains ks k ≡ true) ks
contains_self [] = tt
contains_self (k ∷ ks) = (rw (text_eq_refl k), contains_later k ks ks (contains_self ks))

pub without-keys {ℓ} : {V : Type ℓ} (m : Dict V) → without (keys m) m ≡ []
without-keys m = without-covered (keys m) m (contains_self (keys m))

pub lookup-contains {ℓ} :
    {V : Type ℓ} (q : Text) (m : Dict V) (v : V) → lookup q m ≡ some v → contains (keys m) q ≡ true
unfolding lookup
lookup-contains q [] w h = cc
lookup-contains q ((k, v) ∷ m) w h = ground (arith, lookup-contains q m w)
