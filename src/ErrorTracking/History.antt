-- ===== src/ErrorTracking/History.antt =====
-- The error store against the list of all errors ever tracked.
use wazire.Base.{
  ℕ, zero, suc, ◌-◌, ◌+◌, ◌≤◌, ◌<◌, ◌≡◌, refl, ap, ◌∙◌, List, [], ◌∷◌, ◌++◌, length, drop, arith,
  length-append, length-drop, dec_lt, sym,
}
use mathlib.Core.List.{append-nil, append_assoc}
use wazire.ErrorTracking.{track, shift, get_recent_errors, max_errors}

module _ {ℓ} {A : Type ℓ} where
  -- The last `n` of a list.
  abbrev pub last : ℕ → List A → List A
  last n xs = drop (length xs - n) xs

  unfoldable pub track_all : List A → List A → List A
  track_all [] errors = errors
  track_all (x ∷ xs) errors = track_all xs (track x errors)

  drop-append : (n : ℕ) (xs ys : List A) → n ≤ length xs → drop n (xs ++ ys) ≡ drop n xs ++ ys
  drop-append zero xs ys h = refl
  drop-append (suc n) [] ys h = elim h [ ]
  drop-append (suc n) (x ∷ xs) ys h = drop-append n xs ys (omega arith)

  shift-drop : (xs : List A) → shift xs ≡ drop 1 xs
  shift-drop [] = refl
  shift-drop (x ∷ xs) = refl

  drop-suc : (n : ℕ) (xs : List A) → drop 1 (drop n xs) ≡ drop (suc n) xs
  drop-suc zero xs = refl
  drop-suc (suc n) [] = refl
  drop-suc (suc n) (x ∷ xs) = drop-suc n xs

  track_full :
      (x : A) (errors : List A)
      → length (errors ++ x ∷ []) ≡ 101
      → track x errors ≡ drop 1 (errors ++ x ∷ [])
  unfolding track
  track_full x errors h = rw h (shift-drop (errors ++ x ∷ []))

  track-last :
      (x : A) (log : List A) → track x (last max_errors log) ≡ last max_errors (log ++ x ∷ [])
  unfolding track
  track-last x log = elim (dec_lt (length log) 100) [
    | yes p ↦
        let short : length log - 100 ≡ 0 = omega arith in
        let short' : length (log ++ x ∷ []) - 100 ≡ 0 = omega (arith, length-append log (x ∷ [])) in
        rw (short, short') (ground (arith, length-append log (x ∷ [])))
    | no p ↦
        let d = length log - 100 in
        let pushed = drop d log ++ x ∷ [] in
        let long : length pushed ≡ 101 =
          omega (arith, length-append (drop d log) (x ∷ []), length-drop d log) in
        let next : length (log ++ x ∷ []) - 100 ≡ suc d =
          omega (arith, length-append log (x ∷ [])) in
        track_full x (drop d log) long
        ∙ ap (drop 1) (sym (drop-append d log (x ∷ []) (omega arith)))
        ∙ drop-suc d (log ++ x ∷ [])
        ∙ ap (λ n. drop n (log ++ x ∷ [])) (sym next)
  ]

  track_all-last :
      (xs log : List A) → track_all xs (last max_errors log) ≡ last max_errors (log ++ xs)
  unfolding track_all
  track_all-last [] log = rw (append-nil log)
  track_all-last (x ∷ xs) log =
      ap (track_all xs) (track-last x log)
      ∙ track_all-last xs (log ++ x ∷ [])
      ∙ ap (last max_errors) (append_assoc log (x ∷ []) xs)

  drop-nil : (n : ℕ) → drop {A = A} n [] ≡ []
  drop-nil zero = refl
  drop-nil (suc n) = refl

  drop-drop : (b a c : ℕ) (xs : List A) → c ≡ b + a → drop a (drop b xs) ≡ drop c xs
  drop-drop zero a c xs h = ap (λ n. drop n xs) (omega arith)
  drop-drop (suc b) a c [] h = drop-nil a ∙ sym (drop-nil c)
  drop-drop (suc b) a zero (x ∷ xs) h = absurd (omega arith)
  drop-drop (suc b) a (suc c) (x ∷ xs) h = drop-drop b a c xs (omega arith)

  last-last : (m n : ℕ) (xs : List A) → m ≤ n → last m (last n xs) ≡ last m xs
  last-last m n xs h =
      drop-drop (length xs - n) (length (last n xs) - m) (length xs - m) xs
        (omega (arith, length-drop (length xs - n) xs))

  -- After any errors have been tracked from an empty store, the store holds the last hundred of
  -- them, in their order, and asking it for up to a hundred recent ones, but not for 0, gives the
  -- last that many of all errors ever tracked.
  pub get_recent_errors-track_all :
      (xs : List A) (count : ℕ)
      → 0 < count
      → count ≤ max_errors
      → (track_all xs [] ≡ last max_errors xs)
        × (get_recent_errors count (track_all xs []) ≡ last count xs)
  unfolding get_recent_errors
  get_recent_errors-track_all xs count pos h =
      let all = track_all-last xs [] in
      (all, rw all (ground (arith, last-last count max_errors xs h)))
