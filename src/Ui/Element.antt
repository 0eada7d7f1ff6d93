-- ===== src/Ui/Element.antt =====
-- A page as the list of what it shows, in order, less styles, icons and movement. `E` is the type of
-- what a user can make happen.
use wazire.Base.{
  ℕ, ◌≡◌, refl, ◌⊎◌, inl, inr, Bool, true, false, Option, none, some, All, List, [], ◌∷◌, ◌++◌,
  if◌then◌else◌,
}
use wazire.Base.Text.{Text}

-- A file as the browser hands it over.
pub record File : Type 0 where
  pub name : Text
  pub type_text : Text
  pub size : ℕ

pub data Element (E : Type 0) : Type 0 where
  said : Text → Element E
  picture : Text → Element E  -- with its `alt`
  link : Text → Text → Element E  -- with its target
  button : Text → Bool → E → Element E  -- its label, whether it is on, and `onClick` or `onSubmit`
  idle_button : Text → Element E  -- a button that does nothing
  entry : Text → Text → Bool → (Text → E) → Element E  -- its label, its value, whether it is on
  checkbox : Text → Bool → (Bool → E) → Element E
  choice : List (Text × Text) → Text → (Text → E) → Element E  -- values with labels, and the value
  picker : Text → (File → E) → Element E  -- an input for a file, with its label

abbrev pub View : Type 0 → Type 0
View E = List (Element E)

module _ {E : Type 0} where
  -- `{b && (…)}`.
  abbrev pub shown_if : Bool → View E → View E
  shown_if b v = if b then v else []

  -- `{message && (<p>{message}</p>)}`, which shows nothing for a message that is empty.
  abbrev pub said_some : Option Text → View E
  said_some none = []
  said_some (some []) = []
  said_some (some (c ∷ t)) = said (c ∷ t) ∷ []

  -- The parts of a view, one below the other.
  unfoldable pub stack : List (View E) → View E
  stack [] = []
  stack (v ∷ vs) = v ++ stack vs

  -- What a user can make happen at an element, and in a view.
  abbrev pub OffersAt : E → Element E → Type 0
  OffersAt e (said t) = ⊥
  OffersAt e (picture t) = ⊥
  OffersAt e (link t target) = ⊥
  OffersAt e (button t b e') = (b ≡ true) × (e ≡ e')
  OffersAt e (idle_button t) = ⊥
  OffersAt e (entry t v b f) = (b ≡ true) × (s : Text) × (e ≡ f s)
  OffersAt e (checkbox t v f) = (b : Bool) × (e ≡ f b)
  OffersAt e (choice options v f) = (s : Text) × (e ≡ f s)
  OffersAt e (picker t f) = (x : File) × (e ≡ f x)

  abbrev pub Offers : E → View E → Type 0
  Offers e [] = ⊥
  Offers e (x ∷ v) = OffersAt e x ⊎ Offers e v

  -- What follows offers, the whole offers.
  pub Offers-append_right : (e : E) (u v : View E) → Offers e v → Offers e (u ++ v)
  Offers-append_right e [] v o = o
  Offers-append_right e (x ∷ u) v o = inr (Offers-append_right e u v o)

  module _ (P : E → Type 0) where
    -- All that can happen at an element satisfies P, and all that can happen in a view.
    abbrev pub AllowsAt : Element E → Type 0
    AllowsAt (said t) = Unit {0}
    AllowsAt (picture t) = Unit {0}
    AllowsAt (link t target) = Unit {0}
    AllowsAt (button t b e) = b ≡ true → P e
    AllowsAt (idle_button t) = Unit {0}
    AllowsAt (entry t v b f) = b ≡ true → (s : Text) → P (f s)
    AllowsAt (checkbox t v f) = (b : Bool) → P (f b)
    AllowsAt (choice options v f) = (s : Text) → P (f s)
    AllowsAt (picker t f) = (x : File) → P (f x)

    abbrev pub Allows : View E → Type 0
    Allows [] = Unit {0}
    Allows (x ∷ v) = AllowsAt x × Allows v

    AllowsAt-OffersAt : (e : E) (x : Element E) → AllowsAt x → OffersAt e x → P e
    AllowsAt-OffersAt e (said t) h o = absurd o
    AllowsAt-OffersAt e (picture t) h o = absurd o
    AllowsAt-OffersAt e (link t target) h o = absurd o
    AllowsAt-OffersAt e (button t b e') h (on, o) = rw o (h on)
    AllowsAt-OffersAt e (idle_button t) h o = absurd o
    AllowsAt-OffersAt e (entry t v b f) h (on, s, o) = rw o (h on s)
    AllowsAt-OffersAt e (checkbox t v f) h (b, o) = rw o (h b)
    AllowsAt-OffersAt e (choice options v f) h (s, o) = rw o (h s)
    AllowsAt-OffersAt e (picker t f) h (x, o) = rw o (h x)

    pub Allows-Offers : (e : E) (v : View E) → Allows v → Offers e v → P e
    Allows-Offers e [] h o = absurd o
    Allows-Offers e (x ∷ v) (h, hs) (inl o) = AllowsAt-OffersAt e x h o
    Allows-Offers e (x ∷ v) (h, hs) (inr o) = Allows-Offers e v hs o

    pub Allows-append : (u v : View E) → Allows u → Allows v → Allows (u ++ v)
    Allows-append [] v hu hv = hv
    Allows-append (x ∷ u) v (h, hu) hv = (h, Allows-append u v hu hv)

    pub Allows-shown_if : (b : Bool) (v : View E) → (b ≡ true → Allows v) → Allows (shown_if b v)
    Allows-shown_if true v h = h refl
    Allows-shown_if false v h = tt

    pub Allows-said_some : (message : Option Text) → Allows (said_some message)
    Allows-said_some none = tt
    Allows-said_some (some []) = tt
    Allows-said_some (some (c ∷ t)) = (tt, tt)

    pub Allows-unless :
        (b : Bool) (v : View E) → (b ≡ false → Allows v) → Allows (if b then [] else v)
    Allows-unless true v h = tt
    Allows-unless false v h = h refl

    pub Allows-test :
        (b : Bool) (u v : View E) → Allows u → (b ≡ false → Allows v) → Allows (if b then u else v)
    Allows-test true u v hu hv = hu
    Allows-test false u v hu hv = hv refl

    pub Allows-if : (b : Bool) (u v : View E) → Allows u → Allows v → Allows (if b then u else v)
    Allows-if true u v hu hv = hu
    Allows-if false u v hu hv = hv

    pub Allows-stack : (vs : List (View E)) → All Allows vs → Allows (stack vs)
    unfolding stack
    Allows-stack [] h = tt
    Allows-stack (v ∷ vs) (h, hs) = Allows-append v (stack vs) h (Allows-stack vs hs)
