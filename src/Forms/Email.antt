-- ===== src/Forms/Email.antt =====
-- What the email validator accepts, without reference to how it reads a text.
use wazire.Base.{
  ℕ, ◌≤◌, ◌≡◌, ◌≢◌, ◌↔◌, refl, ap, sym, ◌∙◌, Bool, true, false, ◌&&◌, [], ◌∷◌, ◌++◌, ◌⊎◌, inl, inr,
  all, All, length, leb, arith, Bool-cases, ◌==◌, ==_iff, subst,
}
use wazire.Base.Text.{Text}
use wazire.Forms.Validators.{
  is_local, is_domain, is_letter, is_tld, match_domain, match_local, validate_email, is_blank,
}

-- A text with the parts of an address: a local part, a domain and, behind its last point, letters.
pub record IsAddress (s : Text) : Type 0 where
  pub user : Text
  pub domain : Text
  pub tld : Text
  pub spelled : s ≡ user ++ b'@' ∷ (domain ++ b'.' ∷ tld)
  pub user_given : user ≢ []
  pub domain_given : domain ≢ []
  pub user_plain : All (λ c. is_local c ≡ true) user
  pub domain_plain : All (λ c. is_domain c ≡ true) domain
  pub tld_letters : All (λ c. is_letter c ≡ true) tld
  pub tld_long : 2 ≤ length tld

all_iff : (p : ℕ → Bool) (s : Text) → (all p s ≡ true) ↔ All (λ c. p c ≡ true) s
all_iff p [] = (λ _. tt, λ _. refl)
all_iff p (c ∷ s) = ground (arith, all_iff p s)

-- What `match_domain` accepts, after something was read or not.
record IsDomain (started : Bool) (s : Text) : Type 0 where
  domain : Text
  tld : Text
  spelled : s ≡ domain ++ b'.' ∷ tld
  given : (started ≡ true) ⊎ (domain ≢ [])
  plain : All (λ c. is_domain c ≡ true) domain
  letters : All (λ c. is_letter c ≡ true) tld
  long : 2 ≤ length tld

match_domain_sound :
    (started : Bool) (s : Text) → match_domain started s ≡ true → IsDomain started s
unfolding match_domain
match_domain_sound started [] h = cc
match_domain_sound started (c ∷ s) h = elim (Bool-cases (started && ((c == b'.') && is_tld s))) [
  | inl e ↦
      let point : (started ≡ true)
          × (c == b'.' ≡ true)
          × (leb 2 (length s) ≡ true)
          × (all is_letter s ≡ true) =
        ground arith in
      record {
        domain = [];
        tld = s;
        spelled = ap (λ d. d ∷ s) ((==_iff c b'.').0 point.1);
        given = inl point.0;
        plain = tt;
        letters = (all_iff is_letter s).0 point.3;
        long = ground arith;
      }
  | inr e ↦
      let more : (is_domain c ≡ true) × (match_domain true s ≡ true) = ground arith in
      let r = match_domain_sound true s more.1 in
      record {
        domain = c ∷ r.domain;
        tld = r.tld;
        spelled = ap (λ t. c ∷ t) r.spelled;
        given = inr (λ e. cc);
        plain = (more.0, r.plain);
        letters = r.letters;
        long = r.long;
      }
]

match_domain_complete :
    (started : Bool) (domain tld : Text)
    → (started ≡ true) ⊎ (domain ≢ [])
    → All (λ c. is_domain c ≡ true) domain
    → is_tld tld ≡ true
    → match_domain started (domain ++ b'.' ∷ tld) ≡ true
unfolding match_domain
match_domain_complete started [] tld g d t = ground arith
match_domain_complete started (c ∷ domain) tld g (d, ds) t =
    ground (arith, match_domain_complete true domain tld (inl refl) ds t)

-- What `match_local` accepts: a local part, after something was read or not, and a domain.
record IsLocal (started : Bool) (s : Text) : Type 0 where
  user : Text
  rest : Text
  spelled : s ≡ user ++ b'@' ∷ rest
  given : (started ≡ true) ⊎ (user ≢ [])
  plain : All (λ c. is_local c ≡ true) user
  ends : match_domain false rest ≡ true

match_local_sound : (started : Bool) (s : Text) → match_local started s ≡ true → IsLocal started s
unfolding match_local
match_local_sound started [] h = cc
match_local_sound started (c ∷ s) h =
    elim (Bool-cases (started && ((c == b'@') && match_domain false s))) [
      | inl e ↦
          let at : (started ≡ true) × (c == b'@' ≡ true) × (match_domain false s ≡ true) =
            ground arith in
          record {
            user = [];
            rest = s;
            spelled = ap (λ d. d ∷ s) ((==_iff c b'@').0 at.1);
            given = inl at.0;
            plain = tt;
            ends = at.2;
          }
      | inr e ↦
          let more : (is_local c ≡ true) × (match_local true s ≡ true) = ground arith in
          let r = match_local_sound true s more.1 in
          record {
            user = c ∷ r.user;
            rest = r.rest;
            spelled = ap (λ t. c ∷ t) r.spelled;
            given = inr (λ e. cc);
            plain = (more.0, r.plain);
            ends = r.ends;
          }
    ]

match_local_complete :
    (started : Bool) (user rest : Text)
    → (started ≡ true) ⊎ (user ≢ [])
    → All (λ c. is_local c ≡ true) user
    → match_domain false rest ≡ true
    → match_local started (user ++ b'@' ∷ rest) ≡ true
unfolding match_local
match_local_complete started [] rest g d t = ground arith
match_local_complete started (c ∷ user) rest g (d, ds) t =
    ground (arith, match_local_complete true user rest (inl refl) ds t)

started_given : (A : Type 0) → (false ≡ true) ⊎ A → A
started_given A (inl h) = cc
started_given A (inr a) = a

match_local_iff : (s : Text) → (match_local false s ≡ true) ↔ IsAddress s
match_local_iff s = (
  λ h.
      let l = match_local_sound false s h in
      let d = match_domain_sound false l.rest l.ends in
      record {
        user = l.user;
        domain = d.domain;
        tld = d.tld;
        spelled = l.spelled ∙ ap (λ t. l.user ++ b'@' ∷ t) d.spelled;
        user_given = started_given _ l.given;
        domain_given = started_given _ d.given;
        user_plain = l.plain;
        domain_plain = d.plain;
        tld_letters = d.letters;
        tld_long = d.long;
      },
  λ a.
      let letters : all is_letter a.tld ≡ true = (all_iff is_letter a.tld).1 a.tld_letters in
      let tld : is_tld a.tld ≡ true = ground (arith, a.tld_long) in
      subst (λ t. match_local false t ≡ true) (sym a.spelled)
        (match_local_complete false a.user _ (inr a.user_given) a.user_plain
          (match_domain_complete false a.domain a.tld (inr a.domain_given) a.domain_plain tld)),
)

-- An email address is accepted exactly if it is not blank and is spelled as an address.
pub validate_email_iff :
    (s : Text) → ((validate_email s).is_valid ≡ true) ↔ ((is_blank s ≡ false) × IsAddress s)
unfolding validate_email
validate_email_iff s =
    let (sound, complete) = match_local_iff s in
    (λ h. (ground arith, sound (ground arith)), λ (n, a). let m = complete a in ground arith)
