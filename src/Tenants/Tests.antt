-- ===== src/Tenants/Tests.antt =====
-- The theorems on abbreviations at two entries of the table, and names at the whole of it.
use wazire.Base.{◌≡◌, refl, true, none, [], ◌∷◌, ◌++◌}
use wazire.Base.Text.{Text, text, includes, starts_with, to_lower, trim, text_eq, join}
use wazire.Base.Dict.{Dict, lookup}
use wazire.Tenants.Table.{nigerian_universities}
use wazire.Tenants.Abbreviate.{
  abbreviate, abbreviate_tenant_name, get_compact_abbreviation, partial_match, initials,
}

abbrev nigeria : Text
nigeria = text "university of nigeria"

abbrev american : Text
american = text "american university of nigeria"

abbrev yola : Text
yola = text "American University of Nigeria Yola Campus"

abbrev entries : Dict Text
entries = (american, text "A.U.N.") ∷ []

inner : includes american nigeria ≡ true
unfolding includes starts_with text
inner = refl

outer : includes (trim (to_lower yola)) american ≡ true
unfolding includes starts_with text to_lower trim
outer = refl

no_key : lookup (trim (to_lower yola)) ([] ++ (nigeria, text "U.N.N.") ∷ entries) ≡ none
unfolding lookup text_eq text to_lower trim
no_key = refl

benin : get_compact_abbreviation (text "University of Benin") 15 ≡ text "UNIBEN"
unfolding get_compact_abbreviation abbreviate_tenant_name abbreviate nigerian_universities lookup
    text_eq text to_lower trim
benin = refl

yola_campus : abbreviate_tenant_name yola 15 ≡ text "U.N.N."
unfolding abbreviate_tenant_name abbreviate partial_match nigerian_universities lookup text_eq text
    to_lower trim includes starts_with
yola_campus = refl

greenland : abbreviate_tenant_name (text "Greenland University") 15 ≡ text "G.U."
unfolding abbreviate_tenant_name abbreviate partial_match initials join nigerian_universities lookup
    text_eq text to_lower trim includes starts_with
greenland = refl
