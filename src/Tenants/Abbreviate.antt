-- ===== src/Tenants/Abbreviate.antt =====
-- `abbreviateTenantName` and `getCompactAbbreviation`. Lower and upper case are those of ASCII.
-- A name that every object has as a property, such as constructor, is not looked at.
use mathlib.Core.List.{reverse}
use wazire.Base.{
  ℕ, ◌&&◌, ◌-◌, Option, none, some, List, [], ◌∷◌, ◌++◌, map, leb, ◌==◌, length, is_empty,
  if◌then◌else◌,
}
use wazire.Base.Text.{Text, text, to_lower, trim, includes, is_space, join}
use wazire.Base.Dict.{Dict, lookup}
use wazire.Tenants.Table.{nigerian_universities}

-- `toUpperCase` of a letter.
abbrev upper_unit : ℕ → ℕ
upper_unit c = if leb b'a' c && leb c b'z' then c - 32 else c

-- The parts of `split(/\s+/)` that are not empty: the runs without white space. `word` is the
-- current run, reversed.
abbrev add_word : Text → List Text → List Text
add_word [] ws = ws
add_word (c ∷ word) ws = reverse (c ∷ word) ∷ ws

unfoldable pub words_from : Text → Text → List Text
unfolding is_space
words_from word [] = add_word word []
words_from word (c ∷ s) =
    let next = words_from [] s in
    let more = words_from (c ∷ word) s in if is_space c then add_word word next else more

-- `word[0].toUpperCase()`.
abbrev initial : Text → Text
initial [] = []
initial (c ∷ s) = upper_unit c ∷ []

unfoldable pub initials : Text → Text
unfolding words_from join
initials name = join (text ".") (map initial (words_from [] name)) ++ text "."

-- The first entry whose key the name includes.
unfoldable pub partial_match : Dict Text → Text → Option Text
partial_match [] name = none
partial_match ((key, abbreviation) ∷ table) name =
    if includes name key then some abbreviation else partial_match table name

abbrev or_else : Option Text → Text → Text
or_else none t = t
or_else (some s) t = s

-- Every abbreviation of the table has a letter, so none of them is falsy.
abbrev by_table : Option Text → Option Text → Text → Text
by_table (some a) found rest = a
by_table none found rest = or_else found rest

unfoldable pub abbreviate : Dict Text → Text → ℕ → Text
unfolding partial_match initials lookup
abbreviate table name max_length =
    if is_empty name
    then text "Wazire"
    else if leb (length name) max_length
    then name
    else (let normalized = trim (to_lower name) in
        by_table (lookup normalized table) (partial_match table normalized) (initials name))

unfoldable pub abbreviate_tenant_name : Text → ℕ → Text
unfolding abbreviate
abbreviate_tenant_name name max_length = abbreviate nigerian_universities name max_length

-- `replace(/\./g, '')`.
unfoldable pub without_dots : Text → Text
without_dots [] = []
without_dots (c ∷ s) = if c == b'.' then without_dots s else c ∷ without_dots s

unfoldable pub get_compact_abbreviation : Text → ℕ → Text
unfolding without_dots
get_compact_abbreviation name max_length = without_dots (abbreviate_tenant_name name max_length)
