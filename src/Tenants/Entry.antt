-- ===== src/Tenants/Entry.antt =====
-- An entry of the table of abbreviations.
use Prim.Native.String.{String}
use wazire.Base.Text.{Text, text}

abbrev pub entry : String → String → Text × Text
entry name abbreviation = (text name, text abbreviation)
