-- ===== src/Tenants/Table/Specialized.antt =====
-- Additional colleges of education, specialized institutions and more private universities.
-- Lines 311 to 406 of frontend/src/utils/tenantAbbreviations.ts.
use wazire.Base.{[], ◌∷◌}
use wazire.Base.Text.{Text}
use wazire.Base.Dict.{Dict}
use wazire.Tenants.Entry.{entry}

unfoldable pub specialized : Dict Text
specialized =
    entry "ad college of education" "A.C.E."
    ∷ entry "adeyemi college of education" "A.C.E."
    ∷ entry "baichi college of education" "B.C.E."
    ∷ entry "bamidele olumilua university of education" "B.O.U.E."
    ∷ entry "college of arabic and islamic legal studies" "C.A.I.L.S."
    ∷ entry "college of education azare" "C.E.A."
    ∷ entry "college of education egbe" "C.E.E."
    ∷ entry "college of education hong" "C.E.H."
    ∷ entry "college of education ilesa" "C.E.I."
    ∷ entry "college of education kafanchan" "C.E.K."
    ∷ entry "college of education maru" "C.E.M."
    ∷ entry "college of education minna" "C.E.M."
    ∷ entry "college of education moro" "C.E.M."
    ∷ entry "college of education omuo-ekiti" "C.E.O."
    ∷ entry "cornerstone college of education" "C.C.E."
    ∷ entry "delta state college of education technical" "D.S.C.E.T."
    ∷ entry "eboolawe college of education" "E.C.E."
    ∷ entry "edatore college of education" "E.C.E."
    ∷ entry "fct college of education" "F.C.T.C.E."
    ∷ entry "city college of education" "C.C.E."
    ∷ entry "flying dove college of education" "F.D.C.E."
    ∷ entry "harvard college of education" "H.C.E."
    ∷ entry "ibeno college of education" "I.C.E."
    ∷ entry "ijebu-ode college of education" "I.O.C.E."
    ∷ entry "international college of education" "I.C.E."
    ∷ entry "jibwis college of education" "J.C.E."
    ∷ entry "klabele college of education" "K.C.E."
    ∷ entry "muftau olanihun college of education" "M.O.C.E."
    ∷ entry "nana college of education" "N.C.E."
    ∷ entry "nigerian army school of education" "N.A.S.E."
    ∷ entry "nwafor orizu college of education" "N.O.C.E."
    ∷ entry "peaceland college of education" "P.C.E."
    ∷ entry "regina pacis college of education" "R.P.C.E."
    ∷ entry "saki city polytechnic" "S.C.P."
    ∷ entry "the college of education" "T.C.E."
    ∷ entry "unity college of education" "U.C.E."
    ∷ entry "world bank college of education" "W.B.C.E."
    ∷ entry "african think tank university" "A.T.T.U."
    ∷ entry "college of nursing and midwifery" "C.N.M."
    ∷ entry "elizade university" "E.U."
    ∷ entry "federal school of statistics" "F.S.S."
    ∷ entry "ikeja college of accountancy" "I.C.A."
    ∷ entry "jibwis academy" "J.A."
    ∷ entry "moniya business school" "M.B.S."
    ∷ entry "nigeria army university biu" "N.A.U.B."
    ∷ entry "nigerian college of aviation technology" "N.C.A.T."
    ∷ entry "nigerian maritime university" "N.M.U."
    ∷ entry "nigerian railway academy" "N.R.A."
    ∷ entry "nigerian stock exchange" "N.S.E."
    ∷ entry "omega university" "O.U."
    ∷ entry "pan african institute" "P.A.I."
    ∷ entry "peace university" "P.U."
    ∷ entry "ace university" "A.U."
    ∷ entry "admiralty university" "A.U."
    ∷ entry "anchor university" "A.U."
    ∷ entry "arthur jarvis university" "A.J.U."
    ∷ entry "claretian university" "C.U."
    ∷ entry "coal city university" "C.C.U."
    ∷ entry "corona university" "C.U."
    ∷ entry "divine mercy university" "D.M.U."
    ∷ entry "edgerly university" "E.U."
    ∷ entry "eight-geo university" "E.G.U."
    ∷ entry "faith university" "F.U."
    ∷ entry "flux university" "F.U."
    ∷ entry "founders university" "F.U."
    ∷ entry "franco british university" "F.B.U."
    ∷ entry "gerar university" "G.U."
    ∷ entry "global innovation university" "G.I.U."
    ∷ entry "isaac university" "I.U."
    ∷ entry "jesuit university" "J.U."
    ∷ entry "johnbosco university" "J.U."
    ∷ entry "jubilee university" "J.U."
    ∷ entry "kola daisi university" "K.D.U."
    ∷ entry "legacy university" "L.U."
    ∷ entry "maritim university" "M.U."
    ∷ entry "maryam university" "M.U."
    ∷ entry "methodist university" "M.U."
    ∷ entry "nigerian university of technology" "N.U.T."
    ∷ entry "obong university" "O.U."
    ∷ entry "palms university" "P.U."
    ∷ entry "precious university" "P.U."
    ∷ entry "prime university" "P.U."
    ∷ entry "pro legislation university" "P.L.U."
    ∷ entry "roseman university" "R.U."
    ∷ entry "solid rock university" "S.R.U."
    ∷ entry "southwestern university" "S.U."
    ∷ entry "united africa university" "U.A.U."
    ∷ entry "university of cairo" "U.C."
    ∷ entry "university of mkar" "U.M."
    ∷ entry "virginia university" "V.U."
    ∷ entry "wisdom university" "W.U."
    ∷ []
