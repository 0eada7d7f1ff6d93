-- ===== src/Tenants/Table/Latest.antt =====
-- Additional state universities, seminaries, enterprises, vocational institutes and the latest ones.
-- Lines 408 to 517 of frontend/src/utils/tenantAbbreviations.ts.
use wazire.Base.{[], ◌∷◌}
use wazire.Base.Text.{Text}
use wazire.Base.Dict.{Dict}
use wazire.Tenants.Entry.{entry}

unfoldable pub latest : Dict Text
latest =
    entry "adamawa state university" "A.D.S.U."
    ∷ entry "bayelsa medical university" "B.M.U."
    ∷ entry "borno state university" "B.O.S.U."
    ∷ entry "chukwuemeka odumegwu ojukwu university" "C.O.O.U."
    ∷ entry "cross river university of technology" "C.R.U.T."
    ∷ entry "delta state university of science and technology" "D.S.U.S.T."
    ∷ entry "ebonyi state university" "E.B.S.U."
    ∷ entry "edo university iyamho" "E.U.I."
    ∷ entry "gombe state university" "G.S.U."
    ∷ entry "gombe state university of science and technology" "G.S.U.S.T."
    ∷ entry "ibeno university" "I.U."
    ∷ entry "igbinedion university okada" "I.U.O."
    ∷ entry "northwest university" "N.W.U."
    ∷ entry "oou university" "O.U."
    ∷ entry "osun university" "O.U."
    ∷ entry "plateau state university" "P.S.U."
    ∷ entry "sokoto state university" "S.S.U."
    ∷ entry "sule lamido university kafin hausa" "S.L.U.K.H."
    ∷ entry "taraba state university" "T.S.U."
    ∷ entry "umaru musa yaradua university" "U.M.Y.U."
    ∷ entry "yobe state university" "Y.S.U."
    ∷ entry "zamfara state university" "Z.A.S.U."
    ∷ entry "baptist theological seminary" "B.T.S."
    ∷ entry "catholic institute of west africa" "C.I.W.A."
    ∷ entry "ecumenical theological seminary" "E.T.S."
    ∷ entry "methodist theological institute" "M.T.I."
    ∷ entry "nigeria baptist theological seminary" "N.B.T.S."
    ∷ entry "spiritan international school of theology" "S.I.S.T."
    ∷ entry "spiritan school of philosophy" "S.S.P."
    ∷ entry "st augustines major seminary" "S.A.M.S."
    ∷ entry "st benedicts monastery" "S.B.M."
    ∷ entry "st joseph major seminary" "S.J.M.S."
    ∷ entry "st pauls major seminary" "S.P.M.S."
    ∷ entry "theological college of northern nigeria" "T.C.N.N."
    ∷ entry "trinity theological seminary" "T.T.S."
    ∷ entry "west africa theological seminary" "W.A.T.S."
    ∷ entry "african institute of science and technology" "A.I.S.T."
    ∷ entry "christopher technological institute" "C.T.I."
    ∷ entry "college of development studies" "C.D.S."
    ∷ entry "computer training institute" "C.T.I."
    ∷ entry "digital bridge institute" "D.B.I."
    ∷ entry "federal training centre" "F.T.C."
    ∷ entry "galaxy innovation institute" "G.I.I."
    ∷ entry "global technology institute" "G.T.I."
    ∷ entry "information technology institute" "I.T.I."
    ∷ entry "institute of chartered accountants" "I.C.A."
    ∷ entry "institute of management technology" "I.M.T."
    ∷ entry "kaduna business school" "K.B.S."
    ∷ entry "lagos business school" "L.B.S."
    ∷ entry "nigerian institute of journalism" "N.I.J."
    ∷ entry "nigerian institute of management" "N.I.M."
    ∷ entry "nigerian institute of safety professionals" "N.I.S.P."
    ∷ entry "pace innovation institute" "P.I.I."
    ∷ entry "pan african university" "P.A.U."
    ∷ entry "project management institute" "P.M.I."
    ∷ entry "software technology institute" "S.T.I."
    ∷ entry "technology incubation centre" "T.I.C."
    ∷ entry "abuja school of social and political thoughts" "A.S.S.P.T."
    ∷ entry "artisans training centre" "A.T.C."
    ∷ entry "business training institute" "B.T.I."
    ∷ entry "centre for arts and culture" "C.A.C."
    ∷ entry "centre for information technology" "C.I.T."
    ∷ entry "craft development centre" "C.D.C."
    ∷ entry "fashion and design institute" "F.D.I."
    ∷ entry "film and broadcast institute" "F.B.I."
    ∷ entry "food technology institute" "F.T.I."
    ∷ entry "hospitality and tourism institute" "H.T.I."
    ∷ entry "industrial training fund" "I.T.F."
    ∷ entry "jewellery and design institute" "J.D.I."
    ∷ entry "mechanical training centre" "M.T.C."
    ∷ entry "national institute of marketing" "N.I.M."
    ∷ entry "nigerian institute of building" "N.I.B."
    ∷ entry "nigerian institute of estate surveyors" "N.I.E.S."
    ∷ entry "nigerian institute of quantity surveyors" "N.I.Q.S."
    ∷ entry "nigerian institute of architects" "N.I.A."
    ∷ entry "technical training institute" "T.T.I."
    ∷ entry "vocational training centre" "V.T.C."
    ∷ entry "ahmadu bello university zaria" "A.B.U."
    ∷ entry "american university of nigeria yola" "A.U.N."
    ∷ entry "baze university" "B.U."
    ∷ entry "benedictine university" "B.U."
    ∷ entry "capital city university kano" "C.C.U."
    ∷ entry "city university of technology" "C.U.T."
    ∷ entry "eastern university" "E.U."
    ∷ entry "federal university of agriculture abeokuta" "F.U.A.A."
    ∷ entry "federal university of agriculture makurdi" "F.U.A.M."
    ∷ entry "federal university of health sciences otukpo" "F.U.H.S.O."
    ∷ entry "federal university of petroleum resources" "F.U.P.R.E."
    ∷ entry "federal university of technology babura" "F.U.T.B."
    ∷ entry "federal university of technology jalingo" "F.U.T.J."
    ∷ entry " Gregory university" "G.U."
    ∷ entry "ira university" "I.U."
    ∷ entry "mcpherson university" "M.U."
    ∷ entry "nigerian turkish nile university" "N.T.N.U."
    ∷ entry "pan atlantic university" "P.A.U."
    ∷ entry "skyline university nigeria" "S.U.N."
    ∷ entry "university of africa toru orua" "U.A.T.O."
    ∷ entry "university of agriculture benue" "U.A.B."
    ∷ entry "university of agriculture cross river" "U.A.C.R."
    ∷ entry "university of agriculture kebbi" "U.A.K."
    ∷ entry "university of agriculture ogwashi-ukwu" "U.A.O."
    ∷ entry "university of agriculture osun" "U.A.O."
    ∷ []
