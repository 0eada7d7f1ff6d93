-- ===== src/Tenants/Table/Colleges.antt =====
-- Polytechnics and colleges of education.
-- Lines 105 to 201 of frontend/src/utils/tenantAbbreviations.ts.
use wazire.Base.{[], ◌∷◌}
use wazire.Base.Text.{Text}
use wazire.Base.Dict.{Dict}
use wazire.Tenants.Entry.{entry}

unfoldable pub colleges : Dict Text
colleges =
    entry "federal polytechnic ado-ekiti" "F.P.A.E."
    ∷ entry "federal polytechnic bauchi" "F.P.B."
    ∷ entry "federal polytechnic bida" "F.P.B."
    ∷ entry "federal polytechnic damaturu" "F.P.D."
    ∷ entry "federal polytechnic ede" "F.P.E."
    ∷ entry "federal polytechnic ekiti" "F.P.E."
    ∷ entry "federal polytechnic idah" "F.P.I."
    ∷ entry "federal polytechnic ilaro" "F.P.I."
    ∷ entry "federal polytechnic mubi" "F.P.M."
    ∷ entry "federal polytechnic namoda" "F.P.N."
    ∷ entry "federal polytechnic nekede" "F.P.N."
    ∷ entry "federal polytechnic offa" "F.P.O."
    ∷ entry "federal polytechnic oko" "F.P.O."
    ∷ entry "federal polytechnic ukana" "F.P.U."
    ∷ entry "federal polytechnic unwana" "F.P.U."
    ∷ entry "kaduna polytechnic" "K.A.D.P.O.L.Y."
    ∷ entry "hussaini adamu federal polytechnic" "H.A.F.P."
    ∷ entry "waziri umaru federal polytechnic" "W.U.F.P."
    ∷ entry "yaba college of technology" "Y.A.B.A.T.E.C.H."
    ∷ entry "air force institute of technology" "A.F.I.T."
    ∷ entry "petroleum training institute" "P.T.I."
    ∷ entry "osun state polytechnic" "O.S.P.O.L.Y."
    ∷ entry "osun state college of technology" "O.S.C.T.E.C.H."
    ∷ entry "kwara state polytechnic" "K.W.A.R.A.P.O.L.Y."
    ∷ entry "lagos state polytechnic" "L.A.S.P.O.L.Y."
    ∷ entry "plateau state polytechnic" "P.L.A.P.O.L.Y."
    ∷ entry "imo state polytechnic" "I.M.S.P.O.L.Y."
    ∷ entry "enugu state polytechnic" "E.S.P.O.L.Y."
    ∷ entry "benue state polytechnic" "B.E.N.P.O.L.Y."
    ∷ entry "gateway polytechnic" "G.A.T.E.W.A.Y."
    ∷ entry "the polytechnic igbo-owu" "I.G.B.O.O.W.U."
    ∷ entry "kano state polytechnic" "K.A.N.O.P.O.L.Y."
    ∷ entry "hassan usman katsina polytechnic" "H.U.K.P.O.L.Y."
    ∷ entry "kogi state polytechnic" "K.O.G.P.O.L.Y."
    ∷ entry "nasarawa state polytechnic" "N.A.S.P.O.L.Y."
    ∷ entry "delta state polytechnic" "D.E.L.P.O.L.Y."
    ∷ entry "adamawa state polytechnic" "A.D.A.P.O.L.Y."
    ∷ entry "ramat polytechnic" "R.A.M.A.T."
    ∷ entry "rukuba polytechnic" "R.U.K.U.B.A."
    ∷ entry "mauri tumbar polytechnic" "M.T.P."
    ∷ entry "jigawa state polytechnic" "J.I.G.P.O.L.Y."
    ∷ entry "taraba state polytechnic" "T.A.R.P.O.L.Y."
    ∷ entry "zamfara state polytechnic" "Z.A.M.P.O.L.Y."
    ∷ entry "ken saro wiwa polytechnic" "K.S.W.P."
    ∷ entry "porte city polytechnic" "P.C.P."
    ∷ entry "bolton college of education" "B.C.E."
    ∷ entry "federal college of education abeokuta" "F.C.E.A."
    ∷ entry "federal college of education akoka" "F.C.E.A.K.O.K.A."
    ∷ entry "federal college of education bichi" "F.C.E.B."
    ∷ entry "federal college of education gusau" "F.C.E.G."
    ∷ entry "federal college of education kano" "F.C.E.K."
    ∷ entry "federal college of education kontagora" "F.C.E.K.O."
    ∷ entry "federal college of education okene" "F.C.E.O."
    ∷ entry "federal college of education omoku" "F.C.E.O.M."
    ∷ entry "federal college of education pankshin" "F.C.E.P."
    ∷ entry "federal college of education potiskum" "F.C.E.P.O."
    ∷ entry "federal college of education yola" "F.C.E.Y."
    ∷ entry "federal college of education zaria" "F.C.E.Z."
    ∷ entry "alvan ikoku federal college of education" "A.I.F.C.E."
    ∷ entry "adedeji ogunde college of education" "A.O.C.E."
    ∷ entry "emmanuel alayande college of education" "E.A.C.E."
    ∷ entry "college of education agbor" "C.E.A."
    ∷ entry "college of education akwanga" "C.E.A.W."
    ∷ entry "college of education ankpa" "C.E.A.N."
    ∷ entry "college of education ekiadolor" "C.E.E."
    ∷ entry "college of education warri" "C.E.W."
    ∷ entry "college of education ikere ekiti" "C.E.I.E."
    ∷ entry "college of education katsina-ala" "C.E.K.A."
    ∷ entry "college of education oju" "C.E.O."
    ∷ entry "college of education waka-biu" "C.E.W.B."
    ∷ entry "college of education zuba" "C.E.Z."
    ∷ entry "michael otedola college of primary education" "M.O.C.P.E."
    ∷ entry "isa kaita college of education" "I.K.C.E."
    ∷ entry "jigawa state college of education" "J.S.C.E."
    ∷ entry "kano state college of education and preparatory studies" "K.S.C.E.P.S."
    ∷ entry "shehu shagari college of education" "S.S.C.E."
    ∷ entry "osun state college of education" "O.S.C.E."
    ∷ entry "oyo state college of education" "O.Y.S.C.E."
    ∷ entry "college of education lanlate" "C.E.L."
    ∷ entry "college of education ilemona" "C.E.I."
    ∷ entry "college of education olorunda-are" "C.E.O.A."
    ∷ entry "niger state college of education" "N.S.C.E."
    ∷ entry "kogi state college of education" "K.S.C.E."
    ∷ entry "kaduna state college of education" "K.D.S.C.E."
    ∷ entry "college of education gindiri" "C.E.G."
    ∷ entry "adamawa state college of education" "A.S.C.E."
    ∷ entry "akwa ibom state college of education" "A.I.S.C.E."
    ∷ entry "cross river state college of education" "C.R.S.C.E."
    ∷ entry "delar college of education" "D.C.E."
    ∷ entry "ebonyi state college of education" "E.S.C.E."
    ∷ entry "enugu state college of education technical" "E.S.C.E.T."
    ∷ entry "isaac jasper boro college of education" "I.J.B.C.E."
    ∷ []
