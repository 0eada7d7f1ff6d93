-- ===== src/Tenants/Table/Universities.antt =====
-- Public and private universities.
-- Lines 3 to 103 of frontend/src/utils/tenantAbbreviations.ts.
use wazire.Base.{[], ◌∷◌}
use wazire.Base.Text.{Text}
use wazire.Base.Dict.{Dict}
use wazire.Tenants.Entry.{entry}

unfoldable pub universities : Dict Text
universities =
    entry "university of benin" "U.N.I.B.E.N."
    ∷ entry "university of lagos" "U.N.I.L.A.G."
    ∷ entry "university of ibadan" "U.I."
    ∷ entry "university of nigeria" "U.N.N."
    ∷ entry "university of port harcourt" "U.N.I.P.O.R.T."
    ∷ entry "ahmadu bello university" "A.B.U."
    ∷ entry "obafemi awolowo university" "O.A.U."
    ∷ entry "university of ilorin" "U.N.I.L.O.R.I.N."
    ∷ entry "university of abuja" "U.N.I.A.B.U.J.A."
    ∷ entry "university of jos" "U.N.I.J.O.S."
    ∷ entry "university of maiduguri" "U.N.I.M.A.I.D."
    ∷ entry "university of calabar" "U.N.I.C.A.L."
    ∷ entry "university of uyo" "U.N.I.U.Y.O."
    ∷ entry "lagos state university" "L.A.S.U."
    ∷ entry "olabisi onabanjo university" "O.O.U."
    ∷ entry "ekiti state university" "E.K.S.U."
    ∷ entry "delta state university" "D.E.L.S.U."
    ∷ entry "rivers state university" "R.S.U."
    ∷ entry "imo state university" "I.M.S.U."
    ∷ entry "anambra state university" "A.N.S.U."
    ∷ entry "nasarawa state university" "N.A.S.U."
    ∷ entry "niger delta university" "N.D.U."
    ∷ entry "ambrose alli university" "A.A.U."
    ∷ entry "enugu state university" "E.S.U.T."
    ∷ entry "abia state university" "A.B.S.U."
    ∷ entry "kwara state university" "K.W.A.S.U."
    ∷ entry "adekunle ajasin university" "A.A.U.A."
    ∷ entry "bayero university" "B.U.K."
    ∷ entry "usmanu danfodiyo university" "U.D.U.S.O.K."
    ∷ entry "nnamdi azikiwe university" "U.N.I.Z.I.K."
    ∷ entry "michael okpara university" "M.O.A.U."
    ∷ entry "ibrahim badamasi babangida university" "I.B.B.U."
    ∷ entry "modibbo adama university" "M.A.U."
    ∷ entry "federal university of technology akure" "F.U.T.A."
    ∷ entry "federal university of technology minna" "F.U.T.M.I.N.N.A."
    ∷ entry "federal university of technology owerri" "F.U.T.O."
    ∷ entry "federal university dutsin-ma" "F.U.D."
    ∷ entry "federal university lokoja" "F.U.L."
    ∷ entry "federal university ndifu-alike" "F.U.N.A.I."
    ∷ entry "federal university otuoke" "F.U.O."
    ∷ entry "federal university wukari" "F.U.W."
    ∷ entry "federal university gashua" "F.U.G."
    ∷ entry "federal university birnin kebbi" "F.U.B.K."
    ∷ entry "federal university gusau" "F.U.G.U.S.A.U."
    ∷ entry "federal university kashere" "F.U.K."
    ∷ entry "federal university lafia" "F.U.L.A.F.I.A."
    ∷ entry "federal university ndufu-alike" "F.U.N.A.I."
    ∷ entry "university of medical sciences" "U.N.I.M.E.D."
    ∷ entry "nigeria police academy" "N.P.A."
    ∷ entry "nigerian defence academy" "N.D.A."
    ∷ entry "babcock university" "B.U."
    ∷ entry "covenant university" "C.U."
    ∷ entry "american university of nigeria" "A.U.N."
    ∷ entry "africa university" "A.U."
    ∷ entry "pan-atlantic university" "P.A.U."
    ∷ entry "redeemers university" "R.U.N."
    ∷ entry "joseph ayo babalola university" "J.A.B.U."
    ∷ entry "caleb university" "C.U."
    ∷ entry "bowen university" "B.U."
    ∷ entry "adeleke university" "A.U."
    ∷ entry "landmark university" "L.U."
    ∷ entry "crawford university" "C.U."
    ∷ entry "benson idahosa university" "B.I.U."
    ∷ entry "caritas university" "C.U."
    ∷ entry "achievers university" "A.U."
    ∷ entry "al- hikmah university" "A.H.U."
    ∷ entry "lead city university" "L.C.U."
    ∷ entry "madonna university" "M.U."
    ∷ entry "tansian university" "T.U."
    ∷ entry "veritas university" "V.U."
    ∷ entry "western delta university" "W.D.U."
    ∷ entry "igbinedion university" "I.U."
    ∷ entry "novena university" "N.U."
    ∷ entry "ritman university" "R.U."
    ∷ entry "salem university" "S.U."
    ∷ entry "wellspring university" "W.U."
    ∷ entry "wesley university" "W.U."
    ∷ entry "christopher university" "C.U."
    ∷ entry "kings university" "K.U."
    ∷ entry "dominion university" "D.U."
    ∷ entry "edwin clark university" "E.C.U."
    ∷ entry "european university of nigeria" "E.U.N."
    ∷ entry "fountain university" "F.U."
    ∷ entry "g odwin university" "G.U."
    ∷ entry "greenfield university" "G.U."
    ∷ entry "gregory university" "G.U."
    ∷ entry "hallmark university" "H.U."
    ∷ entry "hezekiah university" "H.U."
    ∷ entry "koladaisi university" "K.U."
    ∷ entry "michael and cecilia ibru university" "M.C.I.U."
    ∷ entry "mountain top university" "M.T.U."
    ∷ entry "nigeria turkish nile university" "N.T.N.U."
    ∷ entry "paul university" "P.U."
    ∷ entry "precious cornerstone university" "P.C.U."
    ∷ entry "skyline university" "S.U."
    ∷ entry "suman university" "S.U."
    ∷ entry "travis university" "T.U."
    ∷ entry "university of möa" "U.M."
    ∷ []
