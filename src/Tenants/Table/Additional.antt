-- ===== src/Tenants/Table/Additional.antt =====
-- Additional private universities and polytechnics.
-- Lines 203 to 309 of frontend/src/utils/tenantAbbreviations.ts.
use wazire.Base.{[], ◌∷◌}
use wazire.Base.Text.{Text}
use wazire.Base.Dict.{Dict}
use wazire.Tenants.Entry.{entry}

unfoldable pub additional : Dict Text
additional =
    entry "african university of science and technology" "A.U.S.T."
    ∷ entry "mewar university" "M.U."
    ∷ entry "maryam abacha american university" "M.A.A.U."
    ∷ entry "capital city university" "C.C.U."
    ∷ entry "maranatha university" "M.U."
    ∷ entry "nigeria british university" "N.B.U."
    ∷ entry "shanon university" "S.U."
    ∷ entry "philosophy university" "P.U."
    ∷ entry "babcock university teaching hospital" "B.U.T.H."
    ∷ entry "atiba university" "A.U."
    ∷ entry "chosen university" "C.U."
    ∷ entry "eastern palm university" "E.P.U."
    ∷ entry "evangel university" "E.U."
    ∷ entry "federal university of health sciences abuja" "F.U.H.S.A."
    ∷ entry "federal university of health sciences azare" "F.U.H.S.A.Z."
    ∷ entry "federal university of health sciences ila-orangun" "F.U.H.S.I."
    ∷ entry "federal university of health sciences kebbi" "F.U.H.S.K."
    ∷ entry "federal university of health sciences katsina" "F.U.H.S.K.T."
    ∷ entry "first technical university" "F.T.U."
    ∷ entry "frontier university" "F.U."
    ∷ entry "girei university" "G.U."
    ∷ entry "glorious vision university" "G.V.U."
    ∷ entry "haileybury university" "H.U."
    ∷ entry "jane b university" "J.B.U."
    ∷ entry "kanem university" "K.U."
    ∷ entry "khalifa isiyaku rabi university" "K.I.R.U."
    ∷ entry "kingsley ozumba mbadiwe university" "K.O.M.U."
    ∷ entry "lighthouse university" "L.U."
    ∷ entry "madonna university college of medicine" "M.U.C.M."
    ∷ entry "mycshin university" "M.U."
    ∷ entry "nigerian british university" "N.B.U."
    ∷ entry "northern university" "N.U."
    ∷ entry "omolabi university" "O.U."
    ∷ entry "open university" "O.U."
    ∷ entry "osun state university" "U.N.I.O.S.U.N."
    ∷ entry "oyin academy" "O.A."
    ∷ entry "pentecost university" "P.U."
    ∷ entry "peter university" "P.U."
    ∷ entry "propsperity university" "P.U."
    ∷ entry "queens university" "Q.U."
    ∷ entry "ransome kuti university" "R.K.U."
    ∷ entry "royal university" "R.U."
    ∷ entry "saisa university" "S.U."
    ∷ entry "samuel adegboyega university" "S.A.U."
    ∷ entry "save university" "S.U."
    ∷ entry "shaka polytechnic" "S.P."
    ∷ entry "southern university" "S.U."
    ∷ entry "spiritan university" "S.U."
    ∷ entry "springs university" "S.U."
    ∷ entry "st augustine university" "S.A.U."
    ∷ entry "st mary university" "S.M.U."
    ∷ entry "sule lamido university" "S.L.U."
    ∷ entry "summit university" "S.U."
    ∷ entry "sunshine university" "S.U."
    ∷ entry "topfaith university" "T.U."
    ∷ entry "tower university" "T.U."
    ∷ entry "transcendent university" "T.U."
    ∷ entry "university of offa" "U.O."
    ∷ entry "university of sokoto" "U.O.S."
    ∷ entry "westbrook university" "W.U."
    ∷ entry "westland university" "W.U."
    ∷ entry "aba polytechnic" "A.P."
    ∷ entry "acca polytechnic" "A.P."
    ∷ entry "all saints polytechnic" "A.S.P."
    ∷ entry "alpha polytechnic" "A.P."
    ∷ entry "amaze polytechnic" "A.P."
    ∷ entry "best solution polytechnic" "B.S.P."
    ∷ entry "bivan polytechnic" "B.P."
    ∷ entry "bolmor polytechnic" "B.P."
    ∷ entry "calvary polytechnic" "C.P."
    ∷ entry "citi polytechnic" "C.P."
    ∷ entry "covenant polytechnic" "C.P."
    ∷ entry "crown polytechnic" "C.P."
    ∷ entry "dabo academy" "D.A."
    ∷ entry "dorben polytechnic" "D.P."
    ∷ entry "eastern polytechnic" "E.P."
    ∷ entry "fidei polytechnic" "F.P."
    ∷ entry "foundation polytechnic" "F.P."
    ∷ entry "global polytechnic" "G.P."
    ∷ entry "grace polytechnic" "G.P."
    ∷ entry "heritage polytechnic" "H.P."
    ∷ entry "ibadan city polytechnic" "I.C.P."
    ∷ entry "ife city polytechnic" "I.C.P."
    ∷ entry "interlink polytechnic" "I.P."
    ∷ entry "krisbethel college" "K.C."
    ∷ entry "lens polytechnic" "L.P."
    ∷ entry "light house polytechnic" "L.H.P."
    ∷ entry "mater dei polytechnic" "M.D.P."
    ∷ entry "ngbuka polytechnic" "N.P."
    ∷ entry "novelty polytechnic" "N.P."
    ∷ entry "oka institute" "O.I."
    ∷ entry "onit college" "O.C."
    ∷ entry "our saviour polytechnic" "O.S.P."
    ∷ entry "saf polytechnic" "S.P."
    ∷ entry "southern polytechnic" "S.P."
    ∷ entry "stars polytechnic" "S.P."
    ∷ entry "sure foundation polytechnic" "S.F.P."
    ∷ entry "the polytechnic ado-ekiti" "P.A.E."
    ∷ entry "tower polytechnic" "T.P."
    ∷ entry "trinity polytechnic" "T.P."
    ∷ entry "ufuoma polytechnic" "U.P."
    ∷ entry "union college" "U.C."
    ∷ entry "universal college" "U.C."
    ∷ entry "western delta polytechnic" "W.D.P."
    ∷ []
