-- ===== src/Auth/Tests.antt =====
-- The retention of redeemed tokens at a concrete input.
use ccn.Prelude.{string_key, ◌≡◌, true, List, [], ◌∷◌, arith}
use ccn.Auth.{mark_jti_redeemed, is_jti_redeemed}
use ccn.Auth.Retention.{Mark, marks, marks-is_jti_redeemed}

abbrev two_more : List Mark
two_more =
    record { jti = "c"; now = 900; later = 901 } ∷ record { jti = "b"; now = 200; later = 200 } ∷ []

marks-is_jti_redeemed_example :
    is_jti_redeemed "a" (marks two_more (mark_jti_redeemed "a" 100 101 [])) ≡ true
marks-is_jti_redeemed_example =
    marks-is_jti_redeemed "a" 100 101 two_more [] tt (omega arith) (omega arith)
