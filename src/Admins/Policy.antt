-- ===== src/Admins/Policy.antt =====
-- backend/policy.py, `validate_password_against_policy`, and backend/models/portal_models.py,
-- `_validate_admin_name`.
use sysible_controller.Prelude.{
  ℕ, codes, String, Bool, false, not, ◌&&◌, ◌||◌, Option, none, some, List, [], ◌∷◌, length, any,
  all, ltb, leb, nat_eq, ◌==◌, if◌then◌else◌,
}

abbrev pub is_between : ℕ → ℕ → ℕ → Bool
is_between a b c = leb a c && leb c b

abbrev pub is_lower : ℕ → Bool
is_lower = is_between 97 122

abbrev pub is_upper : ℕ → Bool
is_upper = is_between 65 90

abbrev pub is_digit : ℕ → Bool
is_digit = is_between 48 57

-- `[A-Za-z0-9]`
abbrev pub is_alphanumeric : ℕ → Bool
is_alphanumeric c = is_upper c || is_lower c || is_digit c

-- a field is whether the credit is negative
pub record Policy : Type 0 where
  pub minlen : ℕ
  pub lcredit : Bool
  pub ucredit : Bool
  pub dcredit : Bool
  pub ocredit : Bool

-- the first requirement that is not met, or none
unfoldable pub validate_password_against_policy : String → Policy → Option String
validate_password_against_policy password policy =
    if ltb (length (codes password)) policy.minlen
    then some "minlen"
    else if policy.lcredit && not (any is_lower (codes password))
    then some "lcredit"
    else if policy.ucredit && not (any is_upper (codes password))
    then some "ucredit"
    else if policy.dcredit && not (any is_digit (codes password))
    then some "dcredit"
    else if policy.ocredit && not (any (λ c. not (is_alphanumeric c)) (codes password))
    then some "ocredit"
    else none

-- `[A-Za-z0-9._@-]`
abbrev pub is_name_code : ℕ → Bool
is_name_code c = is_alphanumeric c || nat_eq c 46 || nat_eq c 95 || nat_eq c 64 || nat_eq c 45

-- `_ADMIN_NAME_RE`, of a text without a line break at its end
unfoldable pub admin_name_re : List ℕ → Bool
admin_name_re [] = false
admin_name_re (c ∷ cs) = (is_alphanumeric c || nat_eq c 95) && all is_name_code cs

-- `strip` is `str.strip`; `none` is the ValueError
unfoldable pub validate_admin_name : (String → String) → String → Option String
unfolding admin_name_re
validate_admin_name strip v =
    if strip v == "" || ltb 64 (length (codes (strip v))) || not (admin_name_re (codes (strip v)))
    then none
    else some (strip v)
