-- ===== src/Admins/Names.antt =====
-- What the name of an administrator can hold: it becomes a word of a host command.
use sysible_controller.Prelude.{
  ℕ, codes, ◌≤◌, ◌≡◌, refl, String, Bool, true, false, not, ◌||◌, none, some, List, [], ◌∷◌, length,
  any, all, ltb, nat_eq, ◌==◌, arith, both_true, subst, if◌then◌else◌,
}
use sysible_controller.Admins.Policy.{
  is_alphanumeric, is_name_code, admin_name_re, validate_admin_name,
}

-- The characters that a POSIX shell treats specially, those that the comment at `_ADMIN_NAME_RE` names among
-- them: $ ` ' " ; | & < > ( ) space, line break, then \ * ? [ ] { } ~ # ! ^ = %, tab and carriage return.
abbrev pub metacharacters : List ℕ
metacharacters =
    36 ∷ 96 ∷ 39 ∷ 34 ∷ 59 ∷ 124 ∷ 38 ∷ 60 ∷ 62 ∷ 40 ∷ 41 ∷ 32 ∷ 10 ∷ 92 ∷ 42 ∷ 63 ∷ 91 ∷ 93 ∷ 123
    ∷ 125 ∷ 126 ∷ 35 ∷ 33 ∷ 94 ∷ 61 ∷ 37 ∷ 9 ∷ 13 ∷ []

abbrev pub is_meta : ℕ → Bool
is_meta c = any (nat_eq c) metacharacters

-- it would be read as an option
abbrev pub has_dash : List ℕ → Bool
has_dash [] = false
has_dash (c ∷ cs) = nat_eq c 45

plain_code : (c : ℕ) → is_name_code c ≡ true → is_meta c ≡ false
plain_code c h = ground (arith, h)

plain_codes : (cs : List ℕ) → all is_name_code cs ≡ true → any is_meta cs ≡ false
plain_codes [] h = refl
plain_codes (c ∷ cs) h =
    let (here, rest) = both_true (is_name_code c) _ h in
    rw (plain_code c here) (plain_codes cs rest)

plain_name :
    (cs : List ℕ) → admin_name_re cs ≡ true → (any is_meta cs ≡ false) × (has_dash cs ≡ false)
unfolding admin_name_re
plain_name [] h = (refl, refl)
plain_name (c ∷ cs) h =
    let (here, rest) = both_true (is_alphanumeric c || nat_eq c 95) _ h in
    let first : is_name_code c ≡ true = ground (arith, here) in
    let no_meta : is_meta c ≡ false = plain_code c first in
    (rw no_meta (plain_codes cs rest), ground (arith, here))

accepted :
    (s name : String) (a b c : Bool)
    → (if a || b || not c then none else some s) ≡ some name
    → (s ≡ name) × (b ≡ false) × (c ≡ true)
accepted s name true b c e = absurd (cc e)
accepted s name false true c e = absurd (cc e)
accepted s name false false false e = absurd (cc e)
accepted s name false false true e = (cc e, refl, refl)

-- A name that is accepted for an administrator has no character that a shell treats specially, is not read as an
-- option, and has at most 64 characters.
pub validate_admin_name-plain :
    (strip : String → String) (v name : String)
    → validate_admin_name strip v ≡ some name
    → (any is_meta (codes name) ≡ false)
      × (has_dash (codes name) ≡ false)
      × (length (codes name) ≤ 64)
unfolding validate_admin_name
validate_admin_name-plain strip v name h =
    let (same, short, shape) =
      accepted (strip v) name (strip v == "") (ltb 64 (length (codes (strip v))))
        (admin_name_re (codes (strip v))) h in
    let (no_meta, no_dash) = plain_name (codes (strip v)) shape in
    subst
      (λ n.
        (any is_meta (codes n) ≡ false) × (has_dash (codes n) ≡ false) × (length (codes n) ≤ 64))
      same (no_meta, no_dash, ground (arith, short))
