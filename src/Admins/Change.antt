-- ===== src/Admins/Change.antt =====
-- What a request may do to the table `administrators`, and what every such change keeps.
use sysible_controller.Prelude.{
  ℕ, ◌+◌, ◌≤◌, ◌≡◌, refl, subst, String, Bool, true, false, ◌&&◌, none, some, count_where, Dict,
  lookup, insert, erase, leb, ◌==◌, arith, Bool-cases, inl, inr, eq_iff,
}
use sysible_controller.Login.Session.{Admin, effective_role}
use sysible_controller.Admins.Table.{holds, update_row}
use sysible_controller.Admins.Counts.{
  IsTable, one, count-insert, count-erase, count-update, IsTable-insert, IsTable-erase,
  IsTable-update_row,
}

abbrev pub count_of : String → Dict Admin → ℕ
count_of role rows = count_where (holds role) rows

-- the last superuser
abbrev pub is_last : Admin → Dict Admin → Bool
is_last a rows = effective_role a.role == "superuser" && leb (count_of "superuser" rows) 1

-- The changes, each with its guards: none; an account under a new name; the removal of an account, a write
-- that keeps its role, and a write of another role.
pub data Change (rows : Dict Admin) : Dict Admin → Type 0 where
  same : Change rows rows
  added : (u : String) (a : Admin) → lookup u rows ≡ none → Change rows (insert u a rows)
  removed :
      (u : String) (a : Admin)
      → lookup u rows ≡ some a
      → is_last a rows ≡ false
      → Change rows (erase u rows)
  rewritten :
      (u : String) (f : Admin → Admin) (a : Admin)
      → lookup u rows ≡ some a
      → ((b : Admin) → (f b).role ≡ b.role)
      → Change rows (update_row u f rows)
  moved :
      (u : String) (f : Admin → Admin) (a : Admin) (role : String)
      → lookup u rows ≡ some a
      → ((b : Admin) → (f b).role ≡ role)
      → (role == effective_role a.role) ≡ false
      → is_last a rows ≡ false
      → Change rows (update_row u f rows)

pub Change-IsTable : (rows rows' : Dict Admin) → Change rows rows' → IsTable rows → IsTable rows'
Change-IsTable rows _ Change.same t = t
Change-IsTable rows _ (Change.added u a new) t = IsTable-insert u a rows new t
Change-IsTable rows _ (Change.removed u a old guard) t = IsTable-erase u rows t
Change-IsTable rows _ (Change.rewritten u f a old keeps) t = IsTable-update_row u f rows t
Change-IsTable rows _ (Change.moved u f a role old to other guard) t = IsTable-update_row u f rows t

one-le : (b : Bool) → one b ≤ 1
one-le true = omega arith
one-le false = omega arith

two_left :
    (a : Admin) (rows : Dict Admin)
    → (a.role == "superuser") ≡ true
    → is_last a rows ≡ false
    → 2 ≤ count_of "superuser" rows
two_left a rows super guard =
    let is : a.role ≡ "superuser" = (eq_iff a.role "superuser").0 super in
    not_one (count_of "superuser" rows) (
      subst (λ r. (effective_role r == "superuser" && leb (count_of "superuser" rows) 1) ≡ false) is
        guard)
  where
    not_one : (n : ℕ) → leb n 1 ≡ false → 2 ≤ n
    not_one n h = ground (arith, h)

-- an account that counts as superuser is the last one only if it is refused
still_one :
    (a : Admin) (rows : Dict Admin) (m : ℕ)
    → is_last a rows ≡ false
    → 1 ≤ count_of "superuser" rows
    → count_of "superuser" rows ≡ one (a.role == "superuser") + m
    → 1 ≤ m
still_one a rows m guard some_left e = elim (Bool-cases (a.role == "superuser")) [
  | inl super ↦
      let more : 2 ≤ count_of "superuser" rows = two_left a rows super guard in
      omega (arith, more, e, one-le (a.role == "superuser"))
  | inr other ↦
      let none_gone : one (a.role == "superuser") ≡ 0 = rw other refl in
      omega (arith, some_left, e, none_gone)
]

pub Change-superuser :
    (rows rows' : Dict Admin)
    → Change rows rows'
    → IsTable rows
    → 1 ≤ count_of "superuser" rows
    → 1 ≤ count_of "superuser" rows'
Change-superuser rows _ Change.same t h = h
Change-superuser rows _ (Change.added u a new) t h =
    omega (arith, h, count-insert "superuser" u a rows new)
Change-superuser rows _ (Change.removed u a old guard) t h =
    still_one a rows _ guard h (count-erase "superuser" u a rows t old)
Change-superuser rows _ (Change.rewritten u f a old keeps) t h =
    let n = count-update "superuser" u f a rows t old in
    let role_same : one ((f a).role == "superuser") ≡ one (a.role == "superuser") =
      rw (keeps a) refl in
    omega (arith, h, n, role_same)
Change-superuser rows _ (Change.moved u f a role old to other guard) t h =
    let n = count-update "superuser" u f a rows t old in
    elim (Bool-cases ((f a).role == "superuser")) [
      | inl up ↦
          let gained : one ((f a).role == "superuser") ≡ 1 = rw up refl in
          omega (arith, h, n, gained, one-le (a.role == "superuser"))
      | inr not_up ↦
          let gained : one ((f a).role == "superuser") ≡ 0 = rw not_up refl in
          still_one a rows _ guard h (omega (arith, n, gained))
    ]
