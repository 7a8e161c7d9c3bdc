-- ===== src/Admins/Counts.antt =====
-- The administrators of a role, counted, when the table changes.
use sysible_controller.Prelude.{
  ℕ, ◌+◌, ◌≡◌, refl, sym, ap, ◌∙◌, subst, String, Bool, true, false, none, some, [], ◌∷◌,
  count_where, Dict, lookup, insert, erase, lookup-insert, lookup-erase, ◌==◌, arith, eq_iff,
  Bool-cases, inl, inr,
}
use sysible_controller.Login.Session.{Admin}
use sysible_controller.Admins.Table.{holds, update_row}

-- one row per username
abbrev pub IsTable : Dict Admin → Type 0
IsTable [] = Unit
IsTable ((k, v) ∷ rows) = (lookup k rows ≡ none) × IsTable rows

abbrev pub one : Bool → ℕ
one true = 1
one false = 0

erase-absent : (u : String) (rows : Dict Admin) → lookup u rows ≡ none → erase u rows ≡ rows
unfolding lookup erase
erase-absent u [] h = refl
erase-absent u ((k, v) ∷ rows) h = ground (arith, erase-absent u rows, h)

update-absent :
    (u : String) (f : Admin → Admin) (rows : Dict Admin)
    → lookup u rows ≡ none
    → update_row u f rows ≡ rows
unfolding lookup update_row
update-absent u f [] h = refl
update-absent u f ((k, v) ∷ rows) h = ground (arith, update-absent u f rows, h)

pub count-insert :
    (role u : String) (a : Admin) (rows : Dict Admin)
    → lookup u rows ≡ none
    → count_where (holds role) (insert u a rows)
      ≡ one (a.role == role) + count_where (holds role) rows
unfolding lookup insert
count-insert role u a [] h = ground arith
count-insert role u a ((k, v) ∷ rows) h = ground (arith, count-insert role u a rows, h)

found :
    (u k : String) (v a : Admin) (rows : Dict Admin)
    → (u == k) ≡ true
    → lookup u ((k, v) ∷ rows) ≡ some a
    → v ≡ a
unfolding lookup
found u k v a rows here = rw here λ e. cc e

later :
    (u k : String) (v a : Admin) (rows : Dict Admin)
    → (u == k) ≡ false
    → lookup u ((k, v) ∷ rows) ≡ some a
    → lookup u rows ≡ some a
unfolding lookup
later u k v a rows there = rw there λ e. e

count_head :
    (role k : String) (v a : Admin) (rows : Dict Admin)
    → v ≡ a
    → count_where (holds role) ((k, v) ∷ rows)
      ≡ one (a.role == role) + count_where (holds role) rows
count_head role k v a rows is = rw is (ground arith)

count_swap : (x n y m : ℕ) → n ≡ y + m → x + n ≡ y + (x + m)
count_swap x n y m e = omega (arith, e)

pub count-erase :
    (role u : String) (a : Admin) (rows : Dict Admin)
    → IsTable rows
    → lookup u rows ≡ some a
    → count_where (holds role) rows ≡ one (a.role == role) + count_where (holds role) (erase u rows)
unfolding erase lookup
count-erase role u a [] t h = absurd (cc h)
count-erase role u a ((k, v) ∷ rows) t h = elim (Bool-cases (u == k)) [
  | inl here ↦
      let same : u ≡ k = (eq_iff u k).0 here in
      let absent : lookup u rows ≡ none = subst (λ x. lookup x rows ≡ none) (sym same) t.0 in
      let kept = erase-absent u rows absent in
      let is : v ≡ a = found u k v a rows here h in
      let n = count_head role k v a rows is in rw (here, kept) n
  | inr there ↦
      let ih = count-erase role u a rows t.1 (later u k v a rows there h) in
      let n = count_swap (one (v.role == role)) _ _ _ ih in
      rw there (
        count_head role k v v rows refl
        ∙ n
        ∙ ap (λ m. one (a.role == role) + m) (sym (count_head role k v v (erase u rows) refl)))
]

pub count-update :
    (role u : String) (f : Admin → Admin) (a : Admin) (rows : Dict Admin)
    → IsTable rows
    → lookup u rows ≡ some a
    → one (a.role == role) + count_where (holds role) (update_row u f rows)
      ≡ one ((f a).role == role) + count_where (holds role) rows
unfolding update_row lookup
count-update role u f a [] t h = absurd (cc h)
count-update role u f a ((k, v) ∷ rows) t h = elim (Bool-cases (u == k)) [
  | inl here ↦
      let same : u ≡ k = (eq_iff u k).0 here in
      let absent : lookup u rows ≡ none = subst (λ x. lookup x rows ≡ none) (sym same) t.0 in
      let kept = update-absent u f rows absent in
      let is : v ≡ a = found u k v a rows here h in
      let n = count_head role k v a rows is in
      let m = count_head role k (f v) (f a) rows (ap f is) in rw (here, kept) (omega (arith, n, m))
  | inr there ↦
      let ih = count-update role u f a rows t.1 (later u k v a rows there h) in
      let n = count_head role k v v rows refl in
      let m = count_head role k v v (update_row u f rows) refl in rw there (omega (arith, n, m, ih))
]

absent-update :
    (k u : String) (f : Admin → Admin) (rows : Dict Admin)
    → lookup k rows ≡ none
    → lookup k (update_row u f rows) ≡ none
unfolding update_row lookup
absent-update k u f [] h = refl
absent-update k u f ((j, v) ∷ rows) h =
    ground (arith, absent-update k u f rows, eq_iff k j, eq_iff u j, h)

pub IsTable-update_row :
    (u : String) (f : Admin → Admin) (rows : Dict Admin)
    → IsTable rows
    → IsTable (update_row u f rows)
unfolding update_row
IsTable-update_row u f [] t = t
IsTable-update_row u f ((k, v) ∷ rows) t =
    let ih = IsTable-update_row u f rows t.1 in
    elim (Bool-cases (u == k)) [
      | inl here ↦ rw here (absent-update k u f rows t.0, ih)
      | inr there ↦ rw there (absent-update k u f rows t.0, ih)
    ]

apart :
    (u k : String) (v : Admin) (rows : Dict Admin)
    → (u == k) ≡ true
    → lookup u ((k, v) ∷ rows) ≡ none
    → ⊥
unfolding lookup
apart u k v rows here = rw here λ e. cc e

pub IsTable-insert :
    (u : String) (a : Admin) (rows : Dict Admin)
    → lookup u rows ≡ none
    → IsTable rows
    → IsTable (insert u a rows)
unfolding insert lookup
IsTable-insert u a [] h t = (refl, tt)
IsTable-insert u a ((k, v) ∷ rows) h t = elim (Bool-cases (u == k)) [
  | inl here ↦ absurd (apart u k v rows here h)
  | inr there ↦
      let tail : lookup u rows ≡ none = ground (arith, there, h) in
      let other : (k == u) ≡ false = ground (arith, there, eq_iff u k, eq_iff k u) in
      rw there (rw (lookup-insert, other) t.0, IsTable-insert u a rows tail t.1)
]

pub IsTable-erase : (u : String) (rows : Dict Admin) → IsTable rows → IsTable (erase u rows)
unfolding erase lookup
IsTable-erase u [] t = t
IsTable-erase u ((k, v) ∷ rows) t =
    let ih = IsTable-erase u rows t.1 in
    let gone : lookup k (erase u rows) ≡ none = rw (lookup-erase, t.0) (ground arith) in
    elim (Bool-cases (u == k)) [ inl here ↦ rw here ih | inr there ↦ rw there (gone, ih) ]
