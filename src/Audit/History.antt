-- ===== src/Audit/History.antt =====
-- Logs of either table, by what their rows are to the walk.
use sysible_controller.Prelude.{
  ℕ, suc, ◌≤◌, ◌≡◌, refl, String, Bool, true, false, Option, none, some, List, [], ◌∷◌, ◌++◌,
  length, select, all, ltb, is_some, arith, Bool-cases, inl, inr, both_true, eq_iff,
}
use sysible_controller.Audit.Chain.{Link, last_id}
use sysible_controller.Audit.Log.{
  text_or, last_hash, bump_chain_head, links_of, keep_link, head_id, link_of,
}
use sysible_controller.Audit.Links.{last_entry, IsIncreasing, above}
use sysible_controller.Audit.Intact.{is_within}

abbrev pub entry_of : Option Link → Option String
entry_of none = none
entry_of (some l) = some l.entry_hash

pub text_or_empty : (s : String) → text_or "" (some s) ≡ s
text_or_empty s = ground (arith, eq_iff s "")

-- the row of a link has a hash, and its id
pub link_of-some :
    (id : ℕ) (fields : List String) (prev algo hash : Option String)
    → is_some hash ≡ true
    → (l : Link) × (link_of id fields prev algo hash ≡ some l)
      × (hash ≡ some l.entry_hash)
      × (l.id ≡ id)
link_of-some id fields prev algo none h = absurd (cc h)
link_of-some id fields prev algo (some s) h = (_, refl, refl, refl)

module _ {Row : Type 0} (view : Row → Option Link) where
  pub links_of-append :
      (rows : List Row) (row : Row) (l : Link)
      → view row ≡ some l
      → links_of view (rows ++ row ∷ []) ≡ links_of view rows ++ l ∷ []
  unfolding links_of
  links_of-append [] row l e = rw e refl
  links_of-append (r ∷ rows) row l e =
      rw (links_of-append rows row l e) (keep_link-append (view r) (links_of view rows))
    where
      keep_link-append :
          (o : Option Link) (ls : List Link) → keep_link o (ls ++ l ∷ []) ≡ keep_link o ls ++ l ∷ []
      keep_link-append none ls = refl
      keep_link-append (some x) ls = refl

  -- rows of which the view is known
  module _ (hash : Row → Option String) (id : Row → ℕ)
      (seen : (r : Row)
        → is_some (hash r) ≡ true
        → (l : Link) × (view r ≡ some l) × (hash r ≡ some l.entry_hash) × (l.id ≡ id r)) where
    pub length-links_of :
        (rows : List Row)
        → all (λ (r : Row). is_some (hash r)) rows ≡ true
        → length (links_of view rows) ≡ length rows
    unfolding links_of
    length-links_of [] h = refl
    length-links_of (r ∷ rows) h =
        let (here, rest) = both_true (is_some (hash r)) _ h in
        let (l, e, _, _) = seen r here in rw (e, length-links_of rows rest) refl

    last_from :
        (r : Row) (rows : List Row)
        → all (λ (r : Row). is_some (hash r)) (r ∷ rows) ≡ true
        → last_hash hash (r ∷ rows) ≡ last_entry (hash r) (links_of view rows)
    unfolding links_of
    last_from r [] h = refl
    last_from r (s ∷ rows) h =
        let (here, rest) = both_true (is_some (hash r)) _ h in
        let (also, more) = both_true (is_some (hash s)) _ rest in
        let (l, e, n, _) = seen s also in let ih = last_from s rows rest in rw (ih, e, n) refl

    pub last_hash-links_of :
        (rows : List Row)
        → all (λ (r : Row). is_some (hash r)) rows ≡ true
        → last_hash hash rows ≡ last_entry none (links_of view rows)
    unfolding links_of
    last_hash-links_of [] h = refl
    last_hash-links_of (r ∷ rows) h =
        let (here, rest) = both_true (is_some (hash r)) _ h in
        let (l, e, n, _) = seen r here in rw (last_from r rows h, e, n) refl

    pub links_of-select :
        (c : ℕ) (rows : List Row)
        → all (λ (r : Row). is_some (hash r)) rows ≡ true
        → links_of view (select (λ (r : Row). ltb c (id r)) rows)
          ≡ select (above c) (links_of view rows)
    unfolding links_of
    links_of-select c [] h = refl
    links_of-select c (r ∷ rows) h =
        let (here, rest) = both_true (is_some (hash r)) _ h in
        let (l, e, _, at) = seen r here in
        let ih = links_of-select c rows rest in
        elim (Bool-cases (ltb c (id r))) [
          | inl keep ↦ rw (keep, e, at, keep, ih) refl
          | inr gone ↦ rw (gone, e, at, gone, ih) refl
        ]

last_id-le : (lo : ℕ) (links : List Link) (hi : ℕ) → IsIncreasing lo links hi → last_id links ≤ hi
last_id-le lo [] hi h = omega arith
last_id-le lo (r ∷ []) hi h = omega (arith, h.1)
last_id-le lo (r ∷ s ∷ rs) hi h = last_id-le (suc r.id) (s ∷ rs) hi h.1

-- The mark stays at or below the row that is written.
pub bump_chain_head-within :
    (writes : Bool) (id : ℕ) (entry : String) (head : Option (ℕ × String)) (links : List Link)
    → IsIncreasing 0 links id
    → is_within (head_id head) (last_id links) ≡ true
    → is_within (head_id (bump_chain_head writes id entry head)) id ≡ true
unfolding bump_chain_head
bump_chain_head-within true id entry none links rising h = ground arith
bump_chain_head-within false id entry none links rising h = ground arith
bump_chain_head-within writes id entry (some (last, hash)) links rising h =
    let le = last_id-le 0 links id rising in ground (arith, le, h)
