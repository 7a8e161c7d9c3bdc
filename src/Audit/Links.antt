-- ===== src/Audit/Links.antt =====
-- Chains that verify: when they are lengthened at the end and trimmed at the front.
use sysible_controller.Prelude.{
  ℕ, suc, ◌+◌, ◌≤◌, ◌<◌, ◌≡◌, refl, ◌∙◌, String, Bool, true, false, ◌&&◌, ◌||◌, Option, none, some,
  List, [], ◌∷◌, ◌++◌, length, select, all, any, ltb, arith, Bool-cases, inl, inr, both_true,
  and_assoc, or_assoc, or_false,
}
use sysible_controller.Audit.Chain.{Crypto, Link, intact, is_keyed, is_link_ok, walk, digest}

-- the hash that the next row must name
abbrev pub last_entry : Option String → List Link → Option String
last_entry expected [] = expected
last_entry expected (r ∷ rs) = last_entry (some r.entry_hash) rs

module _ (crypto : Crypto) (key : Option String) where
  -- Every row passes the tests of the walk.
  unfoldable pub passes : Option String → Bool → List Link → Bool
  unfolding is_link_ok
  passes expected seen [] = true
  passes expected seen (r ∷ rs) =
      let rest = passes (some r.entry_hash) (seen || is_keyed r) rs in
      is_link_ok crypto key expected seen r && rest

  pub walk-passes :
      (expected : Option String) (seen all_keyed : Bool) (n : ℕ) (rs : List Link)
      → passes expected seen rs ≡ true
      → walk crypto key expected seen all_keyed n rs
        ≡ intact (n + length rs) (ltb 0 (n + length rs) && (all_keyed && all is_keyed rs))
  unfolding passes walk
  walk-passes expected seen all_keyed n [] h =
      let same : n + 0 ≡ n = omega arith in ground (arith, same)
  walk-passes expected seen all_keyed n (r ∷ rs) h =
      let (here, rest) = both_true (is_link_ok crypto key expected seen r) _ h in
      let ih =
        walk-passes (some r.entry_hash) (seen || is_keyed r) (all_keyed && is_keyed r) (n + 1) rs
          rest in
      let next : n + 1 + length rs ≡ n + suc (length rs) = omega arith in
      rw here (ih ∙ rw (next, and_assoc) refl)

  link_unseen :
      (expected : Option String) (s t : Bool) (r : Link)
      → is_link_ok crypto key expected (s || t) r ≡ true
      → is_link_ok crypto key expected t r ≡ true
  unfolding is_link_ok
  link_unseen expected s t r h = ground (arith, h)

  link_fresh :
      (expected : Option String) (seen : Bool) (r : Link)
      → is_link_ok crypto key expected seen r ≡ true
      → is_link_ok crypto key none false r ≡ true
  unfolding is_link_ok
  link_fresh expected seen r h = ground (arith, h)

  pub passes_unseen :
      (expected : Option String) (s t : Bool) (rs : List Link)
      → passes expected (s || t) rs ≡ true
      → passes expected t rs ≡ true
  unfolding passes is_link_ok
  passes_unseen expected s t [] h = refl
  passes_unseen expected s t (r ∷ rs) h =
      let (here, rest) = both_true (is_link_ok crypto key expected (s || t) r) _ h in
      let ih = passes_unseen (some r.entry_hash) s (t || is_keyed r) rs in
      let rest' : passes (some r.entry_hash) (s || (t || is_keyed r)) rs ≡ true =
        rw (← or_assoc s t (is_keyed r)) rest in
      rw (link_unseen expected s t r here, ih rest') refl

  pub passes_fresh :
      (expected : Option String) (seen : Bool) (rs : List Link)
      → passes expected seen rs ≡ true
      → passes none false rs ≡ true
  unfolding passes is_link_ok
  passes_fresh expected seen [] h = refl
  passes_fresh expected seen (r ∷ rs) h =
      let (here, rest) = both_true (is_link_ok crypto key expected seen r) _ h in
      rw
        (
          link_fresh expected seen r here,
          passes_unseen (some r.entry_hash) seen (is_keyed r) rs rest,
        )
        refl

  pub passes-append :
      (expected : Option String) (seen : Bool) (rs : List Link) (r : Link)
      → passes expected seen rs ≡ true
      → is_link_ok crypto key (last_entry expected rs) (seen || any is_keyed rs) r ≡ true
      → passes expected seen (rs ++ r ∷ []) ≡ true
  unfolding passes
  passes-append expected seen [] r h ok =
      let ok' : is_link_ok crypto key expected seen r ≡ true = rw (← or_false seen) ok in
      rw ok' refl
  passes-append expected seen (x ∷ rs) r h ok =
      let (here, rest) = both_true (is_link_ok crypto key expected seen x) _ h in
      let ih = passes-append (some x.entry_hash) (seen || is_keyed x) rs r rest in
      rw (here, ih (rw (or_assoc seen (is_keyed x) (any is_keyed rs)) ok)) refl

link_provisioned :
    (crypto : Crypto) (k : String) (expected : Option String) (seen : Bool) (r : Link)
    → is_link_ok crypto none expected seen r ≡ true
    → is_link_ok crypto (some k) expected seen r ≡ true
unfolding is_link_ok digest
link_provisioned crypto k expected seen r h = ground (arith, h)

-- Rows that verify without a key verify with any.
pub passes_provisioned :
    (crypto : Crypto) (k : String) (expected : Option String) (seen : Bool) (rs : List Link)
    → passes crypto none expected seen rs ≡ true
    → passes crypto (some k) expected seen rs ≡ true
unfolding passes is_link_ok digest
passes_provisioned crypto k expected seen [] h = refl
passes_provisioned crypto k expected seen (r ∷ rs) h =
    let (here, rest) = both_true (is_link_ok crypto none expected seen r) _ h in
    let ih = passes_provisioned crypto k (some r.entry_hash) (seen || is_keyed r) rs rest in
    rw (link_provisioned crypto k expected seen r here, ih) refl

-- The ids grow from `lo` on and stay below `hi`.
abbrev pub IsIncreasing : ℕ → List Link → ℕ → Type 0
IsIncreasing lo [] hi = lo ≤ hi
IsIncreasing lo (r ∷ rs) hi = (lo ≤ r.id) × IsIncreasing (suc r.id) rs hi

pub IsIncreasing-append :
    (lo : ℕ) (rs : List Link) (r : Link)
    → IsIncreasing lo rs r.id
    → IsIncreasing lo (rs ++ r ∷ []) (suc r.id)
IsIncreasing-append lo [] r h = (h, omega arith)
IsIncreasing-append lo (x ∷ rs) r h = (h.0, IsIncreasing-append (suc x.id) rs r h.1)

IsIncreasing-le : (lo : ℕ) (rs : List Link) (hi : ℕ) → IsIncreasing lo rs hi → lo ≤ hi
IsIncreasing-le lo [] hi h = h
IsIncreasing-le lo (x ∷ rs) hi h = omega (arith, h.0, IsIncreasing-le (suc x.id) rs hi h.1)

IsIncreasing-lower :
    (lo lo' : ℕ) (rs : List Link) (hi : ℕ)
    → lo' ≤ lo
    → IsIncreasing lo rs hi
    → IsIncreasing lo' rs hi
IsIncreasing-lower lo lo' [] hi le h = omega (arith, le, h)
IsIncreasing-lower lo lo' (x ∷ rs) hi le h = (omega (arith, le, h.0), h.1)

abbrev pub above : ℕ → Link → Bool
above c r = ltb c r.id

select-above :
    (c lo : ℕ) (rs : List Link) (hi : ℕ) → c < lo → IsIncreasing lo rs hi → select (above c) rs ≡ rs
select-above c lo [] hi le h = refl
select-above c lo (x ∷ rs) hi le h =
    let here : ltb c x.id ≡ true = ground (arith, h.0) in
    rw (here, select-above c (suc x.id) rs hi (omega (arith, le, h.0)) h.1) refl

pub IsIncreasing-select :
    (c lo : ℕ) (rs : List Link) (hi : ℕ)
    → IsIncreasing lo rs hi
    → IsIncreasing lo (select (above c) rs) hi
IsIncreasing-select c lo [] hi h = h
IsIncreasing-select c lo (x ∷ rs) hi h =
    let rest = IsIncreasing-select c (suc x.id) rs hi h.1 in
    elim (Bool-cases (ltb c x.id)) [
      | inl keep ↦ rw keep (h.0, rest)
      | inr gone ↦ rw gone (IsIncreasing-lower (suc x.id) lo _ hi (omega (arith, h.0)) rest)
    ]

-- A chain that is trimmed at the front still passes.
pub passes-select :
    (crypto : Crypto) (key : Option String) (c lo : ℕ) (rs : List Link) (hi : ℕ)
    → IsIncreasing lo rs hi
    → passes crypto key none false rs ≡ true
    → passes crypto key none false (select (above c) rs) ≡ true
unfolding passes
passes-select crypto key c lo [] hi h ok = refl
passes-select crypto key c lo (x ∷ rs) hi h ok =
    let (here, rest) = both_true (is_link_ok crypto key none false x) _ ok in
    elim (Bool-cases (ltb c x.id)) [
      | inl keep ↦
          let whole : select (above c) rs ≡ rs =
            select-above c (suc x.id) rs hi (ground (arith, keep)) h.1 in
          rw (keep, whole, here, rest) refl
      | inr gone ↦ rw gone (
          passes-select crypto key c (suc x.id) rs hi h.1
            (passes_fresh crypto key (some x.entry_hash) (is_keyed x) rs rest))
    ]
