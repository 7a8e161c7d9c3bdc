-- ===== src/Address/Sightings.antt =====
-- `observe`, `prune` and `assess`. Times are whole seconds; where a difference would be negative the code's
-- tests answer as for 0.
use sysible_controller.Prelude.{
  ℕ, suc, ◌-◌, String, Bool, true, false, not, ◌&&◌, ◌||◌, Option, none, some, List, [], ◌∷◌, ◌++◌,
  length, member, select, leb, ltb, Dict, lookup, insert, erase, ◌==◌, if◌then◌else◌,
}

pub record Entry : Type 0 where
  pub first : ℕ
  pub last : ℕ
  pub count : ℕ
  pub peers : List String

-- `min(store, key=...)`, from the first key on
unfoldable pub oldest_from : String → ℕ → Dict Entry → String
oldest_from key last [] = key
oldest_from key last ((k, e) ∷ rows) =
    let here = oldest_from k e.last rows in
    let there = oldest_from key last rows in if ltb e.last last then here else there

-- of a store that is not empty
abbrev pub forget_oldest : Dict Entry → Dict Entry
forget_oldest [] = []
forget_oldest ((k, e) ∷ rows) = erase (oldest_from k e.last rows) ((k, e) ∷ rows)

-- MAX_TRACKED
abbrev pub make_room : Dict Entry → Dict Entry
make_room store = if leb 64 (length store) then forget_oldest store else store

abbrev pub add_peer : String → List String → List String
add_peer peer peers =
    if not (peer == "") && not (member peer peers) && ltb (length peers) 16
    then peers ++ peer ∷ []
    else peers

abbrev pub sighted : String → ℕ → Entry → Entry
sighted peer now e = record {
  first = e.first;
  last = now;
  count = suc e.count;
  peers = add_peer peer e.peers;
}

abbrev pub unseen : ℕ → Entry
unseen now = record { first = now; last = now; count = 0; peers = [] }

unfoldable pub sight : String → String → ℕ → Option Entry → Dict Entry → Dict Entry
unfolding oldest_from
sight addr peer now none store = insert addr (sighted peer now (unseen now)) (make_room store)
sight addr peer now (some e) store = insert addr (sighted peer now e) store

unfoldable pub prune : ℕ → Dict Entry → Dict Entry
prune now store = select (λ (row : String × Entry). not (ltb 86400 (now - row.1.last))) store

-- STALE_AFTER, MIN_SIGHTINGS, MIN_SOURCES and MIN_SPREAD
abbrev pub is_candidate : String → ℕ → String × Entry → Bool
is_candidate adv now row =
    not (row.0 == adv)
    && not (ltb 900 (now - row.1.last))
    && not (ltb row.1.count 20)
    && not (ltb (length row.1.peers) 2)
    && not (ltb (row.1.last - row.1.first) 300)

unfoldable pub best_of : String → ℕ → String → ℕ → Dict Entry → String
best_of adv now best best_count [] = best
best_of adv now best best_count ((k, e) ∷ rows) =
    let better = best_of adv now k e.count rows in
    let same = best_of adv now best best_count rows in
    if is_candidate adv now (k, e) && ltb best_count e.count then better else same

pub record Verdict : Type 0 where
  pub stale : Bool
  pub candidate : String

abbrev pub is_fresh : ℕ → Option Entry → Bool
is_fresh now none = false
is_fresh now (some e) = leb (now - e.last) 900

unfoldable pub assess_from : String → ℕ → Dict Entry → Verdict
unfolding best_of
assess_from adv now store =
    if adv == "" || is_fresh now (lookup adv store)
    then record { stale = false; candidate = "" }
    else record { stale = true; candidate = best_of adv now "" 0 store }

-- `normalise` is `_normalise`, by the library `ipaddress`, and `routable` is `is_routable_for_fleet`
module _ (normalise : String → String) (routable : String → Bool) where
  unfoldable pub observe : String → String → ℕ → Dict Entry → Dict Entry
  unfolding sight
  observe addr peer now store =
      if normalise addr == "" || not (routable (normalise addr))
      then store
      else sight (normalise addr) peer now (lookup (normalise addr) store) store

  unfoldable pub assess : String → ℕ → Dict Entry → Verdict
  unfolding assess_from
  assess advertised now store = assess_from (normalise advertised) now store
