-- ===== src/Enroll/Adoption.antt =====
-- What `_find_supersedable_agent` returns: a row of the inventory that is not revoked.
use sysible_controller.Prelude.{
  ◌≡◌, refl, subst, String, Bool, true, false, Option, none, some, [], ◌∷◌, All, select, Dict,
  lookup, keys, member, IsDistinct, ◌==◌, arith, eq_iff, eq_refl, leb, Bool-cases, inl, inr,
}
use sysible_controller.Enroll.Inventory.{Agent}
use sysible_controller.Enroll.Handler.{
  Request, Settings, Times, comes_first, place, list_agents, seen_at, later_seen, latest,
  find_supersedable_agent, is_candidate, text_or_empty,
}

-- A row that the table holds under its key.
abbrev pub IsRow : Dict Agent → String × Agent → Type 0
IsRow agents row = lookup row.0 agents ≡ some row.1

rows_weaken :
    (k : String) (v : Agent) (agents rows : Dict Agent)
    → member k (keys rows) ≡ false
    → All (IsRow agents) rows
    → All (IsRow ((k, v) ∷ agents)) rows
unfolding lookup
rows_weaken k v agents [] new h = tt
rows_weaken k v agents ((j, w) ∷ rows) new h =
    let rest = rows_weaken k v agents rows (ground (arith, new)) h.1 in
    let other : (j == k) ≡ false = ground (arith, new, eq_iff k j, eq_iff j k) in
    (rw other h.0, rest)

rows-IsRow : (agents : Dict Agent) → IsDistinct (keys agents) → All (IsRow agents) agents
unfolding lookup
rows-IsRow [] d = tt
rows-IsRow ((k, v) ∷ agents) d =
    let here : IsRow ((k, v) ∷ agents) (k, v) = rw eq_refl refl in
    (here, rows_weaken k v agents agents d.0 (rows-IsRow agents d.1))

module _ (P : String × Agent → Type 0) where
  place-All :
      (row : String × Agent) (rows : Dict Agent) → P row → All P rows → All P (place row rows)
  unfolding place
  place-All row [] p h = (p, tt)
  place-All row (r ∷ rows) p h = elim (Bool-cases (comes_first row.1.hostname r.1.hostname)) [
    | inl first ↦ rw first (p, h)
    | inr later ↦ rw later (h.0, place-All row rows p h.1)
  ]

  list_agents-All : (rows : Dict Agent) → All P rows → All P (list_agents rows)
  unfolding list_agents
  list_agents-All [] h = tt
  list_agents-All (row ∷ rows) h = place-All row (list_agents rows) h.0 (list_agents-All rows h.1)

  select-All :
      (test : String × Agent → Bool) (rows : Dict Agent)
      → All P rows
      → All (λ row. P row × (test row ≡ true)) (select test rows)
  select-All test [] h = tt
  select-All test (row ∷ rows) h =
      let rest = select-All test rows h.1 in
      elim (Bool-cases (test row)) [
        | inl yes' ↦ rw yes' ((h.0, yes'), rest)
        | inr no' ↦ rw no' rest
      ]

  later_seen-All :
      (row : String × Agent) (o : Option (String × Agent))
      → P row
      → ((x : String × Agent) → o ≡ some x → P x)
      → P (later_seen row o)
  unfolding later_seen
  later_seen-All row none p h = p
  later_seen-All row (some r) p h = elim (Bool-cases (leb (seen_at r.1) (seen_at row.1))) [
    | inl later ↦ rw later p
    | inr earlier ↦ rw earlier (h r refl)
  ]

  latest-All : (rows : Dict Agent) → All P rows → (r : String × Agent) → latest rows ≡ some r → P r
  unfolding latest
  latest-All [] h r e = cc e
  latest-All (row ∷ rows) h r e =
      let ih = latest-All rows h.1 in
      let picked : later_seen row (latest rows) ≡ r = cc e in
      subst P picked (later_seen-All row (latest rows) h.0 ih)

-- A record that is adopted is a row of the inventory, and is not revoked.
pub supersedable-IsRow :
    (strip digest : String → String) (settings : Settings) (times : Times) (secret : String)
    (req : Request) (exclude : String) (agents : Dict Agent) (r : String × Agent)
    → IsDistinct (keys agents)
    → find_supersedable_agent strip digest settings times secret req exclude agents ≡ some r
    → IsRow agents r × (r.1.revoked ≡ false)
unfolding find_supersedable_agent
supersedable-IsRow strip digest settings times secret req exclude agents r d =
    elim (Bool-cases (text_or_empty req.ip == "")) [
      | inl nowhere ↦ rw nowhere (λ e. cc e)
      | inr ip ↦ rw ip λ e.
          let test =
            is_candidate strip digest settings times secret req (text_or_empty req.ip) exclude in
          let rows = list_agents-All (IsRow agents) agents (rows-IsRow agents d) in
          let (at, passed) =
            latest-All _ _ (select-All (IsRow agents) test (list_agents agents) rows) r e in
          (at, ground (arith, passed))
    ]
