-- ===== src/Address/Evidence.antt =====
-- What stands behind a new address.
use sysible_controller.Prelude.{
  ℕ, ◌+◌, ◌≤◌, ◌≡◌, ◌≢◌, ◌⊎◌, inl, inr, refl, String, Bool, true, false, ◌&&◌, ◌||◌, List, [], ◌∷◌,
  length, IsDistinct, All, ltb, Dict, lookup, ◌==◌, arith, Bool-cases, both_true, eq_iff,
}
use sysible_controller.Address.Sightings.{
  Entry, is_candidate, best_of, is_fresh, assess_from, assess,
}
use sysible_controller.Address.History.{
  Event, HasSeen, requests, HasPeer, IsBacked, IsBackedRow, tally, tally_backed,
}

module _ (normalise : String → String) (routable : String → Bool) where
  -- the row that is chosen, if it is not the one of before
  chosen :
      (es : List Event) (adv : String) (now : ℕ) (best : String) (best_count : ℕ)
      (rows : Dict Entry)
      → All (IsBackedRow normalise routable es) rows
      → (best_of adv now best best_count rows ≡ best)
        ⊎ ((e : Entry) × IsBacked normalise routable es (best_of adv now best best_count rows) e
            × (is_candidate adv now (best_of adv now best best_count rows, e) ≡ true))
  unfolding best_of
  chosen es adv now best best_count [] h = inl refl
  chosen es adv now best best_count ((k, e) ∷ rows) h =
      let here = chosen es adv now k e.count rows h.1 in
      let there = chosen es adv now best best_count rows h.1 in
      elim (Bool-cases (is_candidate adv now (k, e) && ltb best_count e.count)) [
        | inr worse ↦ rw worse there
        | inl better ↦
            let fit = both_true (is_candidate adv now (k, e)) (ltb best_count e.count) better in
            rw better
              (elim here [ inr found ↦ inr found | inl kept ↦ rw kept (inr (e, h.0, fit.0)) ])
      ]

  -- two peers that differ
  two_peers :
      (es : List Event) (addr : String) (ps : List String)
      → 2 ≤ length ps
      → IsDistinct ps
      → All (HasPeer normalise routable es addr) ps
      → (p q : String) × (p ≢ q)
        × HasPeer normalise routable es addr p
        × HasPeer normalise routable es addr q
  two_peers es addr [] n d h = absurd (omega (arith, n))
  two_peers es addr (p ∷ []) n d h = absurd (omega (arith, n))
  two_peers es addr (p ∷ q ∷ ps) n d h =
      let apart : (p == q) ≡ false = ground (arith, d.0) in
      (p, q, ground (arith, apart, eq_iff p q), h.0, h.1.0)

  -- What an address has to earn: 20 requests or more, two peers, and two requests at least 300 seconds apart, of which the
  -- second is no longer ago than 900.
  pub record HasEarned (es : List Event) (addr : String) (now : ℕ) : Type 0 where
    many : 20 ≤ requests normalise routable es addr
    one : String
    other : String
    differ : one ≢ other
    by_one : HasPeer normalise routable es addr one
    by_other : HasPeer normalise routable es addr other
    early : ℕ
    late : ℕ
    seen_early : (peer : String) × HasSeen normalise routable es addr peer early
    seen_late : (peer : String) × HasSeen normalise routable es addr peer late
    spread : early + 300 ≤ late
    recent : now ≤ late + 900

  earned :
      (es : List Event) (adv addr : String) (now : ℕ) (e : Entry)
      → IsBacked normalise routable es addr e
      → is_candidate adv now (addr, e) ≡ true
      → HasEarned es addr now × ((addr == adv) ≡ false)
  earned es adv addr now e b fit =
      let enough : 2 ≤ length e.peers = ground (arith, fit) in
      let (p, q, apart, by_p, by_q) = two_peers es addr e.peers enough b.distinct b.by_peers in
      let count : 20 ≤ e.count = ground (arith, fit) in
      (
        record {
          many = omega (arith, count, b.counted);
          one = p;
          other = q;
          differ = apart;
          by_one = by_p;
          by_other = by_q;
          early = e.first;
          late = e.last;
          seen_early = b.began;
          seen_late = b.ended;
          spread = ground (arith, fit);
          recent = ground (arith, fit);
        },
        ground (arith, fit),
      )

  -- One stray request cannot move the controller. Where assess proposes an address, after any requests and prunings, the
  -- address is not the advertised one, and the requests to it were 20 or more, came from two
  -- different peers or more, and two of them were at least 300 seconds apart, the second at most 900 ago.
  pub assess-HasEarned :
      (es : List Event) (advertised : String) (now : ℕ)
      → ((assess normalise routable advertised now (tally normalise routable es)).candidate == "")
        ≡ false
      → HasEarned es
          (assess normalise routable advertised now (tally normalise routable es)).candidate
          now
        × (((assess normalise routable advertised now (tally normalise routable es)).candidate
              == normalise advertised)
            ≡ false)
  unfolding assess assess_from
  assess-HasEarned es advertised now =
      let adv = normalise advertised in
      elim (Bool-cases (adv == "" || is_fresh now (lookup adv (tally normalise routable es)))) [
        | inl stays ↦ rw stays λ bad. absurd (cc bad)
        | inr stale ↦ rw stale λ named.
            elim (chosen es adv now "" 0 (tally normalise routable es)
              (tally_backed normalise routable es)) [
                | inl none_fit ↦ absurd (nothing _ none_fit named)
                | inr (e, b, fit) ↦ earned es adv _ now e b fit
              ]
      ]
    where
      nothing : (s : String) → s ≡ "" → (s == "") ≡ false → ⊥
      nothing s is named = ground (arith, eq_iff s "", is, named)
