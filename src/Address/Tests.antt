-- ===== src/Address/Tests.antt =====
-- A controller that moved to another address, and the theorem at it.
use sysible_controller.Prelude.{
  ℕ, zero, suc, ◌+◌, ◌*◌, ◌≡◌, refl, String, Bool, true, false, not, List, [], ◌∷◌, lookup, insert,
  erase, ◌==◌,
}
use sysible_controller.Address.Sightings.{
  Verdict, assess, assess_from, best_of, observe, sight, oldest_from, prune,
}
use sysible_controller.Address.History.{Event, saw, pruned, tally}
use sysible_controller.Address.Evidence.{HasEarned, assess-HasEarned}

abbrev as_is : String → String
as_is s = s

abbrev routable : String → Bool
routable s = not (s == "127.0.0.1")

-- requests of one host, 20 seconds apart, the newest first
abbrev polls : ℕ → List Event
polls zero = saw "10.9.0.1" "web1" 5000 ∷ []
polls (suc n) = saw "10.9.0.1" "web1" (5000 + 20 * suc n) ∷ polls n

abbrev moved : List Event
moved = pruned 5500 ∷ saw "127.0.0.1" "web1" 5410 ∷ saw "10.9.0.1" "web2" 5400 ∷ polls 19

unfoldable judged : List Event → ℕ → Verdict
unfolding tally assess assess_from best_of observe sight oldest_from prune lookup insert erase
judged es now = assess as_is routable "192.168.1.5" now (tally as_is routable es)

verdicts :
    (judged moved 5500 ≡ record { stale = true; candidate = "10.9.0.1" })
    × (judged (polls 19) 5500 ≡ record { stale = true; candidate = "" })
    × (judged (saw "192.168.1.5" "web3" 5450 ∷ moved) 5500
        ≡ record { stale = false; candidate = "" })
    × (judged moved 9000 ≡ record { stale = true; candidate = "" })
unfolding judged
verdicts = (refl, refl, refl, refl)

assess-HasEarned_example :
    let found = (assess as_is routable "192.168.1.5" 5500 (tally as_is routable moved)).candidate in
    HasEarned as_is routable moved found 5500 × ((found == "192.168.1.5") ≡ false)
unfolding judged
assess-HasEarned_example = assess-HasEarned as_is routable moved "192.168.1.5" 5500 refl
