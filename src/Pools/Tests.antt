-- ===== src/Pools/Tests.antt =====
-- A pool of three hosts, and the theorem at it.
use sysible_controller.Prelude.{
  ℕ, ◌≡◌, refl, String, Bool, false, Option, none, some, List, [], ◌∷◌, All, leb, ◌&&◌, ◌==◌,
  if◌then◌else◌,
}
use sysible_controller.Pools.Store.{
  Given, number, no_number, Pool, Data, Step, step, steps, create_pool, update_pool, delete_pool,
  validate, needs_superuser,
}
use sysible_controller.Pools.Valid.{IsRollable, steps-IsRollable}

abbrev as_is : String → String
as_is s = s

abbrev port : String → Option ℕ
port s = if s == "443" then some 443 else none

abbrev is_word : ℕ → Bool
is_word c = leb 97 c && leb c 122

abbrev web : Data
web = record {
  name = some "web tier";
  members = some ("web1" ∷ "web2" ∷ "web3" ∷ []);
  provider = none;
  drain_cmd = none;
  undrain_cmd = none;
  health = some ("tcp", "443");
  max_unavailable = some (number 2);
  min_healthy = none;
  settle_secs = none;
}

abbrev asks : List Step
asks =
    Step.create "p" 10 "ann" web
    ∷ Step.create "q" 11 "ann" (record web { members = some ("web1" ∷ "web2" ∷ "web1" ∷ []) })
    ∷ Step.create "r" 12 "ann" (record web { health = some ("tcp", "https") })
    ∷ Step.update "p" (record web { members = none; min_healthy = some (number 2) })
    ∷ Step.update "p" (record web {
      members = none;
      max_unavailable = some no_number;
      min_healthy = some (number 2);
    })
    ∷ Step.delete "z"
    ∷ []

abbrev pools : List Pool
pools = steps as_is port is_word asks []

abbrev numbers_of : List Pool → List (Given × Given × Bool)
numbers_of [] = []
numbers_of (p ∷ ps) = (p.max_unavailable, p.min_healthy, needs_superuser p) ∷ numbers_of ps

stored : numbers_of pools ≡ (number 1, number 2, false) ∷ []
unfolding steps step create_pool update_pool delete_pool validate
stored = refl

steps-IsRollable_example : All IsRollable pools
steps-IsRollable_example = steps-IsRollable as_is port is_word asks [] tt
