-- ===== src/Pools/Store.antt =====
-- The pools of webgui/pools.py, in the order of the file. A text that is missing is the empty one.
use sysible_controller.Prelude.{
  ℕ, ◌+◌, codes, String, Bool, true, false, not, ◌&&◌, ◌||◌, Option, none, some, List, [], ◌∷◌,
  ◌++◌, length, all, select, add, leb, ltb, nat_eq, ◌==◌, if◌then◌else◌,
}

-- what `int` makes of a value
pub data Given : Type 0 where
  no_number below_zero : Given
  number : ℕ → Given

-- `_as_int`
abbrev pub as_int : Given → ℕ → Given
as_int no_number default = number default
as_int g default = g

pub record Pool : Type 0 where
  pub id : String
  pub name : String
  pub members : List String
  pub provider : String
  pub drain_cmd : String
  pub undrain_cmd : String
  pub health_kind : String
  pub health_target : String
  pub max_unavailable : Given
  pub min_healthy : Given
  pub settle_secs : Given
  pub created_by : String
  pub created_ts : ℕ

-- what a request gives of a pool, _FIELDS; the two texts of `health` come together
pub record Data : Type 0 where
  pub name : Option String
  pub members : Option (List String)
  pub provider : Option String
  pub drain_cmd : Option String
  pub undrain_cmd : Option String
  pub health : Option (String × String)
  pub max_unavailable : Option Given
  pub min_healthy : Option Given
  pub settle_secs : Option Given

-- `value or default`
abbrev pub or_text : String → String → String
or_text default text = if text == "" then default else text

abbrev pub or_else : {A : Type 0} → A → Option A → A
or_else old none = old
or_else old (some new) = new

-- `set(members)`
abbrev pub to_set : List String → List String
to_set [] = []
to_set (x ∷ xs) = add x (to_set xs)

abbrev pub is_provider : String → Bool
is_provider p = p == "none" || p == "command"

abbrev pub is_health_kind : String → Bool
is_health_kind k = k == "agent" || k == "tcp" || k == "http" || k == "command"

abbrev pub is_within : ℕ → ℕ → Given → Bool
is_within low high (number n) = leb low n && leb n high
is_within low high _ = false

abbrev pub is_at_least : ℕ → Given → Bool
is_at_least low (number n) = leb low n
is_at_least low _ = false

-- `mu > len(members) - mh`, of two numbers
abbrev pub takes_too_many : Given → Given → ℕ → Bool
takes_too_many (number mu) (number mh) members = ltb members (mu + mh)
takes_too_many _ _ members = true

abbrev pub is_port : Option ℕ → Bool
is_port none = false
is_port (some port) = leb 1 port && leb port 65535

-- `strip` is `str.strip`, `int` is `int`, with none for no number and for one below 0, and `is_word` is `\w`
module _ (strip : String → String) (int : String → Option ℕ) (is_word : ℕ → Bool) where
  -- `_NAME_RE`: also a space and the characters . : / + -
  abbrev pub is_name : String → Bool
  is_name name =
      leb 1 (length (codes name))
      && leb (length (codes name)) 64
      && all
          (λ c.
            is_word c
            || nat_eq c 32
            || nat_eq c 46
            || nat_eq c 58
            || nat_eq c 47
            || nat_eq c 43
            || nat_eq c 45)
          (codes name)

  abbrev pub members_ok : List String → Bool
  members_ok members =
      all (λ (m : String). not (m == "")) members
      && nat_eq (length (to_set members)) (length members)
      && leb 2 (length members)

  abbrev pub provider_ok : Pool → Bool
  provider_ok p =
      is_provider (or_text "none" p.provider)
      && (not (or_text "none" p.provider == "command")
          || (not (strip p.drain_cmd == "") && not (strip p.undrain_cmd == "")))

  abbrev pub health_ok : String → String → Bool
  health_ok kind target =
      is_health_kind kind
      && (kind == "agent" || not (strip target == ""))
      && (not (kind == "tcp") || is_port (int (strip target)))

  abbrev pub numbers_ok : Pool → Bool
  numbers_ok p =
      is_within 1 32 p.max_unavailable
      && is_at_least 1 p.min_healthy
      && not (takes_too_many p.max_unavailable p.min_healthy (length p.members))
      && is_within 0 3600 p.settle_secs

  -- false is the ValueError
  unfoldable pub validate : Pool → Bool
  validate p =
      is_name (strip p.name)
      && members_ok p.members
      && provider_ok p
      && health_ok (or_text "agent" p.health_kind) p.health_target
      && numbers_ok p

  -- as the numbers are stored
  abbrev pub with_numbers : Pool → Pool
  with_numbers p = record p {
    max_unavailable = as_int p.max_unavailable 1;
    min_healthy = as_int p.min_healthy 1;
    settle_secs = as_int p.settle_secs 0;
  }

  -- `health or {"kind": "agent"}`
  abbrev pub kind_of : String × String → String
  kind_of (kind, target) = if kind == "" && target == "" then "agent" else kind

  abbrev pub new_pool : String → ℕ → String → Data → Pool
  new_pool id now created_by d = with_numbers (record {
    id = id;
    name = or_else "" d.name;
    members = or_else [] d.members;
    provider = or_text "none" (or_else "" d.provider);
    drain_cmd = or_else "" d.drain_cmd;
    undrain_cmd = or_else "" d.undrain_cmd;
    health_kind = kind_of (or_else ("", "") d.health);
    health_target = (or_else ("", "") d.health).1;
    max_unavailable = or_else no_number d.max_unavailable;
    min_healthy = or_else no_number d.min_healthy;
    settle_secs = or_else no_number d.settle_secs;
    created_by = created_by;
    created_ts = now;
  })

  -- `none` is the ValueError
  unfoldable pub create_pool : String → ℕ → String → Data → List Pool → Option (List Pool)
  unfolding validate
  create_pool id now created_by d pools =
      if validate (new_pool id now created_by d)
      then some (pools ++ new_pool id now created_by d ∷ [])
      else none

  abbrev pub merged : Data → Pool → Pool
  merged d p = with_numbers (record p {
    name = or_else p.name d.name;
    members = or_else p.members d.members;
    provider = or_else p.provider d.provider;
    drain_cmd = or_else p.drain_cmd d.drain_cmd;
    undrain_cmd = or_else p.undrain_cmd d.undrain_cmd;
    health_kind = (or_else (p.health_kind, p.health_target) d.health).0;
    health_target = (or_else (p.health_kind, p.health_target) d.health).1;
    max_unavailable = or_else p.max_unavailable d.max_unavailable;
    min_healthy = or_else p.min_healthy d.min_healthy;
    settle_secs = or_else p.settle_secs d.settle_secs;
  })

  abbrev pub keep : Pool → Option (List Pool) → Option (List Pool)
  keep p none = none
  keep p (some pools) = some (p ∷ pools)

  -- the first pool of the id; where there is none the file is as it was
  unfoldable pub update_pool : String → Data → List Pool → Option (List Pool)
  unfolding validate
  update_pool pool_id d [] = some []
  update_pool pool_id d (p ∷ pools) =
      let rest = keep p (update_pool pool_id d pools) in
      if not (p.id == pool_id)
      then rest
      else if validate (merged d p)
      then some (merged d p ∷ pools)
      else none

unfoldable pub get_pool : String → List Pool → Option Pool
get_pool pool_id [] = none
get_pool pool_id (p ∷ pools) = if p.id == pool_id then some p else get_pool pool_id pools

unfoldable pub delete_pool : String → List Pool → Bool × List Pool
delete_pool pool_id pools =
    let new = select (λ (p : Pool). not (p.id == pool_id)) pools in
    (not (nat_eq (length new) (length pools)), new)

abbrev pub needs_superuser : Pool → Bool
needs_superuser p =
    or_text "none" p.provider == "command" || or_text "agent" p.health_kind == "command"

-- what a request asks; one that raises leaves the file
pub data Step : Type 0 where
  create : String → ℕ → String → Data → Step
  update : String → Data → Step
  delete : String → Step

module _ (strip : String → String) (int : String → Option ℕ) (is_word : ℕ → Bool) where
  unfoldable pub step : Step → List Pool → List Pool
  unfolding create_pool update_pool delete_pool
  step (create id now created_by d) pools =
      or_else pools (create_pool strip int is_word id now created_by d pools)
  step (update pool_id d) pools = or_else pools (update_pool strip int is_word pool_id d pools)
  step (delete pool_id) pools = (delete_pool pool_id pools).1

  unfoldable pub steps : List Step → List Pool → List Pool
  unfolding step
  steps [] pools = pools
  steps (s ∷ ss) pools = steps ss (step s pools)
