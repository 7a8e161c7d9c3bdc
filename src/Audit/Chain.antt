-- ===== src/Audit/Chain.antt =====
-- The chain that both logs share: the digest of a row, and the walk of `verify_activity_chain` and
-- `verify_admin_audit_chain` over the rows that have a hash.
use sysible_controller.Prelude.{
  ℕ, ◌+◌, String, Bool, true, false, not, ◌&&◌, ◌||◌, Option, none, some, List, [], ◌∷◌, ltb, ◌==◌,
  is_some, if◌then◌else◌,
}
use sysible_controller.Audit.Payload.{digest_payload}

-- `encode` is UTF-8, and the two functions are SHA-256 and HMAC-SHA256 in hexadecimal.
pub record Crypto : Type 0 where
  pub encode : String → List ℕ
  pub sha256 : List ℕ → String
  pub hmac : String → List ℕ → String

-- A row with a hash, as the chain sees it: `fields` are the texts that the digest covers after the
-- name of the algorithm and the previous hash.
pub record Link : Type 0 where
  pub id : ℕ
  pub fields : List String
  pub prev_hash : String
  pub entry_hash : String
  pub hash_algo : String

abbrev pub keyed_name : String
keyed_name = "hmac-sha256"

abbrev pub plain_name : String
plain_name = "sha256"

-- `"hmac-sha256" if key else "sha256"`
abbrev pub algo_of : Option String → String
algo_of none = plain_name
algo_of (some _) = keyed_name

-- the digest under an algorithm
abbrev pub hash_with : Crypto → Option String → String → List ℕ → String
hash_with crypto none algo payload = crypto.sha256 payload
hash_with crypto (some key) algo payload =
    if algo == keyed_name then crypto.hmac key payload else crypto.sha256 payload

-- `_activity_digest` and `_admin_audit_digest`
unfoldable pub digest : Crypto → Option String → String → String → List String → String
unfolding digest_payload
digest crypto key algo prev fields =
    hash_with crypto key algo (digest_payload crypto.encode (algo ∷ prev ∷ fields))

-- what a verification answers: the rows checked and whether all of them are keyed; the rows checked
-- before a break and its id; or the rows checked, the last id, and the recorded one
pub data Report : Type 0 where
  intact : ℕ → Bool → Report
  broken : ℕ → ℕ → Report
  truncated : ℕ → ℕ → ℕ → Report

abbrev pub is_keyed : Link → Bool
is_keyed r = r.hash_algo == keyed_name

-- `expected_prev` against a row
abbrev pub names_previous : Option String → String → Bool
names_previous none prev = true
names_previous (some e) prev = prev == e

-- the tests on one row, `expected_prev` and `seen_keyed` being those before it
unfoldable pub is_link_ok : Crypto → Option String → Option String → Bool → Link → Bool
unfolding digest
is_link_ok crypto key expected seen r =
    names_previous expected r.prev_hash
    && (not (is_keyed r) || is_some key)
    && (is_keyed r || not seen)
    && digest crypto key r.hash_algo r.prev_hash r.fields == r.entry_hash

-- the loop over the rows
unfoldable pub walk : Crypto → Option String → Option String → Bool → Bool → ℕ → List Link → Report
unfolding is_link_ok
walk crypto key expected seen all_keyed checked [] = intact checked (ltb 0 checked && all_keyed)
walk crypto key expected seen all_keyed checked (r ∷ rs) =
    let rest =
      walk crypto key (some r.entry_hash) (seen || is_keyed r) (all_keyed && is_keyed r)
        (checked + 1) rs in
    if is_link_ok crypto key expected seen r then rest else broken checked r.id

-- `rows[-1]["id"] if rows else 0`
abbrev pub last_id : List Link → ℕ
last_id [] = 0
last_id (r ∷ []) = r.id
last_id (r ∷ s ∷ rs) = last_id (s ∷ rs)

-- the mark above the last row
abbrev pub check_head : Option ℕ → ℕ → Report → Report
check_head (some head) last (intact checked keyed) =
    if ltb last head then truncated checked last head else intact checked keyed
check_head _ last report = report

-- `head` is `_chain_head_last_id`
unfoldable pub verify_chain : Crypto → Option String → Option ℕ → List Link → Report
unfolding walk
verify_chain crypto key head links =
    check_head head (last_id links) (walk crypto key none false true 0 links)
