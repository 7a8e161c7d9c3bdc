-- ===== src/Enroll/Token.antt =====
-- backend/db.py: the enrollment tokens. The keys of the table are the tokens' hashes.
use sysible_controller.Prelude.{
  ℕ, ◌+◌, ◌*◌, String, Bool, true, false, not, ◌||◌, Option, none, some, [], ◌∷◌, Dict, lookup,
  insert, contains_key, ltb, leb, ◌==◌, if◌then◌else◌,
}

pub record Token : Type 0 where
  pub created : ℕ
  pub expires : ℕ
  pub used : Bool
  pub environment : Option String
  pub bound_host_id : Option String
  pub last_used : Option ℕ
  pub reissue : Bool

-- ENROLL_TOKEN_VALID_DAYS and ENROLL_TOKEN_REUSE_WINDOW
pub record Limits : Type 0 where
  pub valid_days : ℕ
  pub reuse_window : ℕ

-- `bound_host_id == host_id`
abbrev pub is_bound : String → Token → Bool
is_bound host_id t = elim t.bound_host_id [ none ↦ false | some bound ↦ bound == host_id ]

-- `DELETE ... WHERE`, with the rows left and the number removed
unfoldable pub delete_where : (Token → Bool) → Dict Token → ℕ × Dict Token
delete_where test [] = (0, [])
delete_where test ((key, t) ∷ rows) =
    let (n, rest) = delete_where test rows in if test t then (n + 1, rest) else (n, (key, t) ∷ rest)

unfoldable pub invalidate_enroll_tokens_for_host : String → Dict Token → ℕ × Dict Token
unfolding delete_where
invalidate_enroll_tokens_for_host host_id tokens =
    if host_id == "" then (0, tokens) else delete_where (is_bound host_id) tokens

unfoldable pub purge_unconsumed_enroll_tokens : Dict Token → ℕ × Dict Token
unfolding delete_where
purge_unconsumed_enroll_tokens tokens = delete_where (λ t. not t.used) tokens

-- a row that `consume_enroll_token` may claim
abbrev pub is_claimable : String → Token → Bool
is_claimable host_id t = not t.used || is_bound host_id t

-- an INSERT, which raises, `none`, on a key that is there
abbrev pub insert_new : String → Token → Dict Token → Option (Dict Token)
insert_new key t tokens = if contains_key key tokens then none else some (insert key t tokens)

abbrev pub within_reuse : ℕ → ℕ → Token → Bool
within_reuse window later t = elim t.bound_host_id [
  | none ↦ false
  | some _ ↦ elim t.last_used [ none ↦ false | some at ↦ leb later (at + window) ]
]

-- what `validate_enroll_token` says of the row it found; it reads the clock twice
unfoldable pub is_valid : ℕ → ℕ → ℕ → Option Token → Bool
is_valid window now later none = false
is_valid window now later (some t) =
    if ltb t.expires now then false else if not t.used then true else within_reuse window later t

unfoldable pub authorizes : ℕ → String → Option Token → Bool
authorizes now host_id none = false
authorizes now host_id (some t) =
    if not t.reissue || t.used
    then false
    else if ltb t.expires now
    then false
    else is_bound host_id t

abbrev pub bound_or : String → Option Token → String
bound_or requested none = requested
bound_or requested (some t) = elim t.bound_host_id [
  | none ↦ requested
  | some bound ↦ if bound == "" then requested else bound
]

unfoldable pub claim : String → ℕ → String → Option Token → Dict Token → Bool × Dict Token
claim host_id now key none tokens = (false, tokens)
claim host_id now key (some t) tokens =
    if is_claimable host_id t
    then (
      true,
      insert key (record t { used = true; bound_host_id = some host_id; last_used = some now })
          tokens,
    )
    else (false, tokens)

-- `digest` is `_token_at_rest`
module _ (digest : String → String) (limits : Limits) where
  unfoldable pub create_enroll_token : String → String → ℕ → Dict Token → Option (Dict Token)
  create_enroll_token token environment now tokens =
      insert_new (digest token)
        (record {
          created = now;
          expires = now + limits.valid_days * 24 * 60 * 60;
          used = false;
          environment = some environment;
          bound_host_id = none;
          last_used = none;
          reissue = false;
        })
        tokens

  unfoldable pub create_reissue_token : String → String → ℕ → Dict Token → Option (Dict Token)
  create_reissue_token token host_id now tokens =
      insert_new (digest token)
        (record {
          created = now;
          expires = now + limits.valid_days * 24 * 60 * 60;
          used = false;
          environment = none;
          bound_host_id = some host_id;
          last_used = none;
          reissue = true;
        })
        tokens

  unfoldable pub enroll_token_environment : String → Dict Token → String
  enroll_token_environment token tokens =
      if token == "" then "" else elim (lookup (digest token) tokens) [
        | none ↦ ""
        | some t ↦ elim t.environment [ none ↦ "" | some e ↦ e ]
      ]

  unfoldable pub enroll_token_authorizes_rebind : String → String → ℕ → Dict Token → Bool
  unfolding authorizes
  enroll_token_authorizes_rebind token host_id now tokens =
      if token == "" || host_id == ""
      then false
      else authorizes now host_id (lookup (digest token) tokens)

  unfoldable pub validate_enroll_token : String → ℕ → ℕ → Dict Token → Bool
  unfolding is_valid
  validate_enroll_token token now later tokens =
      is_valid limits.reuse_window now later (lookup (digest token) tokens)

  unfoldable pub resolve_enroll_token_host : String → String → Dict Token → String
  resolve_enroll_token_host token requested tokens =
      bound_or requested (lookup (digest token) tokens)

  unfoldable pub consume_enroll_token : String → String → ℕ → Dict Token → Bool × Dict Token
  unfolding claim
  consume_enroll_token token host_id now tokens =
      claim host_id now (digest token) (lookup (digest token) tokens) tokens
