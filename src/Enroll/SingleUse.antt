-- ===== src/Enroll/SingleUse.antt =====
-- An enrollment token belongs to the one host that claimed it, whatever the table goes through.
use sysible_controller.Prelude.{
  ℕ, ◌≡◌, refl, ap, ◌∙◌, sym, String, Bool, true, false, not, Option, none, some, List, [], ◌∷◌,
  Dict, lookup, ◌==◌, if◌then◌else◌, arith, eq_iff, eq_refl, Bool-cases, inl, inr, IsDistinct, keys,
  contains_key, All,
}
use sysible_controller.Enroll.Token.{
  Token, Limits, is_bound, is_claimable, delete_where, claim, consume_enroll_token,
  invalidate_enroll_tokens_for_host, purge_unconsumed_enroll_tokens, create_enroll_token,
  create_reissue_token, insert_new,
}
use sysible_controller.Enroll.ClaimedRows.{
  is_claimed_by, all_claimed, insert_claimed, insert_keeps, delete_keeps, lookup_claimed, again,
  foreign,
}

-- What may happen to the table.
pub data Use : Type 0 where
  mints : String → String → ℕ → Use
  reissues : String → String → ℕ → Use
  consumes : String → String → ℕ → Use
  invalidates : String → Use
  purges : Use

abbrev or_same : Option (Dict Token) → Dict Token → Dict Token
or_same none tokens = tokens
or_same (some tokens') tokens = tokens'

module _ (digest : String → String) (limits : Limits) where
  -- a mint that raises leaves the table
  unfoldable pub use_token : Use → Dict Token → Dict Token
  use_token (mints token environment now) tokens =
      or_same (create_enroll_token digest limits token environment now tokens) tokens
  use_token (reissues token host now) tokens =
      or_same (create_reissue_token digest limits token host now tokens) tokens
  use_token (consumes token host now) tokens =
      (consume_enroll_token digest limits token host now tokens).1
  use_token (invalidates host) tokens = (invalidate_enroll_tokens_for_host host tokens).1
  use_token purges tokens = (purge_unconsumed_enroll_tokens tokens).1

  unfoldable pub use_tokens : List Use → Dict Token → Dict Token
  unfolding use_token
  use_tokens [] tokens = tokens
  use_tokens (u ∷ us) tokens = use_tokens us (use_token u tokens)

module _ (digest : String → String) (limits : Limits) (key host : String) where
  -- It mints no token under this key: a token that was deleted may not be minted again.
  abbrev pub avoids : Use → Bool
  avoids (mints token _ _) = not (digest token == key)
  avoids (reissues token _ _) = not (digest token == key)
  avoids _ = true

  mint_keeps :
      (k : String) (t : Token) (rows : Dict Token)
      → not (k == key) ≡ true
      → all_claimed key host rows ≡ true
      → all_claimed key host (or_same (insert_new k t rows) rows) ≡ true
  mint_keeps k t rows other h = elim (Bool-cases (contains_key k rows)) [
    | inl there ↦ rw there h
    | inr new ↦
        rw new (insert_keeps key host k t rows (λ e. ground (arith, eq_iff k key, other, e)) h)
  ]

  claim_keeps :
      (h : String) (now : ℕ) (k : String) (o : Option Token) (rows : Dict Token)
      → lookup k rows ≡ o
      → all_claimed key host rows ≡ true
      → all_claimed key host (claim h now k o rows).1 ≡ true
  unfolding claim
  claim_keeps h now k none rows found c = c
  claim_keeps h now k (some t) rows found c = elim (Bool-cases (is_claimable h t)) [
    | inr fails ↦ rw fails c
    | inl may ↦ rw may (
        insert_keeps key host k _ rows
          (λ e.
            again host h now t may
              (lookup_claimed key host rows t c (ap (λ x. lookup x rows) (sym e) ∙ found)))
          c)
  ]

  if_keeps :
      (b : Bool) (r r' : ℕ × Dict Token)
      → all_claimed key host r.1 ≡ true
      → all_claimed key host r'.1 ≡ true
      → all_claimed key host (if b then r else r').1 ≡ true
  if_keeps true r r' h h' = h
  if_keeps false r r' h h' = h'

  use_keeps :
      (u : Use) (rows : Dict Token)
      → avoids u ≡ true
      → all_claimed key host rows ≡ true
      → all_claimed key host (use_token digest limits u rows) ≡ true
  unfolding use_token create_enroll_token create_reissue_token consume_enroll_token
      invalidate_enroll_tokens_for_host purge_unconsumed_enroll_tokens
  use_keeps (mints token e now) rows a c = mint_keeps (digest token) _ rows a c
  use_keeps (reissues token h now) rows a c = mint_keeps (digest token) _ rows a c
  use_keeps (consumes token h now) rows a c =
      claim_keeps h now (digest token) (lookup (digest token) rows) rows refl c
  use_keeps (invalidates h) rows a c =
      if_keeps (h == "") (0, rows) (delete_where (is_bound h) rows) c
        (delete_keeps key host (is_bound h) rows c)
  use_keeps purges rows a c = delete_keeps key host (λ t. not t.used) rows c

  uses_keep :
      (us : List Use) (rows : Dict Token)
      → All (λ u. avoids u ≡ true) us
      → all_claimed key host rows ≡ true
      → all_claimed key host (use_tokens digest limits us rows) ≡ true
  unfolding use_tokens
  uses_keep [] rows a c = c
  uses_keep (u ∷ us) rows a c =
      let ih = uses_keep us in ih (use_token digest limits u rows) a.1 (use_keeps u rows a.0 c)

  claim_starts :
      (now : ℕ) (o : Option Token) (rows : Dict Token)
      → IsDistinct (keys rows)
      → (claim host now key o rows).0 ≡ true
      → all_claimed key host (claim host now key o rows).1 ≡ true
  unfolding claim is_claimed_by
  claim_starts now none rows d = λ e. cc e
  claim_starts now (some t) rows d = elim (Bool-cases (is_claimable host t)) [
    | inr fails ↦ rw fails λ e. cc e
    | inl may ↦ rw may λ e. insert_claimed key host _ rows d (eq_refl host)
  ]

  claim_fails :
      (h : String) (now : ℕ) (o : Option Token) (rows : Dict Token)
      → lookup key rows ≡ o
      → all_claimed key host rows ≡ true
      → (h == host) ≡ false
      → claim h now key o rows ≡ (false, rows)
  unfolding claim
  claim_fails h now none rows found c other = refl
  claim_fails h now (some t) rows found c other =
      rw (foreign host h t other (lookup_claimed key host rows t c found)) refl

-- A token is of one host. Once a host has claimed it, then through any mints of other tokens,
-- reissues, claims, invalidations and purges, no other host can claim it, and the attempt changes
-- nothing.
pub claimed_once :
    (digest : String → String) (limits : Limits) (token host other : String) (now later : ℕ)
    (us : List Use) (tokens : Dict Token)
    → IsDistinct (keys tokens)
    → (consume_enroll_token digest limits token host now tokens).0 ≡ true
    → All (λ u. avoids digest limits (digest token) host u ≡ true) us
    → (other == host) ≡ false
    → let tokens' =
        use_tokens digest limits us (consume_enroll_token digest limits token host now tokens).1 in
      consume_enroll_token digest limits token other later tokens' ≡ (false, tokens')
unfolding consume_enroll_token
claimed_once digest limits token host other now later us tokens d claimed a foreign_host =
    let key = digest token in
    let start = claim_starts digest limits key host now (lookup key tokens) tokens d claimed in
    claim_fails digest limits key host other later _ _ refl
      (uses_keep digest limits key host us _ a start) foreign_host
