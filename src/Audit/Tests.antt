-- ===== src/Audit/Tests.antt =====
-- A log under toy digests, and the theorems at it.
use Prim.Native.Char.{code}
use text.Mathlib.TextEquality.{Char-path}
use sysible_controller.Prelude.{
  ℕ, codes, ◌+◌, ◌%◌, ◌≡◌, refl, String, Bool, true, false, ◌&&◌, Option, none, some, List, [], ◌∷◌,
  length, all, ltb, nat_eq, ◌==◌, ◌⊎◌, map,
}
use sysible_controller.Audit.Payload.{digest_payload, digest_payload_inj}
use sysible_controller.Audit.Chain.{
  Crypto, Link, intact, broken, truncated, is_keyed, verify_chain, digest, walk, is_link_ok,
}
use sysible_controller.Audit.Log.{
  Log, ActivityRow, AdminRow, log_activity, log_admin_audit, activity_row, admin_row,
  write_activity, write_admin, bump_chain_head, links_of, activity_link, admin_link,
  verify_activity_chain, verify_admin_audit_chain, redact_secrets,
}
use sysible_controller.Audit.Sound.{IsHexadecimal}
use sysible_controller.Audit.Reached.{
  HasActivity, HasAdmin, new_log, verify_activity_chain-written, verify_admin_audit_chain-written,
}
use sysible_controller.Audit.Binding.{HasCollision, columns, verify_chain-binds}

codes_inj : (s t : String) → codes s ≡ codes t → s ≡ t
codes_inj String.[] String.[] e = refl
codes_inj String.[] (String.◌∷◌ d t) e = absurd (cc e)
codes_inj (String.◌∷◌ c s) String.[] e = absurd (cc e)
codes_inj (String.◌∷◌ c s) (String.◌∷◌ d t) e =
    let head : code c ≡ code d = cc e in
    let tail : codes s ≡ codes t = cc e in
    let same = Char-path c d head in let ih = codes_inj s t tail in cc (same, ih)

abbrev sum : List ℕ → ℕ
sum [] = 0
sum (x ∷ xs) = x + sum xs

abbrev pick : String → String → String → Bool → Bool → String
pick a b c true _ = a
pick a b c false true = b
pick a b c false false = c

abbrev residue : String → String → String → ℕ → String
residue a b c n = pick a b c (nat_eq (n % 3) 0) (nat_eq (n % 3) 1)

pick_nonempty :
    (a b c : String)
    → ((a == "") ≡ false) × ((b == "") ≡ false) × ((c == "") ≡ false)
    → (t u : Bool) → (pick a b c t u == "") ≡ false
pick_nonempty a b c h true u = h.0
pick_nonempty a b c h false true = h.1
pick_nonempty a b c h false false = h.2

abbrev toy : Crypto
toy = record {
  encode = codes;
  sha256 = λ p. residue "s0" "s1" "s2" (sum p);
  hmac = λ k p. residue "h0" "h1" "h2" (sum p);
}

toy-IsHexadecimal : IsHexadecimal toy
toy-IsHexadecimal = (
  λ p.
      pick_nonempty "s0" "s1" "s2" (refl, refl, refl) (nat_eq (sum p % 3) 0) (nat_eq (sum p % 3) 1),
  λ k p.
      pick_nonempty "h0" "h1" "h2" (refl, refl, refl) (nat_eq (sum p % 3) 0) (nat_eq (sum p % 3) 1),
)

abbrev six : ℕ → String
six n = residue "0.000000" "1.000000" "2.000000" n

abbrev get : {Row : Type 0} → Option (Log Row) → Log Row
get none = new_log
get (some log) = log

-- one row without a key, and a key and two more rows, of which the window keeps two
abbrev plain_log : Log ActivityRow
plain_log = get (
    log_activity toy six (λ c. c) 2 none false true 1 (some "ann") (some "web1") (some "restart")
      "systemctl restart x" none new_log)

abbrev keyed_log : Log ActivityRow
keyed_log = get (
    log_activity toy six (λ c. c) 2 (some "k") true false 2 none none (some "login") ""
      (some "portal") plain_log)

abbrev trimmed_log : Log ActivityRow
trimmed_log = get (
    log_activity toy six (λ c. c) 2 (some "k") true true 4 (some "bob") none (some "logout") "" none
      keyed_log)

trimmed_reached : HasActivity toy six (some "k") trimmed_log
unfolding log_activity activity_row write_activity bump_chain_head digest
trimmed_reached =
    HasActivity.written (λ c. c) 2 (some "k") true true 4 (some "bob") none (some "logout") "" none
      keyed_log trimmed_log
      (HasActivity.written (λ c. c) 2 (some "k") true false 2 none none (some "login") ""
        (some "portal") plain_log keyed_log
        (HasActivity.provisioned "k" plain_log (
          HasActivity.written (λ c. c) 2 none false true 1 (some "ann") (some "web1")
            (some "restart") "systemctl restart x" none new_log plain_log (HasActivity.start none)
            refl))
        refl)
      refl

verify_activity_chain-written_example :
    verify_activity_chain toy six (some "k") trimmed_log
    ≡ intact (length trimmed_log.rows) (
        ltb 0 (length trimmed_log.rows)
        && all is_keyed (links_of (activity_link six) trimmed_log.rows))
verify_activity_chain-written_example =
    verify_activity_chain-written toy toy-IsHexadecimal six (some "k") trimmed_log trimmed_reached

abbrev admin_log : Log AdminRow
admin_log =
    get (log_admin_audit toy six (some "k") true true 7 (some "login") (some "ann") none new_log)

admin_reached : HasAdmin toy six (some "k") admin_log
unfolding log_admin_audit admin_row write_admin bump_chain_head digest
admin_reached =
    HasAdmin.written (some "k") true true 7 (some "login") (some "ann") none new_log admin_log
      (HasAdmin.start (some "k")) refl

verify_admin_audit_chain-written_example :
    verify_admin_audit_chain toy six (some "k") admin_log
    ≡ intact
        (length admin_log.rows)
        (ltb 0 (length admin_log.rows) && all is_keyed (links_of (admin_link six) admin_log.rows))
verify_admin_audit_chain-written_example =
    verify_admin_audit_chain-written toy toy-IsHexadecimal six (some "k") admin_log admin_reached

digest_payload_inj_example : ◌≡◌ {A = List String} ("ann" ∷ "web1" ∷ []) ("ann" ∷ "web1" ∷ [])
unfolding digest_payload
digest_payload_inj_example =
    digest_payload_inj codes codes_inj ("ann" ∷ "web1" ∷ []) ("ann" ∷ "web1" ∷ []) refl

abbrev links : List Link
links = links_of (activity_link six) trimmed_log.rows

-- the same with another user in the last row, whose digest `toy` does not tell apart
abbrev forged_log : Log ActivityRow
forged_log = get (
    log_activity toy six (λ c. c) 2 (some "k") true true 4 (some "boe") none (some "logout") "" none
      keyed_log)

abbrev forged_links : List Link
forged_links = links_of (activity_link six) forged_log.rows

verify_chain-binds_example :
    HasCollision toy (some "k") ⊎ (map columns links ≡ map columns forged_links)
unfolding verify_chain walk is_link_ok digest digest_payload log_activity activity_row
    write_activity bump_chain_head links_of
verify_chain-binds_example =
    verify_chain-binds toy codes_inj (some "k") (some 3) none links forged_links 2 2 true true refl
      refl refl refl

tests :
    (verify_activity_chain toy six (some "k") trimmed_log ≡ intact 2 true)
    × (verify_activity_chain toy six none trimmed_log ≡ broken 0 2)
    × (verify_activity_chain toy six (some "k") keyed_log ≡ intact 2 false)
    × (verify_activity_chain toy six none plain_log ≡ intact 1 false)
    × (verify_activity_chain toy six (some "k") (record plain_log { head = some (2, "") })
        ≡ truncated 1 1 2)
    × (log_activity toy six (λ c. c) 2 none true true 1 none none none "" none new_log ≡ none)
    × (redact_secrets {Pattern = ℕ} (λ p c. "x") (1 ∷ []) "" ≡ "")
unfolding verify_activity_chain verify_chain walk is_link_ok digest digest_payload log_activity
    activity_row write_activity bump_chain_head links_of redact_secrets
tests = (refl, refl, refl, refl, refl, refl, refl)
