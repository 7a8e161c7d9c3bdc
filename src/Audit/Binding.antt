-- ===== src/Audit/Binding.antt =====
-- What an intact chain binds: the columns that the digest covers.
use sysible_controller.Prelude.{
  ℕ, ◌+◌, ◌≡◌, ◌≢◌, refl, sym, ◌∙◌, String, Bool, true, false, not, ◌&&◌, ◌||◌, Option, none, some,
  List, [], ◌∷◌, ◌⊎◌, inl, inr, map, length, ltb, nat_eq, ◌==◌, is_some, if◌then◌else◌, arith,
  Bool-cases, both_true, eq_iff,
}
use sysible_controller.Audit.Payload.{digest_payload, digest_payload_inj}
use sysible_controller.Audit.Chain.{
  Crypto, Link, Report, intact, broken, truncated, is_keyed, names_previous, is_link_ok, walk,
  last_id, check_head, verify_chain, digest, hash_with,
}
use sysible_controller.Audit.Links.{passes, last_entry}

-- two payloads with one digest
abbrev pub HasCollision : Crypto → Option String → Type 0
HasCollision crypto key =
    (p q : List ℕ) × (a b : String) × (p ≢ q)
    × (hash_with crypto key a p ≡ hash_with crypto key b q)

-- what a row says, less its id
abbrev pub columns : Link → String × String × List String × String
columns r = (r.hash_algo, r.prev_hash, r.fields, r.entry_hash)

payload-cases : (p q : List ℕ) → (p ≡ q) ⊎ (p ≢ q)
payload-cases [] [] = inl refl
payload-cases [] (y ∷ q) = inr (λ e. cc e)
payload-cases (x ∷ p) [] = inr (λ e. cc e)
payload-cases (x ∷ p) (y ∷ q) =
    let ih = payload-cases p q in
    elim (Bool-cases (nat_eq x y)) [
      | inr e ↦ inr (λ same. let head : x ≡ y = cc same in ground (arith, e, head))
      | inl e ↦
          let head : x ≡ y = ground (arith, e) in
          elim ih [
            | inl rest ↦ inl (cc (head, rest))
            | inr other ↦ inr (λ same. let tail : p ≡ q = cc same in other tail)
          ]
    ]

unbroken :
    (b : Bool) (x : Report) (c i m : ℕ) (k : Bool)
    → (if b then x else broken c i) ≡ intact m k
    → (b ≡ true) × (x ≡ intact m k)
unbroken true x c i m k e = (refl, e)
unbroken false x c i m k e = absurd (cc e)

walk-intact :
    (crypto : Crypto) (key expected : Option String) (seen all_keyed : Bool) (n : ℕ)
    (rs : List Link) (m : ℕ) (b : Bool)
    → walk crypto key expected seen all_keyed n rs ≡ intact m b
    → passes crypto key expected seen rs ≡ true
unfolding walk passes
walk-intact crypto key expected seen all_keyed n [] m b h = refl
walk-intact crypto key expected seen all_keyed n (r ∷ rs) m b h =
    let (here, rest) = unbroken (is_link_ok crypto key expected seen r) _ n r.id m b h in
    let ih =
      walk-intact crypto key (some r.entry_hash) (seen || is_keyed r) (all_keyed && is_keyed r)
        (n + 1) rs m b rest in
    rw (here, ih) refl

untruncated :
    (t : Bool) (n last x : ℕ) (k : Bool) (m : ℕ) (b : Bool)
    → (if t then truncated n last x else intact n k) ≡ intact m b
    → intact n k ≡ intact m b
untruncated true n last x k m b e = absurd (cc e)
untruncated false n last x k m b e = e

check_head-intact :
    (head : Option ℕ) (last : ℕ) (report : Report) (m : ℕ) (b : Bool)
    → check_head head last report ≡ intact m b
    → report ≡ intact m b
check_head-intact none last report m b h = h
check_head-intact (some x) last (intact n k) m b h = untruncated (ltb last x) n last x k m b h
check_head-intact (some x) last (broken n k) m b h = h
check_head-intact (some x) last (truncated n k i) m b h = h

verify-passes :
    (crypto : Crypto) (key : Option String) (head : Option ℕ) (rs : List Link) (m : ℕ) (b : Bool)
    → verify_chain crypto key head rs ≡ intact m b
    → passes crypto key none false rs ≡ true
unfolding verify_chain
verify-passes crypto key head rs m b h =
    walk-intact crypto key none false true 0 rs m b (check_head-intact head (last_id rs) _ m b h)

module _ (crypto : Crypto) (inj : (s t : String) → crypto.encode s ≡ crypto.encode t → s ≡ t)
    (key : Option String) where
  row_binds :
      (r s : Link)
      → digest crypto key r.hash_algo r.prev_hash r.fields
        ≡ digest crypto key s.hash_algo s.prev_hash s.fields
      → r.entry_hash ≡ s.entry_hash
      → HasCollision crypto key ⊎ (columns r ≡ columns s)
  unfolding digest
  row_binds r s e n =
      let p = digest_payload crypto.encode (r.hash_algo ∷ r.prev_hash ∷ r.fields) in
      let q = digest_payload crypto.encode (s.hash_algo ∷ s.prev_hash ∷ s.fields) in
      elim (payload-cases p q) [
        | inr other ↦ inl (p, q, r.hash_algo, s.hash_algo, other, e)
        | inl same ↦
            let all_same =
              digest_payload_inj crypto.encode inj (r.hash_algo ∷ r.prev_hash ∷ r.fields)
                (s.hash_algo ∷ s.prev_hash ∷ s.fields) same in
            let algo : r.hash_algo ≡ s.hash_algo = cc all_same in
            let prev : r.prev_hash ≡ s.prev_hash = cc all_same in
            let fields : r.fields ≡ s.fields = cc all_same in inr (cc (algo, prev, fields, n))
      ]

  row_link :
      (expected : Option String) (seen : Bool) (r : Link)
      → is_link_ok crypto key expected seen r ≡ true
      → (names_previous expected r.prev_hash ≡ true)
        × (digest crypto key r.hash_algo r.prev_hash r.fields ≡ r.entry_hash)
  unfolding is_link_ok
  row_link expected seen r h =
      let (more, hashed) =
        both_true
          (names_previous expected r.prev_hash
            && (not (is_keyed r) || is_some key)
            && (is_keyed r || not seen))
          (digest crypto key r.hash_algo r.prev_hash r.fields == r.entry_hash) h in
      let (rest, _) =
        both_true (names_previous expected r.prev_hash && (not (is_keyed r) || is_some key)) _
          more in
      let (named, _) = both_true (names_previous expected r.prev_hash) _ rest in
      (named, (eq_iff (digest crypto key r.hash_algo r.prev_hash r.fields) r.entry_hash).0 hashed)

  -- the rows and what is expected before them, from the last hash backwards
  binds_after :
      (d e : String) (seen seen' : Bool) (rs ss : List Link)
      → passes crypto key (some d) seen rs ≡ true
      → passes crypto key (some e) seen' ss ≡ true
      → length rs ≡ length ss
      → last_entry (some d) rs ≡ last_entry (some e) ss
      → HasCollision crypto key ⊎ ((map columns rs ≡ map columns ss) × (d ≡ e))
  unfolding passes
  binds_after d e seen seen' [] [] h k n last = inr (refl, cc last)
  binds_after d e seen seen' [] (s ∷ ss) h k n last = absurd (omega (arith, n))
  binds_after d e seen seen' (r ∷ rs) [] h k n last = absurd (omega (arith, n))
  binds_after d e seen seen' (r ∷ rs) (s ∷ ss) h k n last =
      let (here, rest) = both_true (is_link_ok crypto key (some d) seen r) _ h in
      let (there, others) = both_true (is_link_ok crypto key (some e) seen' s) _ k in
      let (rp, rd) = row_link (some d) seen r here in
      let (sp, sd) = row_link (some e) seen' s there in
      let ih =
        binds_after r.entry_hash s.entry_hash (seen || is_keyed r) (seen' || is_keyed s) rs ss rest
          others (omega (arith, n)) last in
      elim ih [
        | inl found ↦ inl found
        | inr (tail, entries) ↦ elim (row_binds r s (rd ∙ entries ∙ sym sd) entries) [
          | inl found ↦ inl found
          | inr head ↦
              let prev : r.prev_hash ≡ s.prev_hash = cc head in
              inr (
                cc (head, tail),
                sym ((eq_iff r.prev_hash d).0 rp) ∙ prev ∙ (eq_iff s.prev_hash e).0 sp,
              )
        ]
      ]

  binds :
      (rs ss : List Link)
      → passes crypto key none false rs ≡ true
      → passes crypto key none false ss ≡ true
      → length rs ≡ length ss
      → last_entry none rs ≡ last_entry none ss
      → HasCollision crypto key ⊎ (map columns rs ≡ map columns ss)
  unfolding passes
  binds [] [] h k n last = inr refl
  binds [] (s ∷ ss) h k n last = absurd (omega (arith, n))
  binds (r ∷ rs) [] h k n last = absurd (omega (arith, n))
  binds (r ∷ rs) (s ∷ ss) h k n last =
      let (here, rest) = both_true (is_link_ok crypto key none false r) _ h in
      let (there, others) = both_true (is_link_ok crypto key none false s) _ k in
      let (_, rd) = row_link none false r here in
      let (_, sd) = row_link none false s there in
      elim (binds_after r.entry_hash s.entry_hash (is_keyed r) (is_keyed s) rs ss rest others
        (omega (arith, n)) last) [
          | inl found ↦ inl found
          | inr (tail, entries) ↦ elim (row_binds r s (rd ∙ entries ∙ sym sd) entries) [
            | inl found ↦ inl found
            | inr head ↦ inr (cc (head, tail))
          ]
        ]

  -- An intact log is bound by its newest hash. Two lists of as many rows that both verify under one key, whatever
  -- the marks are, and end in the same hash, agree in every row's algorithm, previous hash, covered fields and
  -- hash, or two different payloads have one digest. UTF-8 encodes different texts differently.
  pub verify_chain-binds :
      (head head' : Option ℕ) (rs ss : List Link) (m n : ℕ) (b c : Bool)
      → verify_chain crypto key head rs ≡ intact m b
      → verify_chain crypto key head' ss ≡ intact n c
      → length rs ≡ length ss
      → last_entry none rs ≡ last_entry none ss
      → HasCollision crypto key ⊎ (map columns rs ≡ map columns ss)
  verify_chain-binds head head' rs ss m n b c h k =
      binds rs ss (verify-passes crypto key head rs m b h) (verify-passes crypto key head' ss n c k)
