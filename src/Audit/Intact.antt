-- ===== src/Audit/Intact.antt =====
-- What an append, a trim and a new key keep, of the chain of either log.
use sysible_controller.Prelude.{
  ℕ, suc, ◌+◌, ◌<◌, ◌≡◌, refl, sym, subst, String, Bool, true, false, not, ◌&&◌, ◌||◌, Option, none,
  some, List, [], ◌∷◌, ◌++◌, length, select, select-append, all, any, ltb, leb, ◌==◌, is_some,
  arith, eq_refl, both_true,
}
use sysible_controller.Audit.Chain.{
  Crypto, Link, intact, keyed_name, algo_of, is_keyed, names_previous, is_link_ok, last_id,
  check_head, verify_chain, digest,
}
use sysible_controller.Audit.Log.{text_or}
use sysible_controller.Audit.Links.{
  passes, walk-passes, last_entry, passes-append, IsIncreasing, IsIncreasing-append,
  IsIncreasing-select, above, passes-select, passes_provisioned,
}

-- a row of this process: keyed only where there is a key, and its hash is no empty text
abbrev pub is_own : Option String → Link → Bool
is_own key r = (not (is_keyed r) || is_some key) && not (r.entry_hash == "")

-- the mark is not above the last row
abbrev pub is_within : Option ℕ → ℕ → Bool
is_within none last = true
is_within (some head) last = leb head last

pub record IsSound (crypto : Crypto) (key : Option String) (links : List Link) (next : ℕ)
    (head : Option ℕ) : Type 0 where
  pub passing : passes crypto key none false links ≡ true
  pub own : all (is_own key) links ≡ true
  pub rising : IsIncreasing 0 links next
  pub marked : is_within head (last_id links) ≡ true

pub last_id-append : (rs : List Link) (r : Link) → last_id (rs ++ r ∷ []) ≡ r.id
last_id-append [] r = refl
last_id-append (x ∷ []) r = refl
last_id-append (x ∷ y ∷ rs) r = last_id-append (y ∷ rs) r

all-append :
    (test : Link → Bool) (rs : List Link) (r : Link)
    → all test rs ≡ true
    → test r ≡ true
    → all test (rs ++ r ∷ []) ≡ true
all-append test [] r h t = rw t refl
all-append test (x ∷ rs) r h t = ground (arith, all-append test rs r, h, t)

all-select :
    (test keep : Link → Bool) (rs : List Link)
    → all test rs ≡ true
    → all test (select keep rs) ≡ true
all-select test keep [] h = refl
all-select test keep (x ∷ rs) h = ground (arith, all-select test keep rs, h)

check_head_within :
    (head : Option ℕ) (last n : ℕ) (b : Bool)
    → is_within head last ≡ true
    → check_head head last (intact n b) ≡ intact n b
check_head_within none last n b h = refl
check_head_within (some m) last n b h = ground (arith, h)

-- A sound chain verifies.
pub verify_chain_sound :
    (crypto : Crypto) (key : Option String) (links : List Link) (next : ℕ) (head : Option ℕ)
    → IsSound crypto key links next head
    → verify_chain crypto key head links
      ≡ intact (length links) (ltb 0 (length links) && all is_keyed links)
unfolding verify_chain
verify_chain_sound crypto key links next head s =
    let zeros : 0 + length links ≡ length links = omega arith in
    rw
      (
        walk-passes crypto key none false true 0 links s.passing,
        zeros,
        check_head_within head (last_id links) _ _ s.marked,
      )
      refl

own_named :
    (key : Option String) (genesis : String) (r : Link)
    → is_own key r ≡ true
    → names_previous (some r.entry_hash) (text_or genesis (some r.entry_hash)) ≡ true
own_named key genesis r h = ground (arith, h, eq_refl r.entry_hash)

-- the previous hash that an append writes is the one that the walk expects
last_named :
    (key : Option String) (genesis : String) (expected : Option String) (rs : List Link)
    → names_previous expected (text_or genesis expected) ≡ true
    → all (is_own key) rs ≡ true
    → names_previous (last_entry expected rs) (text_or genesis (last_entry expected rs)) ≡ true
last_named key genesis expected [] h own = h
last_named key genesis expected (r ∷ rs) h own =
    let (here, rest) = both_true (is_own key r) _ own in
    last_named key genesis (some r.entry_hash) rs (own_named key genesis r here) rest

algo_keyed : (key : Option String) → (algo_of key == keyed_name) ≡ is_some key
algo_keyed none = refl
algo_keyed (some k) = refl

unseen : (rs : List Link) → all (is_own none) rs ≡ true → any is_keyed rs ≡ false
unseen [] h = refl
unseen (r ∷ rs) h = ground (arith, unseen rs, h)

append_ok :
    (key : Option String) (rs : List Link)
    → all (is_own key) rs ≡ true
    → (is_some key || not (any is_keyed rs)) ≡ true
append_ok none rs h = rw (unseen rs h) refl
append_ok (some k) rs h = refl

-- the row that an append writes after a chain
pub record IsNext (crypto : Crypto) (key : Option String) (genesis : String) (links : List Link)
    (r : Link) : Type 0 where
  pub algo : r.hash_algo ≡ algo_of key
  pub prev : r.prev_hash ≡ text_or genesis (last_entry none links)
  pub entry : digest crypto key r.hash_algo r.prev_hash r.fields ≡ r.entry_hash
  pub hexadecimal : (r.entry_hash == "") ≡ false

module _ (crypto : Crypto) (key : Option String) (genesis : String) (links : List Link)
    (r : Link) where
  next_own : IsNext crypto key genesis links r → is_own key r ≡ true
  next_own n = rw (n.algo, algo_keyed key, n.hexadecimal) (ground arith)

  next_ok :
      IsNext crypto key genesis links r
      → all (is_own key) links ≡ true
      → is_link_ok crypto key (last_entry none links) (any is_keyed links) r ≡ true
  unfolding is_link_ok
  next_ok n own =
      let named = last_named key genesis none links refl own in
      let plain = append_ok key links own in
      rw (n.entry, eq_refl r.entry_hash, n.algo, algo_keyed key, n.prev, named)
        (ground (arith, plain))

  pub IsSound-append :
      (next : ℕ) (head head' : Option ℕ)
      → r.id ≡ next
      → IsNext crypto key genesis links r
      → IsSound crypto key links next head
      → is_within head' next ≡ true
      → IsSound crypto key (links ++ r ∷ []) (suc next) head'
  IsSound-append next head head' at n s within = record {
    passing = passes-append crypto key none false links r s.passing (next_ok n s.own);
    own = all-append (is_own key) links r s.own (next_own n);
    rising =
        subst (λ k. IsIncreasing 0 (links ++ r ∷ []) (suc k)) at
          (IsIncreasing-append 0 links r (subst (λ k. IsIncreasing 0 links k) (sym at) s.rising));
    marked = rw (last_id-append links r, at) within;
  }

select_last :
    (c : ℕ) (rs : List Link) (r : Link)
    → c < r.id
    → last_id (select (above c) (rs ++ r ∷ [])) ≡ r.id
select_last c rs r lt =
    let kept : ltb c r.id ≡ true = ground (arith, lt) in
    rw (select-append (above c) rs (r ∷ []), kept) (last_id-append (select (above c) rs) r)

pub IsSound-select :
    (crypto : Crypto) (key : Option String) (links : List Link) (r : Link) (next : ℕ)
    (head : Option ℕ) (c : ℕ)
    → c < r.id
    → IsSound crypto key (links ++ r ∷ []) next head
    → IsSound crypto key (select (above c) (links ++ r ∷ [])) next head
IsSound-select crypto key links r next head c lt s = record {
  passing = passes-select crypto key c 0 (links ++ r ∷ []) next s.rising s.passing;
  own = all-select (is_own key) (above c) (links ++ r ∷ []) s.own;
  rising = IsIncreasing-select c 0 (links ++ r ∷ []) next s.rising;
  marked = rw (select_last c links r lt) (rw (← last_id-append links r) s.marked);
}

own_provisioned :
    (k : String) (rs : List Link) → all (is_own none) rs ≡ true → all (is_own (some k)) rs ≡ true
own_provisioned k [] h = refl
own_provisioned k (r ∷ rs) h = ground (arith, own_provisioned k rs, h)

pub IsSound-provisioned :
    (crypto : Crypto) (k : String) (links : List Link) (next : ℕ) (head : Option ℕ)
    → IsSound crypto none links next head
    → IsSound crypto (some k) links next head
IsSound-provisioned crypto k links next head s = record {
  passing = passes_provisioned crypto k none false links s.passing;
  own = own_provisioned k links s.own;
  rising = s.rising;
  marked = s.marked;
}
