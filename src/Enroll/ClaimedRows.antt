-- ===== src/Enroll/ClaimedRows.antt =====
-- The rows of the token table that are claimed by one host.
use sysible_controller.Prelude.{
  ℕ, ◌≡◌, refl, String, Bool, true, false, not, ◌&&◌, ◌||◌, Option, none, some, [], ◌∷◌, Dict,
  lookup, insert, ◌==◌, if◌then◌else◌, arith, eq_iff, eq_refl, IsDistinct, keys, member,
}
use sysible_controller.Enroll.Token.{Token, is_bound, is_claimable, delete_where}

-- claimed by this host
unfoldable pub is_claimed_by : String → Token → Bool
is_claimed_by host t = t.used && is_bound host t

-- Every row under this key is.
abbrev pub all_claimed : String → String → Dict Token → Bool
all_claimed key host [] = true
all_claimed key host ((k, t) ∷ rows) =
    let rest = all_claimed key host rows in
    (if k == key then is_claimed_by host t else true) && rest

module _ (key host : String) where
  absent_claimed :
      (rows : Dict Token) → member key (keys rows) ≡ false → all_claimed key host rows ≡ true
  absent_claimed [] new = refl
  absent_claimed ((k, t) ∷ rows) new =
      ground (arith, new, eq_iff k key, eq_iff key k, absent_claimed rows)

  pub insert_claimed :
      (v : Token) (rows : Dict Token)
      → IsDistinct (keys rows)
      → is_claimed_by host v ≡ true
      → all_claimed key host (insert key v rows) ≡ true
  unfolding insert
  insert_claimed v [] d c = rw (eq_refl, c) refl
  insert_claimed v ((k, t) ∷ rows) d c = ground (
    arith,
    eq_iff k key,
    eq_iff key k,
    eq_refl key,
    c,
    d.0,
    absent_claimed rows,
    insert_claimed v rows d.1 c,
  )

  pub insert_keeps :
      (k : String) (v : Token) (rows : Dict Token)
      → (k ≡ key → is_claimed_by host v ≡ true)
      → all_claimed key host rows ≡ true
      → all_claimed key host (insert k v rows) ≡ true
  unfolding insert
  insert_keeps k v [] c h = ground (arith, eq_iff k key, c)
  insert_keeps k v ((j, t) ∷ rows) c h =
      ground (arith, h, c, eq_iff k key, eq_iff j key, eq_iff k j, insert_keeps k v rows c)

  pub delete_keeps :
      (test : Token → Bool) (rows : Dict Token)
      → all_claimed key host rows ≡ true
      → all_claimed key host (delete_where test rows).1 ≡ true
  unfolding delete_where
  delete_keeps test [] h = refl
  delete_keeps test ((k, t) ∷ rows) h = ground (arith, h, delete_keeps test rows)

  pub lookup_claimed :
      (rows : Dict Token) (t : Token)
      → all_claimed key host rows ≡ true
      → lookup key rows ≡ some t
      → is_claimed_by host t ≡ true
  unfolding lookup
  lookup_claimed [] t h e = cc e
  lookup_claimed ((k, v) ∷ rows) t h e =
      ground (arith, h, e, eq_iff k key, eq_iff key k, lookup_claimed rows t)

again_bound :
    (host h : String) (used : Bool) (o : Option String)
    → (not used || (elim o [ none ↦ false | some b ↦ b == h ])) ≡ true
    → (used && (elim o [ none ↦ false | some b ↦ b == host ])) ≡ true
    → (h == host) ≡ true
again_bound host h used none may c = ground (arith, may, c)
again_bound host h used (some b) may c =
    ground (arith, may, c, eq_iff b h, eq_iff b host, eq_iff h host)

foreign_bound :
    (host h : String) (used : Bool) (o : Option String)
    → (h == host) ≡ false
    → (used && (elim o [ none ↦ false | some b ↦ b == host ])) ≡ true
    → (not used || (elim o [ none ↦ false | some b ↦ b == h ])) ≡ false
foreign_bound host h used none other c = ground (arith, c)
foreign_bound host h used (some b) other c =
    ground (arith, other, c, eq_iff b h, eq_iff b host, eq_iff h host)

-- A claimed row that a host may claim is that host's.
pub again :
    (host h : String) (now : ℕ) (t : Token)
    → is_claimable h t ≡ true
    → is_claimed_by host t ≡ true
    → is_claimed_by host (record t { used = true; bound_host_id = some h; last_used = some now })
      ≡ true
unfolding is_claimed_by
again host h now t may c = again_bound host h t.used t.bound_host_id may c

pub foreign :
    (host h : String) (t : Token)
    → (h == host) ≡ false
    → is_claimed_by host t ≡ true
    → is_claimable h t ≡ false
unfolding is_claimed_by
foreign host h t other c = foreign_bound host h t.used t.bound_host_id other c
