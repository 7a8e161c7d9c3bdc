-- ===== src/Pools/Valid.antt =====
-- Every pool in the file can be rolled.
use sysible_controller.Prelude.{
  ℕ, suc, ◌+◌, ◌≤◌, ◌≡◌, refl, sym, ◌∙◌, String, Bool, true, false, not, ◌&&◌, Option, none, some,
  List, [], ◌∷◌, length, All, All-append, select, member, member-add, IsDistinct, leb, nat_eq, ◌==◌,
  arith, Bool-cases, inl, inr, both_true, eq_iff,
}
use sysible_controller.Pools.Store.{
  Given, number, no_number, below_zero, Pool, Data, to_set, is_within, is_at_least, takes_too_many,
  is_name, members_ok, provider_ok, health_ok, numbers_ok, or_text, validate, new_pool, merged,
  create_pool, update_pool, keep, delete_pool, or_else, Step, step, steps,
}

-- a roll order without repetition of two members or more, and numbers that leave enough of them in service
pub record IsRollable (p : Pool) : Type 0 where
  pub distinct : IsDistinct p.members
  pub several : 2 ≤ length p.members
  pub taken : ℕ
  pub kept : ℕ
  pub takes : p.max_unavailable ≡ number taken
  pub keeps : p.min_healthy ≡ number kept
  pub some_taken : 1 ≤ taken
  pub some_kept : 1 ≤ kept
  pub fits : taken + kept ≤ length p.members

member-to_set : (x : String) (xs : List String) → member x (to_set xs) ≡ member x xs
member-to_set x [] = refl
member-to_set x (y ∷ ys) =
    ground (arith, member-to_set x ys, member-add x y (to_set ys), eq_iff x y)

length-to_set-le : (xs : List String) → length (to_set xs) ≤ length xs
length-to_set-le [] = omega arith
length-to_set-le (x ∷ xs) = ground (arith, length-to_set-le xs)

to_set-IsDistinct : (xs : List String) → length (to_set xs) ≡ length xs → IsDistinct xs
to_set-IsDistinct [] h = tt
to_set-IsDistinct (x ∷ xs) h = elim (Bool-cases (member x (to_set xs))) [
  | inl again ↦ absurd (repeats again h)
  | inr new ↦
      let same : length (to_set xs) ≡ length xs = ground (arith, new, h) in
      (sym (member-to_set x xs) ∙ new, to_set-IsDistinct xs same)
]
  where
    repeats : member x (to_set xs) ≡ true → length (to_set (x ∷ xs)) ≡ suc (length xs) → ⊥
    repeats again h = ground (arith, again, h, length-to_set-le xs)

numbers :
    (mu mh : Given) (n : ℕ)
    → is_within 1 32 mu ≡ true
    → is_at_least 1 mh ≡ true
    → takes_too_many mu mh n ≡ false
    → (a b : ℕ) × (mu ≡ number a) × (mh ≡ number b) × (1 ≤ a) × (1 ≤ b) × (a + b ≤ n)
numbers no_number mh n h g t = absurd (cc h)
numbers below_zero mh n h g t = absurd (cc h)
numbers (number a) no_number n h g t = absurd (cc g)
numbers (number a) below_zero n h g t = absurd (cc g)
numbers (number a) (number b) n h g t =
    (a, b, refl, refl, ground (arith, h), ground (arith, g), ground (arith, t))

module _ (strip : String → String) (int : String → Option ℕ) (is_word : ℕ → Bool) where
  validate-IsRollable : (p : Pool) → validate strip int is_word p ≡ true → IsRollable p
  unfolding validate
  validate-IsRollable p h =
      let (front, figures) = both_true _ (numbers_ok strip int is_word p) h in
      let (front', _) =
        both_true _ (health_ok strip int is_word (or_text "agent" p.health_kind) p.health_target)
          front in
      let (front'', _) =
        both_true
          (is_name strip int is_word (strip p.name) && members_ok strip int is_word p.members)
          (provider_ok strip int is_word p) front' in
      let (_, crew) =
        both_true (is_name strip int is_word (strip p.name))
          (members_ok strip int is_word p.members) front'' in
      let (crew', two) = both_true _ (leb 2 (length p.members)) crew in
      let (_, once) = both_true _ (nat_eq (length (to_set p.members)) (length p.members)) crew' in
      let (figures', _) = both_true _ (is_within 0 3600 p.settle_secs) figures in
      let (figures'', few) =
        both_true _ (not (takes_too_many p.max_unavailable p.min_healthy (length p.members)))
          figures' in
      let (within, least) =
        both_true (is_within 1 32 p.max_unavailable) (is_at_least 1 p.min_healthy) figures'' in
      let enough : takes_too_many p.max_unavailable p.min_healthy (length p.members) ≡ false =
        ground (arith, few) in
      let (a, b, mu, mh, one, one', le) =
        numbers p.max_unavailable p.min_healthy (length p.members) within least enough in
      record {
        distinct = to_set-IsDistinct p.members (ground (arith, once));
        several = ground (arith, two);
        taken = a;
        kept = b;
        takes = mu;
        keeps = mh;
        some_taken = one;
        some_kept = one';
        fits = le;
      }

  created-IsRollable :
      (id : String) (now : ℕ) (by : String) (d : Data) (pools : List Pool)
      → All IsRollable pools
      → All IsRollable (or_else pools (create_pool strip int is_word id now by d pools))
  unfolding create_pool
  created-IsRollable id now by d pools a =
      elim (Bool-cases (validate strip int is_word (new_pool strip int is_word id now by d))) [
        | inr bad ↦ rw bad a
        | inl good ↦ rw good (
            All-append IsRollable pools _ a
              (validate-IsRollable (new_pool strip int is_word id now by d) good, tt))
      ]

  -- an update that raises gives no list, and another one only pools that can be rolled
  abbrev HasRollable : Option (List Pool) → Type 0
  HasRollable none = Unit
  HasRollable (some pools) = All IsRollable pools

  keep-HasRollable :
      (p : Pool) (o : Option (List Pool))
      → IsRollable p
      → HasRollable o
      → HasRollable (keep strip int is_word p o)
  keep-HasRollable p none r h = tt
  keep-HasRollable p (some pools) r h = (r, h)

  update-HasRollable :
      (pool_id : String) (d : Data) (pools : List Pool)
      → All IsRollable pools
      → HasRollable (update_pool strip int is_word pool_id d pools)
  unfolding update_pool
  update-HasRollable pool_id d [] a = a
  update-HasRollable pool_id d (p ∷ pools) a =
      let ih = update-HasRollable pool_id d pools a.1 in
      elim (Bool-cases (p.id == pool_id)) [
        | inr other ↦ rw other (keep-HasRollable p _ a.0 ih)
        | inl here ↦
            rw here (elim (Bool-cases (validate strip int is_word (merged strip int is_word d p))) [
              | inr bad ↦ rw bad tt
              | inl good ↦ rw good (validate-IsRollable (merged strip int is_word d p) good, a.1)
            ])
      ]

  updated-IsRollable :
      (o : Option (List Pool)) (pools : List Pool)
      → All IsRollable pools
      → HasRollable o
      → All IsRollable (or_else pools o)
  updated-IsRollable none pools a h = a
  updated-IsRollable (some new) pools a h = h

  deleted-IsRollable :
      (pool_id : String) (pools : List Pool)
      → All IsRollable pools
      → All IsRollable (select (λ (p : Pool). not (p.id == pool_id)) pools)
  deleted-IsRollable pool_id [] a = a
  deleted-IsRollable pool_id (p ∷ pools) a =
      let ih = deleted-IsRollable pool_id pools a.1 in
      elim (Bool-cases (p.id == pool_id)) [ inl here ↦ rw here ih | inr other ↦ rw other (a.0, ih) ]

  -- Every pool in the file can be rolled, after any creations, updates and deletions, refused ones included: its roll order
  -- has no host twice and at least two hosts, and it takes at least one host out at a time, keeps at least one
  -- in service, and has hosts enough for both.
  pub steps-IsRollable :
      (ss : List Step) (pools : List Pool)
      → All IsRollable pools
      → All IsRollable (steps strip int is_word ss pools)
  unfolding steps step delete_pool
  steps-IsRollable [] pools a = a
  steps-IsRollable (Step.create id now by d ∷ ss) pools a =
      steps-IsRollable ss _ (created-IsRollable id now by d pools a)
  steps-IsRollable (Step.update pool_id d ∷ ss) pools a =
      steps-IsRollable ss _ (updated-IsRollable _ pools a (update-HasRollable pool_id d pools a))
  steps-IsRollable (Step.delete pool_id ∷ ss) pools a =
      steps-IsRollable ss _ (deleted-IsRollable pool_id pools a)
