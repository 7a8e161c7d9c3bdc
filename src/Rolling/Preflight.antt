-- ===== src/Rolling/Preflight.antt =====
-- webgui/rolling.py: what `preflight` and `batches` give the rest of `run`.
use sysible_controller.Prelude.{
  ℕ, zero, suc, ◌≤◌, ◌≡◌, refl, ap, ◌∙◌, ◌==◌, String, Bool, true, false, List, [], ◌∷◌, ◌++◌,
  length, take, drop, concat, All, member, IsDistinct, Dict, insert, keys, arith, if◌then◌else◌,
  eq_iff, take-append-drop, length-drop,
}
use sysible_controller.Rolling.Events.{Outcome}
use sysible_controller.Rolling.Base.{batches, batches_from, group_size, healthy_of, probe_all, safe}

length-take-le : (n : ℕ) (xs : List String) → length (take n xs) ≤ n
length-take-le zero xs = omega arith
length-take-le (suc n) [] = omega arith
length-take-le (suc n) (x ∷ xs) = omega (arith, length-take-le n xs)

concat-batches_from :
    (fuel n : ℕ) (members : List String)
    → length members ≤ fuel
    → concat (batches_from fuel (suc n) members) ≡ members
unfolding batches_from
concat-batches_from zero n [] h = refl
concat-batches_from zero n (m ∷ ms) h = absurd (omega arith)
concat-batches_from (suc fuel) n [] h = refl
concat-batches_from (suc fuel) n (m ∷ ms) h =
    ap (λ rest. take (suc n) (m ∷ ms) ++ rest)
      (concat-batches_from fuel n (drop n ms) (omega (arith, length-drop n ms)))
    ∙ take-append-drop (suc n) (m ∷ ms)

-- The groups, one after the other, are the roll order: no member is lost or repeated.
pub concat-batches : (members : List String) (mu : ℕ) → concat (batches members mu) ≡ members
unfolding batches
concat-batches members zero = concat-batches_from (length members) 0 members (omega arith)
concat-batches members (suc n) = concat-batches_from (length members) n members (omega arith)

batches_from-fit :
    (fuel n : ℕ) (members : List String)
    → All (λ group. length group ≤ n) (batches_from fuel n members)
unfolding batches_from
batches_from-fit zero n members = tt
batches_from-fit (suc fuel) n [] = tt
batches_from-fit (suc fuel) n (m ∷ ms) =
    (length-take-le n (m ∷ ms), batches_from-fit fuel n (drop n (m ∷ ms)))

-- No group is larger than `max_unavailable` allows.
pub batches-fit :
    (members : List String) (mu : ℕ)
    → All (λ group. length group ≤ group_size mu) (batches members mu)
unfolding batches
batches-fit members mu = batches_from-fit (length members) (group_size mu) members

member-keys-insert :
    (j k : String) (ok : Bool) (states : Dict Bool)
    → member j (keys (insert k ok states)) ≡ (if j == k then true else member j (keys states))
unfolding insert
member-keys-insert j k ok [] = refl
member-keys-insert j k ok ((i, b) ∷ states) =
    ground (arith, eq_iff j k, eq_iff k i, eq_iff j i, member-keys-insert j k ok states)

insert-IsDistinct :
    (k : String) (ok : Bool) (states : Dict Bool)
    → IsDistinct (keys states)
    → IsDistinct (keys (insert k ok states))
unfolding insert
insert-IsDistinct k ok [] d = (refl, tt)
insert-IsDistinct k ok ((i, b) ∷ states) d = ground (
  arith,
  eq_iff k i,
  eq_iff i k,
  insert-IsDistinct k ok states d.1,
  member-keys-insert i k ok states,
)

healthy_of-absent :
    (h : String) (states : Dict Bool)
    → member h (keys states) ≡ false
    → member h (healthy_of states) ≡ false
unfolding healthy_of
healthy_of-absent h [] absent = refl
healthy_of-absent h ((k, ok) ∷ states) absent = ground (arith, healthy_of-absent h states)

healthy_of-IsDistinct :
    (states : Dict Bool) → IsDistinct (keys states) → IsDistinct (healthy_of states)
unfolding healthy_of
healthy_of-IsDistinct [] d = tt
healthy_of-IsDistinct ((k, ok) ∷ states) d =
    ground (arith, healthy_of-IsDistinct states d.1, healthy_of-absent k states)

module _ {W : Type 0} (health : String → W → Outcome × W) where
  probe_all-IsDistinct :
      (members : List String) (states : Dict Bool) (w : W)
      → IsDistinct (keys states)
      → IsDistinct (keys (probe_all health members states w).0)
  unfolding probe_all
  probe_all-IsDistinct [] states w d = d
  probe_all-IsDistinct (h ∷ hs) states w d =
      let (answer, w') = health h w in
      probe_all-IsDistinct hs (insert h (safe answer).0 states) w'
        (insert-IsDistinct h (safe answer).0 states d)

  -- The hosts that the preflight found healthy, each once.
  abbrev pub found_healthy : List String → W → List String
  found_healthy members w = healthy_of (probe_all health members [] w).0

  pub found_healthy-IsDistinct :
      (members : List String) (w : W) → IsDistinct (found_healthy members w)
  found_healthy-IsDistinct members w =
      healthy_of-IsDistinct (probe_all health members [] w).0 (probe_all-IsDistinct members [] w tt)

-- The groups are the roll order cut in pieces: put together they are the members, in order and each
-- where it was, and none is larger than `max_unavailable` allows.
pub batches-concat-fit :
    (members : List String) (mu : ℕ)
    → (concat (batches members mu) ≡ members)
      × All (λ group. length group ≤ group_size mu) (batches members mu)
batches-concat-fit members mu = (concat-batches members mu, batches-fit members mu)
