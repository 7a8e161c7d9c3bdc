-- ===== src/Prelude/Sorting.antt =====
-- Python's `sorted` on strings, by code points.
use Prim.Native.String.{String, compare}
use Prim.Native.Nat.{Ordering}
use mathlib.Core.Path.{◌≡◌, refl}
use mathlib.Core.Bool.{Bool, true, false}
use mathlib.Core.List.{List, [], ◌∷◌}
use native.Mathlib.Omega.{arith}
use text.Mathlib.Text.{◌==◌}
use sysible_controller.Prelude.Tests.{if◌then◌else◌}
use sysible_controller.Prelude.StringSet.{member}

abbrev pub not_after : String → String → Bool
not_after a b = elim (compare a b) [ Ordering.gt ↦ false | _ ↦ true ]

insert_sorted : String → List String → List String
insert_sorted x [] = x ∷ []
insert_sorted x (y ∷ ys) = if not_after x y then x ∷ y ∷ ys else y ∷ insert_sorted x ys

unfoldable pub sorted : List String → List String
unfolding insert_sorted
sorted [] = []
sorted (x ∷ xs) = insert_sorted x (sorted xs)

member-insert_sorted :
    (h x : String) (xs : List String)
    → member h (insert_sorted x xs) ≡ (if h == x then true else member h xs)
unfolding insert_sorted
member-insert_sorted h x [] = refl
member-insert_sorted h x (y ∷ ys) = ground (arith, member-insert_sorted h x ys)

pub member-sorted : (h : String) (xs : List String) → member h (sorted xs) ≡ member h xs
unfolding sorted
member-sorted h [] = refl
member-sorted h (x ∷ xs) = ground (arith, member-insert_sorted h x (sorted xs), member-sorted h xs)
