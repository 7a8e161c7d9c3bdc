-- ===== src/Prelude/StringSet.antt =====
-- Python's `set` of strings, as a list without repetition.
use Prim.Native.Nat.{◌+◌, ◌≤◌}
use Prim.Native.String.{String}
use mathlib.Core.Path.{◌≡◌, refl}
use mathlib.Core.Bool.{Bool, true, false}
use mathlib.Core.List.{List, [], ◌∷◌}
use native.Mathlib.Omega.{arith}
use text.Mathlib.Text.{◌==◌}
use text.Mathlib.TextEquality.{eq_iff}
use sysible_controller.Prelude.Tests.{if◌then◌else◌}
use sysible_controller.Prelude.Lists.{length}

-- `x in s`
abbrev pub member : String → List String → Bool
member x [] = false
member x (y ∷ ys) = if x == y then true else member x ys

-- `s.add(x)`
abbrev pub add : String → List String → List String
add x s = if member x s then s else x ∷ s

-- `s.discard(x)`
abbrev pub discard : String → List String → List String
discard x [] = []
discard x (y ∷ ys) = let rest = discard x ys in if x == y then rest else y ∷ rest

abbrev pub IsDistinct : List String → Type 0
IsDistinct [] = Unit
IsDistinct (x ∷ xs) = (member x xs ≡ false) × IsDistinct xs

pub member-discard :
    (x y : String) (s : List String)
    → member x (discard y s) ≡ (if x == y then false else member x s)
member-discard x y [] = ground arith
member-discard x y (z ∷ zs) =
    ground (arith, eq_iff x y, eq_iff x z, eq_iff y z, member-discard x y zs)

pub member-add :
    (x y : String) (s : List String) → member x (add y s) ≡ (if x == y then true else member x s)
member-add x y s = ground (arith, eq_iff x y)

pub discard-IsDistinct : (x : String) (s : List String) → IsDistinct s → IsDistinct (discard x s)
discard-IsDistinct x [] d = tt
discard-IsDistinct x (y ∷ ys) d =
    ground (arith, discard-IsDistinct x ys d.1, member-discard y x ys, eq_iff x y)

pub add-IsDistinct : (x : String) (s : List String) → IsDistinct s → IsDistinct (add x s)
add-IsDistinct x s d = ground arith

-- Taking an absent element out changes nothing.
pub discard_absent : (x : String) (s : List String) → member x s ≡ false → discard x s ≡ s
discard_absent x [] h = refl
discard_absent x (y ∷ ys) h = ground (arith, discard_absent x ys)

-- Taking one element out costs one place at most, and exactly its own.
pub length-discard :
    (x : String) (s : List String)
    → IsDistinct s
    → length s ≡ length (discard x s) + (if member x s then 1 else 0)
length-discard x [] d = omega arith
length-discard x (y ∷ ys) d =
    ground (arith, length-discard x ys d.1, eq_iff x y, discard_absent x ys)

pub length-add-le : (x : String) (s : List String) → length s ≤ length (add x s)
length-add-le x s = ground arith
