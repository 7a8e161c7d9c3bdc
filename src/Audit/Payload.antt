-- ===== src/Audit/Payload.antt =====
-- `_digest_payload`: the bytes that a row's hash covers.
use sysible_controller.Prelude.{
  ℕ, ◌+◌, ◌*◌, ◌/◌, ◌%◌, ◌≡◌, refl, String, List, [], ◌∷◌, ◌++◌, map, length, arith,
}

-- `struct.pack(">I", n)`, of a number that fits: Python raises on a larger one
abbrev pub pack : ℕ → List ℕ
pack n = n / 16777216 ∷ n / 65536 % 256 ∷ n / 256 % 256 ∷ n % 256 ∷ []

-- over the encoded fields
unfoldable pub frame : List (List ℕ) → List ℕ
frame [] = []
frame (b ∷ bs) = pack (length b) ++ (b ++ frame bs)

-- `encode` is `str.encode("utf-8")`. A field is a text: `f or ''` makes None and the empty text one.
unfoldable pub digest_payload : (String → List ℕ) → List String → List ℕ
unfolding frame
digest_payload encode fields = frame (map encode fields)

abbrev pub unpack : ℕ → ℕ → ℕ → ℕ → ℕ
unpack a b c d = a * 16777216 + b * 65536 + c * 256 + d

unpack-pack : (n : ℕ) → unpack (n / 16777216) (n / 65536 % 256) (n / 256 % 256) (n % 256) ≡ n
unpack-pack n = omega arith

append_inj : (a b x y : List ℕ) → length a ≡ length b → a ++ x ≡ b ++ y → (a ≡ b) × (x ≡ y)
append_inj [] [] x y n e = (refl, e)
append_inj [] (c ∷ b) x y n e = absurd (omega (arith, n))
append_inj (c ∷ a) [] x y n e = absurd (omega (arith, n))
append_inj (c ∷ a) (d ∷ b) x y n e =
    let head : c ≡ d = cc e in
    let tail : a ++ x ≡ b ++ y = cc e in
    let (same, rest) = append_inj a b x y (omega (arith, n)) tail in (cc (head, same), rest)

pack_inj : (m n : ℕ) (x y : List ℕ) → pack m ++ x ≡ pack n ++ y → (m ≡ n) × (x ≡ y)
pack_inj m n x y e =
    let a : m / 16777216 ≡ n / 16777216 = cc e in
    let b : m / 65536 % 256 ≡ n / 65536 % 256 = cc e in
    let c : m / 256 % 256 ≡ n / 256 % 256 = cc e in
    let d : m % 256 ≡ n % 256 = cc e in
    (omega (arith, unpack-pack m, unpack-pack n, a, b, c, d), cc e)

frame_inj : (bs cs : List (List ℕ)) → frame bs ≡ frame cs → bs ≡ cs
unfolding frame
frame_inj [] [] e = refl
frame_inj [] (c ∷ cs) e = cc e
frame_inj (b ∷ bs) [] e = cc e
frame_inj (b ∷ bs) (c ∷ cs) e =
    let (n, rest) = pack_inj (length b) (length c) _ _ e in
    let (here, tail) = append_inj b c (frame bs) (frame cs) n rest in
    let ih = frame_inj bs cs tail in cc (here, ih)

map_inj :
    (f : String → List ℕ)
    → ((s t : String) → f s ≡ f t → s ≡ t)
    → (xs ys : List String) → map f xs ≡ map f ys
    → xs ≡ ys
map_inj f inj [] [] e = refl
map_inj f inj [] (y ∷ ys) e = cc e
map_inj f inj (x ∷ xs) [] e = cc e
map_inj f inj (x ∷ xs) (y ∷ ys) e =
    let same : f x ≡ f y = cc e in
    let rest : map f xs ≡ map f ys = cc e in
    let here = inj x y same in let ih = map_inj f inj xs ys rest in cc (here, ih)

-- The payload tells its fields apart. Two lists of fields with one payload are the same list: no text in a
-- field can be taken for a boundary between fields. UTF-8 encodes different texts differently.
pub digest_payload_inj :
    (encode : String → List ℕ)
    → ((s t : String) → encode s ≡ encode t → s ≡ t)
    → (xs ys : List String) → digest_payload encode xs ≡ digest_payload encode ys
    → xs ≡ ys
unfolding digest_payload
digest_payload_inj encode inj xs ys e = map_inj encode inj xs ys (frame_inj _ _ e)
