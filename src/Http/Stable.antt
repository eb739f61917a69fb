-- ===== src/Http/Stable.antt =====
-- A parse and the bytes that arrive later.
use rest_api_gateway.Prelude.{
  ◌≤◌, ◌≡◌, refl, ap, true, ◌&&◌, [], ◌∷◌, ◌++◌, Option, none, some, Bytes, length, drop, ◌==◌,
  arith, Bool-cases, Option-cases, inl, inr, drop-append_of_le,
}
use rest_api_gateway.Http.{starts_with, split_text}

starts_with-length : (p s : Bytes) → starts_with p s ≡ true → length p ≤ length s
unfolding starts_with
starts_with-length [] s h = omega arith
starts_with-length (x ∷ p) [] h = cc
starts_with-length (x ∷ p) (c ∷ s) h = ground (arith, starts_with-length p s)

starts_with-append :
    (p s more : Bytes) → length p ≤ length s → starts_with p (s ++ more) ≡ starts_with p s
unfolding starts_with
starts_with-append [] s more h = refl
starts_with-append (x ∷ p) [] more h = absurd (omega arith)
starts_with-append (x ∷ p) (c ∷ s) more h =
    ap (λ b. x == c && b) (starts_with-append p s more (omega arith))

split_text-length : (p s a b : Bytes) → split_text p s ≡ some (a, b) → length p ≤ length s
unfolding split_text
split_text-length p [] a b h = cc
split_text-length p (c ∷ s) a b h = elim (Bool-cases (starts_with p (c ∷ s))) [
  | inl here ↦ starts_with-length p (c ∷ s) here
  | inr away ↦ elim (Option-cases (split_text p s)) [
    | inl missing ↦
        let none_some : ◌≡◌ {A = Option (Bytes × Bytes)} none (some (a, b)) =
          rw (away, missing) at h in
        cc
    | inr ((a', b'), at) ↦ omega (arith, split_text-length p s a' b' at)
  ]
]

-- The first place of a pattern stays the first when bytes are added at the end.
pub split_text-append :
    (p s a b more : Bytes)
    → split_text p s ≡ some (a, b)
    → split_text p (s ++ more) ≡ some (a, b ++ more)
unfolding split_text
split_text-append p [] a b more h = cc
split_text-append p (c ∷ s) a b more h = elim (Bool-cases (starts_with p (c ∷ s))) [
  | inl here ↦
      let fits = starts_with-length p (c ∷ s) here in
      let same : ◌≡◌ {A = Option (Bytes × Bytes)} (some ([], drop (length p) (c ∷ s)))
          (some (a, b)) =
        rw here at h in
      let front : [] ≡ a = cc in
      let behind : drop (length p) (c ∷ s) ≡ b = cc in
      rw
        (
          starts_with-append p (c ∷ s) more fits,
          here,
          drop-append_of_le (length p) (c ∷ s) more fits,
          front,
          behind,
        )
        refl
  | inr away ↦ elim (Option-cases (split_text p s)) [
    | inl missing ↦
        let none_some : ◌≡◌ {A = Option (Bytes × Bytes)} none (some (a, b)) =
          rw (away, missing) at h in
        cc
    | inr ((a', b'), at) ↦
        let same : ◌≡◌ {A = Option (Bytes × Bytes)} (some (c ∷ a', b')) (some (a, b)) =
          rw (away, at) at h in
        let front : c ∷ a' ≡ a = cc in
        let behind : b' ≡ b = cc in
        rw
          (
            starts_with-append p (c ∷ s) more (omega (arith, split_text-length p s a' b' at)),
            away,
            split_text-append p s a' b' more at,
            front,
            behind,
          )
          refl
  ]
]
