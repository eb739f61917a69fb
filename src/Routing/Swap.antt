-- ===== src/Routing/Swap.antt =====
-- Replacing an element by one with its key, and removing one by swapping in the last, in a list
-- whose keys are distinct.
use rest_api_gateway.Prelude.{
  ℕ, ◌≡◌, ◌≢◌, refl, ap, ◌⊎◌, inl, inr, Option-cases, none, some, List, [], ◌∷◌, ◌++◌, Bytes, ◌=s=◌,
  bytes_eq_iff, bytes_eq_refl, if◌then◌else◌, arith,
}
use rest_api_gateway.Routing.Keyed.{
  position, find_key, Distinct, position-append, find_key-append, find_key-none,
}

module _ {ℓ} {A : Type ℓ} (key : A → Bytes) where
  pub Distinct-append_left : (xs ys : List A) → Distinct key (xs ++ ys) → Distinct key xs
  Distinct-append_left [] ys d = tt
  Distinct-append_left (x ∷ xs) ys (h, d) =
      (ground (arith, position-append key (key x) xs ys), Distinct-append_left xs ys d)

  pub Distinct-append_right : (xs ys : List A) → Distinct key (xs ++ ys) → Distinct key ys
  Distinct-append_right [] ys d = d
  Distinct-append_right (x ∷ xs) ys (h, d) = Distinct-append_right xs ys d

  -- A key of the second part is not one of the first.
  pub Distinct-apart :
      (k : Bytes) (xs ys : List A)
      → Distinct key (xs ++ ys)
      → position key k ys ≢ none
      → position key k xs ≡ none
  unfolding position
  Distinct-apart k [] ys d h = refl
  Distinct-apart k (x ∷ xs) ys (hx, d) h =
      let later = Distinct-apart k xs ys d h in
      let front = position-append key (key x) xs ys in ground (arith, bytes_eq_iff (key x) k)

  pub Distinct-join :
      (xs ys : List A)
      → Distinct key xs
      → Distinct key ys
      → ((k : Bytes) → position key k ys ≢ none → position key k xs ≡ none)
      → Distinct key (xs ++ ys)
  unfolding position
  Distinct-join [] ys dx dy h = dy
  Distinct-join (x ∷ xs) ys (hx, dx) dy h = (
    front (Option-cases (position key (key x) ys)),
    Distinct-join xs ys dx dy (λ k p. let q = h k p in ground arith),
  )
    where
      front :
          (position key (key x) ys ≡ none) ⊎ ((i : ℕ) × (position key (key x) ys ≡ some i))
          → position key (key x) (xs ++ ys) ≡ none
      front (inl e) = ground (arith, position-append key (key x) xs ys)
      front (inr (i, e)) =
          let q = h (key x) (λ n. ground arith) in ground (arith, bytes_eq_refl (key x))

  -- Leaving one element out keeps the keys distinct.
  pub Distinct-without :
      (xs : List A) (y : A) (ys : List A) → Distinct key (xs ++ y ∷ ys) → Distinct key (xs ++ ys)
  unfolding position
  Distinct-without xs y ys d =
      Distinct-join xs ys (Distinct-append_left xs (y ∷ ys) d)
        (Distinct-append_right xs (y ∷ ys) d).1
        λ k p. Distinct-apart k xs (y ∷ ys) d (λ e. p (ground arith))

  module _ (pre : List A) (x y : A) (post : List A) (same : key y ≡ key x) where
    pub position-replace :
        (j : Bytes) → position key j (pre ++ y ∷ post) ≡ position key j (pre ++ x ∷ post)
    unfolding position
    position-replace j =
        rw (position-append key j pre (y ∷ post), position-append key j pre (x ∷ post), same) refl

    pub Distinct-replace : Distinct key (pre ++ x ∷ post) → Distinct key (pre ++ y ∷ post)
    unfolding position
    Distinct-replace d =
        let (hx, dp) = Distinct-append_right pre (x ∷ post) d in
        Distinct-join pre (y ∷ post) (Distinct-append_left pre (x ∷ post) d) (rw same hx, dp)
          λ k p. Distinct-apart k pre (x ∷ post) d (rw same at p)

    pub find_key-replace :
        (j : Bytes)
        → position key (key x) pre ≡ none
        → find_key key j (pre ++ y ∷ post)
          ≡ (if key x =s= j then some y else find_key key j (pre ++ x ∷ post))
    unfolding find_key
    find_key-replace j fresh = ground (
      arith,
      find_key-append key j pre (y ∷ post),
      find_key-append key j pre (x ∷ post),
      find_key-none key (key x) pre fresh,
      bytes_eq_iff (key x) j,
      ap (λ k. k =s= j) same,
    )
