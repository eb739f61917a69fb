-- ===== src/Routing/Keyed.antt =====
-- Lists whose elements have a text key: where a key stands, and the laws of appending,
-- replacing and removing by swapping with the last.
use rest_api_gateway.Prelude.{
  ℕ, ◌+◌, ◌≡◌, refl, ap, ◌⊎◌, inl, inr, Bool-cases, Option-cases, Option, none, some, List, [], ◌∷◌,
  ◌++◌, Bytes, or_else, ◌=s=◌, bytes_eq_iff, if◌then◌else◌, length, get_elem?, set, arith,
}

-- A position behind n others.
abbrev pub shift : ℕ → Option ℕ → Option ℕ
shift n none = none
shift n (some i) = some (n + i)

-- pop_back
abbrev pub drop_last {ℓ} : {B : Type ℓ} → List B → List B
drop_last [] = []
drop_last (x ∷ []) = []
drop_last (x ∷ y ∷ xs) = x ∷ drop_last (y ∷ xs)

-- back
abbrev pub last? {ℓ} : {B : Type ℓ} → List B → Option B
last? [] = none
last? (x ∷ []) = some x
last? (x ∷ y ∷ xs) = last? (y ∷ xs)

pub drop_last-concat {ℓ} : {B : Type ℓ} (xs : List B) (z : B) → drop_last (xs ++ z ∷ []) ≡ xs
drop_last-concat [] z = refl
drop_last-concat (x ∷ []) z = refl
drop_last-concat (x ∷ y ∷ xs) z = ap (◌∷◌ x) (drop_last-concat (y ∷ xs) z)

pub last?-concat {ℓ} : {B : Type ℓ} (xs : List B) (z : B) → last? (xs ++ z ∷ []) ≡ some z
last?-concat [] z = refl
last?-concat (x ∷ []) z = refl
last?-concat (x ∷ y ∷ xs) z = last?-concat (y ∷ xs) z

-- A list is empty or ends in a last element.
pub concat_cases {ℓ} :
    {B : Type ℓ} (xs : List B) → (xs ≡ []) ⊎ ((ys : List B) × (z : B) × (xs ≡ ys ++ z ∷ []))
concat_cases [] = inl refl
concat_cases (x ∷ xs) = elim (concat_cases xs) [
  | inl e ↦ inr ([], x, ap (◌∷◌ x) e)
  | inr (ys, z, e) ↦ inr (x ∷ ys, z, ap (◌∷◌ x) e)
]

pub set-middle {ℓ} :
    {B : Type ℓ} (xs : List B) (y z : B) (ys : List B)
    → set (xs ++ y ∷ ys) (length xs) z ≡ xs ++ z ∷ ys
set-middle [] y z ys = refl
set-middle (x ∷ xs) y z ys = ap (◌∷◌ x) (set-middle xs y z ys)

module _ {ℓ} {A : Type ℓ} (key : A → Bytes) where
  unfoldable pub position : Bytes → List A → Option ℕ
  position k [] = none
  position k (x ∷ xs) = if key x =s= k then some 0 else shift 1 (position k xs)

  unfoldable pub find_key : Bytes → List A → Option A
  find_key k [] = none
  find_key k (x ∷ xs) = if key x =s= k then some x else find_key k xs

  abbrev pub Distinct : List A → Type 0
  Distinct [] = Unit {0}
  Distinct (x ∷ xs) = (position (key x) xs ≡ none) × Distinct xs

  pub position-append :
      (k : Bytes) (xs ys : List A)
      → position k (xs ++ ys) ≡ or_else (position k xs) (shift (length xs) (position k ys))
  unfolding position
  position-append k [] ys = ground arith
  position-append k (x ∷ xs) ys = ground (arith, position-append k xs ys)

  pub find_key-append :
      (k : Bytes) (xs ys : List A) → find_key k (xs ++ ys) ≡ or_else (find_key k xs) (find_key k ys)
  unfolding find_key
  find_key-append k [] ys = refl
  find_key-append k (x ∷ xs) ys = ground (arith, find_key-append k xs ys)

  -- Where a key has a position, the list splits there.
  pub position_split :
      (k : Bytes) (xs : List A) (i : ℕ)
      → position k xs ≡ some i
      → (pre : List A) × (x : A) × (bs : List A) × (xs ≡ pre ++ x ∷ bs)
        × (length pre ≡ i)
        × (key x ≡ k)
        × (position k pre ≡ none)
  unfolding position
  position_split k [] i h = cc
  position_split k (x ∷ xs) i h = elim (Bool-cases (key x =s= k)) [
    | inl here ↦ ([], x, xs, refl, ground arith, (bytes_eq_iff (key x) k).0 here, refl)
    | inr away ↦ elim (Option-cases (position k xs)) [
      | inl e ↦ absurd (ground arith)
      | inr (j, e) ↦
          let (pre, y, bs, split, count, same, before) = position_split k xs j e in
          (x ∷ pre, y, bs, ap (◌∷◌ x) split, ground arith, same, ground arith)
    ]
  ]

  pub find_key-none : (k : Bytes) (xs : List A) → position k xs ≡ none → find_key k xs ≡ none
  unfolding position find_key
  find_key-none k [] h = refl
  find_key-none k (x ∷ xs) h = ground (arith, find_key-none k xs)

  -- The element at a key's position is the one that the key finds.
  pub get_elem?-position :
      (k : Bytes) (xs : List A) (i : ℕ)
      → position k xs ≡ some i
      → (x : A) × (get_elem? xs i ≡ some x) × (find_key k xs ≡ some x) × (key x ≡ k)
  unfolding position find_key
  get_elem?-position k [] i h = cc
  get_elem?-position k (x ∷ xs) i h = elim (Bool-cases (key x =s= k)) [
    | inl here ↦ (x, ground arith, rw here, (bytes_eq_iff (key x) k).0 here)
    | inr away ↦ elim (Option-cases (position k xs)) [
      | inl e ↦ absurd (ground arith)
      | inr (j, e) ↦
          let (y, at, found, same) = get_elem?-position k xs j e in
          (y, ground (arith, at), rw away found, same)
    ]
  ]

  pub Distinct-concat :
      (xs : List A) (x : A) → Distinct xs → position (key x) xs ≡ none → Distinct (xs ++ x ∷ [])
  unfolding position
  Distinct-concat [] x d h = (refl, tt)
  Distinct-concat (y ∷ xs) x (dy, d) h = (
    ground (
      arith,
      position-append (key y) xs (x ∷ []),
      bytes_eq_iff (key x) (key y),
      bytes_eq_iff (key y) (key x),
    ),
    Distinct-concat xs x d (ground arith),
  )
