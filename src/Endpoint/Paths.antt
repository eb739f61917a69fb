-- ===== src/Endpoint/Paths.antt =====
-- The segments of a path, and what a pattern matches.
use rest_api_gateway.Prelude.{
  ℕ, ◌≡◌, ◌≢◌, ◌↔◌, inl, inr, refl, ap, sym, subst, ◌∙◌, Bool, true, false, List, [], ◌∷◌, ◌++◌,
  Option, none, some, Bytes, ◌=s=◌, length, ◌==◌, All, arith, append-nil, append_assoc,
  bytes_eq_iff, bytes_eq_refl, Bool-cases,
}
use rest_api_gateway.Prelude.Map.{insert}
use rest_api_gateway.Endpoint.{
  Params, EndpointDefinition, push_segment, split_from, split_segments, match_segments,
  matches_path, is_parameter, parameter_name, parameter_flags, names_of, build,
}

-- A segment is not empty and holds no slash.
abbrev pub NoSlash : Bytes → Type 0
NoSlash s = All (λ c. c ≢ b'/') s

abbrev pub IsSegment : Bytes → Type 0
IsSegment s = (s ≢ []) × NoSlash s

push_segment-All :
    (s : Bytes) (rest : List Bytes)
    → NoSlash s
    → All IsSegment rest
    → All IsSegment (push_segment s rest)
push_segment-All [] rest h k = k
push_segment-All (c ∷ s) rest h k = (((λ e. cc), h), k)

NoSlash-concat : (s : Bytes) (c : ℕ) → NoSlash s → c ≢ b'/' → NoSlash (s ++ c ∷ [])
NoSlash-concat [] c h k = (k, tt)
NoSlash-concat (d ∷ s) c (p, h) k = (p, NoSlash-concat s c h k)

split_from-All : (segment s : Bytes) → NoSlash segment → All IsSegment (split_from segment s)
unfolding split_from
split_from-All segment [] h = push_segment-All segment [] h tt
split_from-All segment (c ∷ s) h = elim (Bool-cases (c == b'/')) [
  | inl slash ↦ rw slash (push_segment-All segment (split_from [] s) h (split_from-All [] s tt))
  | inr other ↦
      rw other (split_from-All (segment ++ c ∷ []) s (NoSlash-concat segment c h (ground arith)))
]

-- Every segment of a path is non-empty and free of slashes.
pub split_segments-All : (path : Bytes) → All IsSegment (split_segments path)
unfolding split_segments
split_segments-All path = split_from-All [] path tt

-- The path that a list of segments stands for.
abbrev pub join : List Bytes → Bytes
join [] = []
join (s ∷ segments) = b'/' ∷ (s ++ join segments)

split_from-segment :
    (before s rest : Bytes)
    → NoSlash s
    → split_from before (s ++ rest) ≡ split_from (before ++ s) rest
unfolding split_from
split_from-segment before [] rest h = ap (λ b. split_from b rest) (sym (append-nil before))
split_from-segment before (c ∷ s) rest (p, h) =
    let other : (c == b'/') ≡ false = ground arith in
    rw other (
      split_from-segment (before ++ c ∷ []) s rest h
      ∙ ap (λ b. split_from b rest) (append_assoc before (c ∷ []) s))

split_from-join :
    (s : Bytes) (segments : List Bytes)
    → All IsSegment segments
    → split_from s (join segments) ≡ push_segment s segments
unfolding split_from
split_from-join s [] h = refl
split_from-join s (t ∷ segments) ((ne, p), h) =
    ap (push_segment s)
      (split_from-segment [] t (join segments) p ∙ split_from-join t segments h ∙ nonempty t ne)
  where
    nonempty : (t : Bytes) → t ≢ [] → push_segment t segments ≡ t ∷ segments
    nonempty [] k = absurd (k refl)
    nonempty (c ∷ t) k = refl

-- Splitting a path that is joined from segments without slashes, none of them empty, gives
-- those segments.
split_segments-join :
    (segments : List Bytes) → All IsSegment segments → split_segments (join segments) ≡ segments
unfolding split_segments
split_segments-join segments h = split_from-join [] segments h

-- A list of segments fits a pattern: a literal is repeated, and each parameter binds a segment,
-- later ones over earlier ones of the same name.
pub data Fits : List Bytes → List Bytes → Params → Params → Type 0 where
  done : {m : Params} → Fits [] [] m m
  literal :
      {p : Bytes} {ps rs : List Bytes} {m m' : Params}
      → is_parameter p ≡ false
      → Fits ps rs m m'
      → Fits (p ∷ ps) (p ∷ rs) m m'
  bound :
      {p r : Bytes} {ps rs : List Bytes} {m m' : Params}
      → is_parameter p ≡ true
      → Fits ps rs (insert (parameter_name p) r m) m'
      → Fits (p ∷ ps) (r ∷ rs) m m'

Fits-same : {m m' : Params} → m ≡ m' → Fits [] [] m m'
Fits-same {m} e = subst (Fits [] [] m) e done

match_sound :
    (ps rs : List Bytes) (m m' : Params)
    → (length rs == length ps) ≡ true
    → match_segments ps (parameter_flags ps) (names_of ps) rs m ≡ some m'
    → Fits ps rs m m'
unfolding match_segments
match_sound [] [] m m' l h = let e : m ≡ m' = cc in Fits-same e
match_sound [] (r ∷ rs) m m' l h = absurd (ground arith)
match_sound (p ∷ ps) [] m m' l h = absurd (ground arith)
match_sound (p ∷ ps) (r ∷ rs) m m' l h = elim (Bool-cases (is_parameter p)) [
  | inl hole ↦
      bound hole
        (match_sound ps rs (insert (parameter_name p) r m) m' (ground arith) (rw hole at h))
  | inr fixed ↦ elim (Bool-cases (p =s= r)) [
    | inl same ↦
        subst (λ t. Fits (p ∷ ps) (t ∷ rs) m m') ((bytes_eq_iff p r).0 same)
          (literal fixed (match_sound ps rs m m' (ground arith) (rw (fixed, same) at h)))
    | inr other ↦
        let none_some : ◌≡◌ {A = Option Params} none (some m') = rw (fixed, other) at h in cc
  ]
]

match_complete :
    {ps rs : List Bytes} {m m' : Params}
    → Fits ps rs m m'
    → ((length rs == length ps) ≡ true)
      × (match_segments ps (parameter_flags ps) (names_of ps) rs m ≡ some m')
unfolding match_segments
match_complete done = (refl, refl)
match_complete (literal {p} fixed f) =
    let (l, h) = match_complete f in (ground arith, rw (fixed, bytes_eq_refl p) h)
match_complete (bound hole f) = let (l, h) = match_complete f in (ground arith, rw hole h)

-- A built endpoint matches a request path with given parameters exactly when the segments of
-- the request fit the segments of its own path: a literal is repeated, a parameter binds a
-- segment.
pub matches_path-build_iff :
    (e : EndpointDefinition) (request : Bytes) (m : Params)
    → (matches_path (build e) request ≡ some m)
      ↔ Fits (split_segments e.path) (split_segments request) [] m
unfolding matches_path build
matches_path-build_iff e request m = (there, back)
  where
    counts : Bool
    counts = length (split_segments request) == length (split_segments e.path)

    there :
        matches_path (build e) request ≡ some m
        → Fits (split_segments e.path) (split_segments request) [] m
    there h = elim (Bool-cases counts) [
      | inl l ↦ match_sound _ _ _ _ l (rw l at h)
      | inr l ↦ let none_some : ◌≡◌ {A = Option Params} none (some m) = rw l at h in cc
    ]

    back :
        Fits (split_segments e.path) (split_segments request) [] m
        → matches_path (build e) request ≡ some m
    back f = let (l, h) = match_complete f in rw l h
