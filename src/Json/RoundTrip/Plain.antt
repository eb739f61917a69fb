-- ===== src/Json/RoundTrip/Plain.antt =====
-- The values that a text keeps, and how their texts start.
use rest_api_gateway.Prelude.{
  ℕ, ◌≡◌, refl, sym, ap, ◌∙◌, Bool, true, false, ◌||◌, [], ◌∷◌, ◌++◌, Bytes, ◌=s=◌, bytes_eq_iff,
  bytes_eq_refl, ◌==◌, if◌then◌else◌, arith, Bool-cases, inl, inr,
}
use rest_api_gateway.Prelude.Int.{pos, negsuc}
use rest_api_gateway.Decimal.{print_ℕ, print_ℤ}
use rest_api_gateway.Decimal.Print.{IsInt64, print_ℕ_head}
use rest_api_gateway.Runtime.{Runtime}
use rest_api_gateway.Json.{
  JsonValue, null, boolean, integer, float, string, array, object, Elements, no_elements, element,
  Members, no_members, member, has_key, set_key, serialize, serialize_string,
}
use rest_api_gateway.Json.Parser.{is_blank, skip_blanks, starts, is_end}

-- No key stands twice.
unfoldable pub HasDistinctKeys : Members → Type 0
HasDistinctKeys no_members = Unit
HasDistinctKeys (member k v ms) = (has_key k ms ≡ false) × HasDistinctKeys ms

-- No float, only integers of int64_t, and objects with distinct keys.
unfoldable mutual
  pub IsPlain : JsonValue → Type 0
  IsPlain null = Unit
  IsPlain (boolean b) = Unit
  IsPlain (integer n) = IsInt64 n
  IsPlain (float d) = ⊥
  IsPlain (string s) = Unit
  IsPlain (array xs) = ArePlain xs
  IsPlain (object ms) = HasDistinctKeys ms × HavePlain ms

  pub ArePlain : Elements → Type 0
  ArePlain no_elements = Unit
  ArePlain (element v xs) = IsPlain v × ArePlain xs

  pub HavePlain : Members → Type 0
  HavePlain no_members = Unit
  HavePlain (member k v ms) = IsPlain v × HavePlain ms

-- Members behind others.
unfoldable pub join : Members → Members → Members
join no_members ns = ns
join (member k v ms) ns = member k v (join ms ns)

pub join_member :
    (ms ns : Members) (k : Bytes) (v : JsonValue)
    → join (join ms (member k v no_members)) ns ≡ join ms (member k v ns)
unfolding join
join_member no_members ns k v = refl
join_member (member j w ms) ns k v = ap (member j w) (join_member ms ns k v)

pub set_key_new :
    (k : Bytes) (v : JsonValue) (ms : Members)
    → has_key k ms ≡ false
    → set_key k v ms ≡ join ms (member k v no_members)
unfolding set_key has_key join
set_key_new k v no_members h = refl
set_key_new k v (member j w ms) h = elim (Bool-cases (j =s= k)) [
  | inl same ↦ let true_false : true ≡ false = rw same at h in cc
  | inr other ↦
      let h' : has_key k ms ≡ false = rw other at h in
      rw other (ap (member j w) (set_key_new k v ms h'))
]

-- A text that starts a value: neither a blank nor a closing bracket.
abbrev pub StartsValue : Bytes → Type 0
StartsValue [] = ⊥
StartsValue (c ∷ s) = (is_blank c ≡ false) × ((c == b']') ≡ false)

StartsValue-append : (s t : Bytes) → StartsValue s → StartsValue (s ++ t)
StartsValue-append [] t h = absurd h
StartsValue-append (c ∷ s) t h = h

StartsValue-print_ℕ : (n : ℕ) → StartsValue (print_ℕ n)
StartsValue-print_ℕ n =
    let (c, s, shape, digit) = print_ℕ_head n in
    let blank : is_blank c ≡ false = ground arith in
    let bracket : (c == b']') ≡ false = ground arith in rw shape (blank, bracket)

StartsValue-serialize_front :
    (rt : Runtime) (v : JsonValue) → IsPlain v → StartsValue (serialize rt v)
unfolding serialize serialize_string IsPlain print_ℤ
StartsValue-serialize_front rt null h = (refl, refl)
StartsValue-serialize_front rt (boolean true) h = (refl, refl)
StartsValue-serialize_front rt (boolean false) h = (refl, refl)
StartsValue-serialize_front rt (integer (pos n)) h = StartsValue-print_ℕ n
StartsValue-serialize_front rt (integer (negsuc n)) h = (refl, refl)
StartsValue-serialize_front rt (float d) h = absurd h
StartsValue-serialize_front rt (string s) h = (refl, refl)
StartsValue-serialize_front rt (array xs) h = (refl, refl)
StartsValue-serialize_front rt (object ms) h = (refl, refl)

pub StartsValue-serialize :
    (rt : Runtime) (v : JsonValue) (s : Bytes) → IsPlain v → StartsValue (serialize rt v ++ s)
StartsValue-serialize rt v s h = StartsValue-append _ s (StartsValue-serialize_front rt v h)

pub skip_blanks_none : (s : Bytes) → StartsValue s → skip_blanks s ≡ s
unfolding skip_blanks
skip_blanks_none [] h = refl
skip_blanks_none (c ∷ s) (blank, _) = rw blank refl

pub is_end_none : (s : Bytes) → StartsValue s → is_end s ≡ false
is_end_none [] h = absurd h
is_end_none (c ∷ s) h = refl

pub starts_bracket_none : (s : Bytes) → StartsValue s → starts b']' s ≡ false
starts_bracket_none [] h = absurd h
starts_bracket_none (c ∷ s) (_, bracket) = bracket

-- No key of the one is a key of the other.
abbrev pub AreApart : Members → Members → Type 0
AreApart ms ns = (k : Bytes) → has_key k ms ≡ true → has_key k ns ≡ false

has_key-member : (k : Bytes) (v : JsonValue) (ms : Members) → has_key k (member k v ms) ≡ true
unfolding has_key
has_key-member k v ms = rw (bytes_eq_refl k) refl

pub AreApart-new :
    (acc ms : Members) (k : Bytes) (v : JsonValue)
    → AreApart acc (member k v ms)
    → has_key k acc ≡ false
AreApart-new acc ms k v apart = elim (Bool-cases (has_key k acc)) [
  | inl found ↦ let no = apart k found in let yes' = has_key-member k v ms in cc
  | inr missing ↦ missing
]

has_key-join :
    (j k : Bytes) (v : JsonValue) (ms : Members)
    → has_key j (join ms (member k v no_members)) ≡ (has_key j ms || k =s= j)
unfolding has_key join
has_key-join j k v no_members = if_same (k =s= j)
  where
    if_same : (b : Bool) → (if b then true else false) ≡ b
    if_same true = refl
    if_same false = refl
has_key-join j k v (member i w ms) = elim (Bool-cases (i =s= j)) [
  | inl same ↦ rw same refl
  | inr other ↦ rw other (has_key-join j k v ms)
]

has_key-other :
    (j k : Bytes) (v : JsonValue) (ms : Members)
    → (k =s= j) ≡ false
    → has_key j (member k v ms) ≡ has_key j ms
unfolding has_key
has_key-other j k v ms e = rw e refl

pub AreApart-step :
    (acc ms : Members) (k : Bytes) (v : JsonValue)
    → AreApart acc (member k v ms)
    → has_key k ms ≡ false
    → AreApart (join acc (member k v no_members)) ms
AreApart-step acc ms k v apart fresh j h = elim (Bool-cases (k =s= j)) [
  | inl same ↦ let e = (bytes_eq_iff k j).0 same in cc
  | inr other ↦
      let either : (has_key j acc || k =s= j) ≡ true = sym (has_key-join j k v acc) ∙ h in
      let found : has_key j acc ≡ true = ground arith in
      sym (has_key-other j k v ms other) ∙ apart j found
]
