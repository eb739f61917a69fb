-- ===== src/Formatter/Texts.antt =====
-- Texts that the JSON parser reads as a value, or as the rest of an object.
use rest_api_gateway.Prelude.{
  ℕ, zero, suc, ◌+◌, ◌*◌, ◌<◌, ◌≡◌, refl, sym, ap, ◌∙◌, [], ◌∷◌, ◌++◌, append_assoc, Bytes, length,
  arith,
}
use rest_api_gateway.Runtime.{Runtime}
use rest_api_gateway.Json.{
  JsonValue, string, object, Members, no_members, member, set_key, serialize,
}
use rest_api_gateway.Json.Parser.{
  Result, ok, skip_blanks, read_string, parse_string, parse_value, parse_members, parse_object,
  parse_string_value, dispatch, read_member, after_member, after_key,
}
use rest_api_gateway.Json.Strings.{Reads, Reads-if, Reads-plain, read_letters, read_string_end}
use rest_api_gateway.Json.Reading.{Closes}
use rest_api_gateway.Json.RoundTrip.Plain.{
  IsPlain, HasDistinctKeys, join, join_member, set_key_new, StartsValue, StartsValue-serialize,
  skip_blanks_none, AreApart, AreApart-new, AreApart-step,
}
use rest_api_gateway.Json.RoundTrip.Steps.{
  no_keys, parse_members-suc, after_member_comma, after_last_member, length-append_bytes,
}
use rest_api_gateway.Json.RoundTrip.Values.{read_value}
use rest_api_gateway.Formatter.{escape_json_char, escape_json_string, escaped}
use rest_api_gateway.Response.{quoted}

Reads-escape_json_char : (c : ℕ) → Reads c (escape_json_char c)
Reads-escape_json_char c =
    let (quote, slash, b, f, n, r, t) = read_letters in
    Reads-if c b'"' _ _ quote λ no_quote. Reads-if c b'\\' _ _ slash λ no_slash.
      Reads-if c 10 _ _ n
        λ _. Reads-if c 13 _ _ r λ _. Reads-if c 9 _ _ t λ _. Reads-plain c no_quote no_slash

read_string-escape_json_string :
    (t s : Bytes) → read_string (escape_json_string t ++ b'"' ∷ s) 0 ≡ ok (t, s)
unfolding escape_json_string
read_string-escape_json_string [] s = read_string_end s
read_string-escape_json_string (c ∷ t) s =
    rw (append_assoc, Reads-escape_json_char c, read_string-escape_json_string t s) refl

-- EscapeJsonString between quotation marks is read back, control characters included.
pub parse_string-escaped : (t s : Bytes) → parse_string (escaped t ++ s) ≡ ok (t, s)
unfolding parse_string
parse_string-escaped t s = rw append_assoc (read_string-escape_json_string t s)

-- A text between quotation marks that is read as a key.
abbrev pub IsKey : Bytes → Bytes → Type 0
IsKey inner k = (s : Bytes) → parse_string (quoted inner ++ s) ≡ ok (k, s)

read_member_text :
    (value : Bytes → Result (JsonValue × Bytes))
    (members : Members → Bytes → Result (Members × Bytes)) (acc : Members) (inner k u s : Bytes)
    (v : JsonValue)
    → IsKey inner k
    → StartsValue u
    → value u ≡ ok (v, s)
    → read_member value members acc (quoted inner ++ b':' ∷ u)
      ≡ after_member members (set_key k v acc) (skip_blanks s)
unfolding read_member after_key skip_blanks
read_member_text value members acc inner k u s v key starting e =
    rw (key (b':' ∷ u), skip_blanks_none u starting, e) refl

object_text :
    (rt : Runtime) (f : ℕ) (inner s t : Bytes) (ms : Members)
    → parse_members rt f no_members (quoted inner ++ t) ≡ ok (ms, s)
    → parse_value rt (suc f) (b'{' ∷ (quoted inner ++ t)) ≡ ok (object ms, s)
unfolding parse_value dispatch parse_object skip_blanks
object_text rt f inner s t ms e = rw e refl

string_text :
    (rt : Runtime) (f : ℕ) (inner k s : Bytes)
    → IsKey inner k
    → parse_value rt (suc f) (quoted inner ++ s) ≡ ok (string k, s)
unfolding parse_value dispatch parse_string_value skip_blanks
string_text rt f inner k s key = rw (key s) refl

member_length :
    (inner text tail : Bytes)
    → length (quoted inner ++ b':' ∷ (text ++ tail)) ≡ length inner + length text + length tail + 3
member_length inner text tail = omega (
  arith,
  length-append_bytes (inner ++ b'"' ∷ []) (b':' ∷ (text ++ tail)),
  length-append_bytes inner (b'"' ∷ []),
  length-append_bytes text tail,
)

join_nothing : (ms : Members) → join ms no_members ≡ ms
unfolding join
join_nothing no_members = refl
join_nothing (member k v ms) = ap (member k v) (join_nothing ms)

module _ (rt : Runtime) where
  -- A text that is read as a value, and the rest of an object that is read as members.
  pub record IsText (text : Bytes) (v : JsonValue) : Type 0 where
    pub starts_text : (s : Bytes) → StartsValue (text ++ s)
    pub reads_text :
        (f : ℕ) (s : Bytes)
        → Closes s
        → 2 * length text < f
        → parse_value rt f (text ++ s) ≡ ok (v, s)

  pub record IsTail (text : Bytes) (ms : Members) : Type 0 where
    pub closes_tail : (s : Bytes) → Closes (text ++ s)
    pub reads_tail :
        (f : ℕ) (acc : Members) (s : Bytes)
        → HasDistinctKeys ms
        → AreApart acc ms
        → 2 * length text < f
        → after_member (parse_members rt f) acc (skip_blanks (text ++ s)) ≡ ok (join acc ms, s)

  -- A member in front of a tail.
  first_text :
      (inner k text tail : Bytes) (v : JsonValue) (ms : Members)
      → IsKey inner k
      → IsText text v
      → IsTail tail ms
      → (f : ℕ) (acc : Members) (s : Bytes) → HasDistinctKeys (member k v ms)
      → AreApart acc (member k v ms)
      → 2 * length (quoted inner ++ b':' ∷ (text ++ tail)) < f
      → parse_members rt f acc (quoted inner ++ b':' ∷ (text ++ (tail ++ s)))
        ≡ ok (join acc (member k v ms), s)
  unfolding HasDistinctKeys
  first_text inner k text tail v ms key is_text is_tail zero acc s distinct apart enough =
      absurd (omega arith)
  first_text inner k text tail v ms key is_text is_tail (suc f) acc s distinct apart enough =
      let size = member_length inner text tail in
      let value = is_text.reads_text f (tail ++ s) (is_tail.closes_tail s) (omega arith) in
      let next = AreApart-step acc ms k v apart distinct.0 in
      let rest =
        is_tail.reads_tail f (join acc (member k v no_members)) s distinct.1 next (omega arith) in
      parse_members-suc rt f acc _
      ∙ read_member_text (parse_value rt f) (parse_members rt f) acc inner k _ _ v key
          (is_text.starts_text (tail ++ s)) value
      ∙ ap (λ m. after_member (parse_members rt f) m (skip_blanks (tail ++ s)))
          (set_key_new k v acc (AreApart-new acc ms k v apart))
      ∙ rest
      ∙ ap (λ m. ok (m, s)) (join_member acc ms k v)

  member_assoc :
      (inner text tail s : Bytes)
      → (quoted inner ++ b':' ∷ (text ++ tail)) ++ s ≡ quoted inner ++ b':' ∷ (text ++ (tail ++ s))
  member_assoc inner text tail s =
      append_assoc (quoted inner) (b':' ∷ (text ++ tail)) s
      ∙ ap (λ t. quoted inner ++ b':' ∷ t) (append_assoc text tail s)

  pub IsTail-end : IsTail (b'}' ∷ []) no_members
  IsTail-end = record {
    closes_tail = λ s. (refl, refl, refl, refl);
    reads_tail = λ f acc s d a h.
        after_last_member (parse_members rt f) acc s ∙ ap (λ m. ok (m, s)) (sym (join_nothing acc));
  }

  -- A member behind others, as `with_member` writes it.
  pub IsTail-member :
      (inner k text tail : Bytes) (v : JsonValue) (ms : Members)
      → IsKey inner k
      → IsText text v
      → IsTail tail ms
      → IsTail (b',' ∷ (quoted inner ++ b':' ∷ (text ++ tail))) (member k v ms)
  IsTail-member inner k text tail v ms key is_text is_tail = record {
    closes_tail = λ s. (refl, refl, refl, refl);
    reads_tail = λ f acc s distinct apart enough.
        after_member_comma (parse_members rt f) acc _
        ∙ ap (parse_members rt f acc) (member_assoc inner text tail s)
        ∙ first_text inner k text tail v ms key is_text is_tail f acc s distinct apart
            (omega arith);
  }

  pub IsText-object :
      (inner k text tail : Bytes) (v : JsonValue) (ms : Members)
      → IsKey inner k
      → IsText text v
      → IsTail tail ms
      → HasDistinctKeys (member k v ms)
      → IsText (b'{' ∷ (quoted inner ++ b':' ∷ (text ++ tail))) (object (member k v ms))
  unfolding join
  IsText-object inner k text tail v ms key is_text is_tail distinct = record {
    starts_text = λ s. (refl, refl);
    reads_text = λ f s h enough. object_fuel f s enough;
  }
    where
      object_fuel :
          (f : ℕ) (s : Bytes)
          → 2 * length (b'{' ∷ (quoted inner ++ b':' ∷ (text ++ tail))) < f
          → parse_value rt f ((b'{' ∷ (quoted inner ++ b':' ∷ (text ++ tail))) ++ s)
            ≡ ok (object (member k v ms), s)
      object_fuel zero s enough = absurd (omega arith)
      object_fuel (suc f) s enough =
          ap (λ t. parse_value rt (suc f) (b'{' ∷ t)) (member_assoc inner text tail s)
          ∙ object_text rt f inner s _ _ (
              first_text inner k text tail v ms key is_text is_tail f no_members s distinct
                (no_keys (member k v ms)) (omega arith))

  pub IsText-quoted : (inner k : Bytes) → IsKey inner k → IsText (quoted inner) (string k)
  IsText-quoted inner k key = record {
    starts_text = λ s. (refl, refl);
    reads_text = λ f s h enough. string_fuel f s enough;
  }
    where
      string_fuel :
          (f : ℕ) (s : Bytes)
          → 2 * length (quoted inner) < f
          → parse_value rt f (quoted inner ++ s) ≡ ok (string k, s)
      string_fuel zero s enough = absurd (omega arith)
      string_fuel (suc f) s enough = string_text rt f inner k s key

  pub IsText-serialize : (v : JsonValue) → IsPlain v → IsText (serialize rt v) v
  IsText-serialize v plain = record {
    starts_text = λ s. StartsValue-serialize rt v s plain;
    reads_text = λ f s h enough. read_value rt f v s plain h enough;
  }
