-- ===== src/Json/RoundTrip/Values.antt =====
-- The parser on the text of a plain value, with something behind it.
use rest_api_gateway.Prelude.{
  ℕ, zero, suc, ◌+◌, ◌*◌, ◌<◌, ◌≤◌, ◌≡◌, ltb, true, refl, ap, ◌∙◌, [], ◌∷◌, ◌++◌, append_assoc,
  append-nil, subst, Bytes, length, arith,
}
use rest_api_gateway.Runtime.{Runtime}
use rest_api_gateway.Json.{
  JsonValue, null, boolean, integer, float, string, array, object, Elements, no_elements, element,
  Members, no_members, member, set_key, serialize, serialize_first_element, serialize_elements,
  serialize_first_member, serialize_members, serialize_string,
}
use rest_api_gateway.Json.Parser.{
  ok, skip_blanks, after_element, after_member, parse_value, parse_elements, parse_members,
  position_limit, parse,
}
use rest_api_gateway.Json.Reading.{Closes}
use rest_api_gateway.Json.RoundTrip.Plain.{
  IsPlain, ArePlain, HavePlain, HasDistinctKeys, join, join_member, set_key_new, StartsValue,
  StartsValue-serialize, skip_blanks_none, is_end_none, AreApart, AreApart-new, AreApart-step,
}
use rest_api_gateway.Json.RoundTrip.Steps.{
  lengths, read_null, read_boolean, read_integer, read_string_value, dispatch_array,
  dispatch_object, array_empty, array_first, after_last, after_comma, read_element_value,
  object_empty, object_first, after_last_member, after_member_comma, read_member_value, no_keys,
  parse_elements-suc, parse_members-suc,
}

abbrev IsFirst : Elements → Type 0
IsFirst no_elements = ⊥
IsFirst (element v xs) = Unit {0}

abbrev IsFirstMember : Members → Type 0
IsFirstMember no_members = ⊥
IsFirstMember (member k v ms) = Unit {0}

module _ (rt : Runtime) where
  first-StartsValue :
      (v : JsonValue) (xs : Elements) (s : Bytes)
      → IsPlain v
      → StartsValue (serialize_first_element rt (element v xs) ++ s)
  unfolding serialize
  first-StartsValue v xs s plain =
      rw append_assoc (StartsValue-serialize rt v (serialize_elements rt xs ++ s) plain)

  first_element_nonempty :
      (v : JsonValue) (xs : Elements) → 0 < length (serialize_first_element rt (element v xs))
  unfolding serialize
  first_element_nonempty v no_elements = omega lengths
  first_element_nonempty v (element w xs) = omega lengths

  first_member_nonempty :
      (k : Bytes) (v : JsonValue) (ms : Members)
      → 0 < length (serialize_first_member rt (member k v ms))
  unfolding serialize
  first_member_nonempty k v ms = omega lengths

  -- What is read behind a value; `w` is the rest of the array or object.
  element_step :
      (f : ℕ) (v : JsonValue) (w s : Bytes)
      → IsPlain v
      → parse_value rt f (serialize rt v ++ (w ++ s)) ≡ ok (v, w ++ s)
      → parse_elements rt (suc f) ((serialize rt v ++ w) ++ s)
        ≡ after_element (parse_elements rt f) v (skip_blanks (w ++ s))
  element_step f v w s plain read = rw append_assoc (
      parse_elements-suc rt f _
      ∙ read_element_value (parse_elements rt f) (parse_value rt f) _ _ v
          (StartsValue-serialize rt v (w ++ s) plain) read)

  member_step :
      (f : ℕ) (acc : Members) (k : Bytes) (v : JsonValue) (w s : Bytes)
      → IsPlain v
      → parse_value rt f (serialize rt v ++ (w ++ s)) ≡ ok (v, w ++ s)
      → parse_members rt (suc f) acc ((serialize_string k ++ b':' ∷ (serialize rt v ++ w)) ++ s)
        ≡ after_member (parse_members rt f) (set_key k v acc) (skip_blanks (w ++ s))
  member_step f acc k v w s plain read =
      rw (append_assoc, append_assoc)
        (parse_members-suc rt f acc _
          ∙ read_member_value (parse_members rt f) (parse_value rt f) acc k _ _ v
              (StartsValue-serialize rt v (w ++ s) plain) read)

  mutual
    unfolding serialize IsPlain HasDistinctKeys join

    pub read_value :
        (f : ℕ) (v : JsonValue) (s : Bytes)
        → IsPlain v
        → Closes s
        → 2 * length (serialize rt v) < f
        → parse_value rt f (serialize rt v ++ s) ≡ ok (v, s)
    read_value zero v s plain h enough = absurd (omega arith)
    read_value (suc f) null s plain h enough = read_null rt f s
    read_value (suc f) (boolean b) s plain h enough = read_boolean rt b f s
    read_value (suc f) (integer n) s plain h enough = read_integer rt n f s plain h
    read_value (suc f) (float d) s plain h enough = absurd plain
    read_value (suc f) (string t) s plain h enough = read_string_value rt t f s
    read_value (suc f) (array no_elements) s plain h enough =
        dispatch_array rt f _ ∙ array_empty _ s
    read_value (suc f) (array (element v xs)) s plain h enough =
        let read = read_elements f (element v xs) s plain tt (omega arith) in
        let starting = first-StartsValue v xs s plain.0 in
        dispatch_array rt f _ ∙ array_first _ _ s _ starting read
    read_value (suc f) (object no_members) s plain h enough =
        dispatch_object rt f _ ∙ object_empty _ s
    read_value (suc f) (object (member k v ms)) s plain h enough =
        dispatch_object rt f _
        ∙ let read =
            read_members f (member k v ms) no_members s plain.1 tt plain.0 (no_keys (member k v ms))
              (omega lengths) in
          object_first (parse_members rt f) k _ s s (member k v ms) read

    read_elements :
        (f : ℕ) (xs : Elements) (s : Bytes)
        → ArePlain xs
        → IsFirst xs
        → 2 * length (serialize_first_element rt xs) ≤ f
        → parse_elements rt f (serialize_first_element rt xs ++ s) ≡ ok (xs, s)
    read_elements zero no_elements s plain first enough = absurd first
    read_elements (suc f) no_elements s plain first enough = absurd first
    read_elements zero (element v xs) s plain first enough =
        absurd (omega (arith, first_element_nonempty v xs))
    read_elements (suc f) (element v no_elements) s plain first enough =
        let read = read_value f v (b']' ∷ s) plain.0 (refl, refl, refl, refl) (omega lengths) in
        element_step f v _ s plain.0 read ∙ after_last (parse_elements rt f) v s
    read_elements (suc f) (element v (element w xs)) s plain first enough =
        let read =
          read_value f v (serialize_elements rt (element w xs) ++ s) plain.0
            (refl, refl, refl, refl) (omega lengths) in
        let more = read_elements f (element w xs) s plain.1 tt (omega lengths) in
        element_step f v _ s plain.0 read ∙ after_comma (parse_elements rt f) v _ s _ more

    read_members :
        (f : ℕ) (ms acc : Members) (s : Bytes)
        → HavePlain ms
        → IsFirstMember ms
        → HasDistinctKeys ms
        → AreApart acc ms
        → 2 * length (serialize_first_member rt ms) ≤ f
        → parse_members rt f acc (serialize_first_member rt ms ++ s) ≡ ok (join acc ms, s)
    read_members zero no_members acc s plain first distinct apart enough = absurd first
    read_members (suc f) no_members acc s plain first distinct apart enough = absurd first
    read_members zero (member k v ms) acc s plain first distinct apart enough =
        absurd (omega (arith, first_member_nonempty k v ms))
    read_members (suc f) (member k v no_members) acc s plain first distinct apart enough =
        let read = read_value f v (b'}' ∷ s) plain.0 (refl, refl, refl, refl) (omega lengths) in
        member_step f acc k v _ s plain.0 read
        ∙ after_last_member (parse_members rt f) _ s
        ∙ ap (λ m. ok (m, s)) (set_key_new k v acc (AreApart-new acc _ k v apart))
    read_members (suc f) (member k v (member j w ms)) acc s plain first distinct apart enough =
        let read =
          read_value f v (serialize_members rt (member j w ms) ++ s) plain.0
            (refl, refl, refl, refl) (omega lengths) in
        let next = AreApart-step acc (member j w ms) k v apart distinct.0 in
        let more =
          read_members f (member j w ms) (join acc (member k v no_members)) s plain.1 tt distinct.1
            next (omega lengths) in
        member_step f acc k v _ s plain.0 read
        ∙ after_member_comma (parse_members rt f) _ _
        ∙ ap (λ m. parse_members rt f m (serialize_first_member rt (member j w ms) ++ s))
            (set_key_new k v acc (AreApart-new acc _ k v apart))
        ∙ more
        ∙ ap (λ m. ok (m, s)) (join_member acc (member j w ms) k v)

  pub parse_value_top :
      (s : Bytes) (v : JsonValue)
      → StartsValue s
      → length s < position_limit
      → parse_value rt (2 * length s + 1) s ≡ ok (v, [])
      → parse rt s ≡ ok v
  unfolding parse
  parse_value_top s v starting short e =
      let below : ltb (length s) position_limit ≡ true = ground arith in
      rw (below, skip_blanks_none s starting, is_end_none s starting, e) refl

  -- Parse gives back every value from the text of Serialize, for values without floats, with
  -- int64_t integers and with objects of distinct keys, whose text is shorter than 2^32 - 4.
  pub parse-serialize :
      (v : JsonValue)
      → IsPlain v
      → length (serialize rt v) < position_limit
      → parse rt (serialize rt v) ≡ ok v
  parse-serialize v plain short =
      let text : serialize rt v ++ [] ≡ serialize rt v = append-nil (serialize rt v) in
      let starting : StartsValue (serialize rt v) =
        subst StartsValue text (StartsValue-serialize rt v [] plain) in
      let read : parse_value rt (2 * length (serialize rt v) + 1) (serialize rt v) ≡ ok (v, []) =
        rw text at (read_value (2 * length (serialize rt v) + 1) v [] plain tt (omega arith)) in
      parse_value_top (serialize rt v) v starting short read
