-- ===== src/Validation/Meets.antt =====
-- What a schema asks of a request, and what the checks of one schema say of it.
use rest_api_gateway.Prelude.{
  ◌≡◌, ◌↔◌, ◌⊎◌, inl, inr, refl, Bool, true, false, ◌&&◌, List, [], ◌∷◌, Option, none, some, Bytes,
  ◌=s=◌, if◌then◌else◌, Bool-cases, All, bytes_eq_iff,
}
use rest_api_gateway.Prelude.Map.{lookup}
use rest_api_gateway.Runtime.{Runtime}
use rest_api_gateway.Schema.{ParameterSchema, ParameterLocation, validate_value}
use rest_api_gateway.Http.{HttpRequest, to_lower_case}
use rest_api_gateway.Json.{JsonValue, is_object, has_member, get_member}
use rest_api_gateway.Json.Parser.{Result, ok, parse}
use rest_api_gateway.Validation.{
  ValidationError, Validation, check_all, push_error, missing, value_error, check_found, field_text,
  is_checked, field_error, validate_json_body_field,
}

-- A parameter that is looked up: where it is there it has a valid value, where it is not it is
-- optional.
abbrev pub IsGiven : Runtime → ParameterSchema → Option Bytes → Type 0
IsGiven rt s none = s.is_required ≡ false
IsGiven rt s (some v) = validate_value rt s v ≡ none

-- A field of a JSON object: its type is right, and its text is empty, or of a type whose values are
-- not checked, or valid.
abbrev pub IsField : Runtime → ParameterSchema → Option Bytes → Type 0
IsField rt s none = ⊥
IsField rt s (some v) =
    (v ≡ []) ⊎ ((is_checked s.parameter_type ≡ false) ⊎ (validate_value rt s v ≡ none))

abbrev pub IsMember : Runtime → ParameterSchema → JsonValue → Bool → Type 0
IsMember rt s body true = IsField rt s (field_text rt s.parameter_type (get_member body s.name))
IsMember rt s body false = s.is_required ≡ false

abbrev pub IsParsed : Runtime → ParameterSchema → Result JsonValue → Type 0
IsParsed rt s (ok body) = IsMember rt s body (is_object body && has_member body s.name)
IsParsed rt s _ = ⊥

abbrev pub IsInBody : Runtime → ParameterSchema → Bytes → Type 0
IsInBody rt s [] = s.is_required ≡ false
IsInBody rt s (c ∷ body) = IsParsed rt s (parse rt (c ∷ body))

-- What a schema asks of a request, by the location of its parameter.
abbrev pub IsMetAt : Runtime → HttpRequest → ParameterSchema → ParameterLocation → Type 0
IsMetAt rt r s ParameterLocation.path = IsGiven rt s (lookup s.name r.path_parameters)
IsMetAt rt r s ParameterLocation.query = IsGiven rt s (lookup s.name r.query_parameters)
IsMetAt rt r s ParameterLocation.header = IsGiven rt s (lookup (to_lower_case s.name) r.headers)
IsMetAt rt r s ParameterLocation.body = IsInBody rt s r.body

abbrev pub IsMet : Runtime → HttpRequest → ParameterSchema → Type 0
IsMet rt r s = IsMetAt rt r s s.location

some_ne : (e : ValidationError) → ◌≡◌ {A = Option ValidationError} (some e) none → ⊥
some_ne e h = cc

push_error_iff :
    (o : Option ValidationError) (st : Validation)
    → ((push_error o st).passed ≡ true) ↔ ((st.passed ≡ true) × (o ≡ none))
push_error_iff none st = (λ h. (h, refl), λ p. p.0)
push_error_iff (some e) st = (λ h. let no : false ≡ true = h in cc, λ p. absurd (some_ne e p.1))

pub passed-check_all :
    (check : ParameterSchema → Option ValidationError) (schemas : List ParameterSchema)
    (st : Validation)
    → ((check_all check schemas st).passed ≡ true)
      ↔ ((st.passed ≡ true) × All (λ s. check s ≡ none) schemas)
unfolding check_all
passed-check_all check [] st = (λ h. (h, tt), λ p. p.0)
passed-check_all check (s ∷ schemas) st =
    let (to, from) = passed-check_all check schemas (push_error (check s) st) in
    let (to', from') = push_error_iff (check s) st in
    (
      λ h. let (a, b) = to h in let (c, d) = to' a in (c, (d, b)),
      λ (c, p). from (from' (c, p.0), p.1),
    )

pub missing_iff :
    (message : Bytes) (s : ParameterSchema) → (missing message s ≡ none) ↔ (s.is_required ≡ false)
missing_iff message s = elim (Bool-cases s.is_required) [
  | inl needed ↦ rw needed (λ h. absurd (some_ne _ h), λ h. let no : true ≡ false = h in cc)
  | inr optional ↦ rw optional (λ h. refl, λ h. refl)
]

value_error_iff :
    (s : ParameterSchema) (v : Bytes) (o : Option Bytes) → (value_error s v o ≡ none) ↔ (o ≡ none)
value_error_iff s v none = (λ h. refl, λ h. refl)
value_error_iff s v (some m) =
    (λ h. absurd (some_ne _ h), λ h. let no : ◌≡◌ {A = Option Bytes} (some m) none = h in cc)

pub check_found_iff :
    (rt : Runtime) (message : Bytes) (s : ParameterSchema) (o : Option Bytes)
    → (check_found rt message s o ≡ none) ↔ IsGiven rt s o
check_found_iff rt message s none = missing_iff message s
check_found_iff rt message s (some v) = value_error_iff s v (validate_value rt s v)

field_error_iff :
    (rt : Runtime) (s : ParameterSchema) (o : Option Bytes)
    → (field_error rt s o ≡ none) ↔ IsField rt s o
field_error_iff rt s none = (λ h. some_ne _ h, λ h. absurd h)
field_error_iff rt s (some v) = elim (Bool-cases (v =s= [])) [
  | inl empty ↦ let e = (bytes_eq_iff v []).0 empty in rw empty (λ h. inl e, λ h. refl)
  | inr full ↦
      let ne : v ≡ [] → ⊥ = λ e. let same : (v =s= []) ≡ true = (bytes_eq_iff v []).1 e in cc in
      elim (Bool-cases (is_checked s.parameter_type)) [
        | inl yes_checked ↦
            let (to, from) = value_error_iff s v (validate_value rt s v) in
            rw (full, yes_checked)
              (
                λ h. inr (inr (to h)),
                λ h. elim h [
                  | inl e ↦ absurd (ne e)
                  | inr k ↦ elim k [
                    | inl off ↦ let no : true ≡ false = off in cc
                    | inr valid ↦ from valid
                  ]
                ],
              )
        | inr unchecked ↦ rw (full, unchecked) (λ h. inr (inl refl), λ h. refl)
      ]
]

IsMember-iff :
    (rt : Runtime) (body : JsonValue) (s : ParameterSchema) (m n : Bytes) (o h : Bool)
    → ((if o
          then (if h
              then field_error rt s (field_text rt s.parameter_type (get_member body s.name))
              else missing m s)
          else missing n s)
        ≡ none)
      ↔ IsMember rt s body (o && h)
IsMember-iff rt body s m n true true =
    field_error_iff rt s (field_text rt s.parameter_type (get_member body s.name))
IsMember-iff rt body s m n true false = missing_iff m s
IsMember-iff rt body s m n false h = missing_iff n s

pub body_field_iff :
    (rt : Runtime) (body : JsonValue) (s : ParameterSchema)
    → (validate_json_body_field rt body s ≡ none)
      ↔ IsMember rt s body (is_object body && has_member body s.name)
unfolding validate_json_body_field
body_field_iff rt body s = IsMember-iff rt body s _ _ (is_object body) (has_member body s.name)

module _ {A : Type 0} {P Q : A → Type 0} where
  pub All-iff : ((a : A) → P a ↔ Q a) → (xs : List A) → All P xs ↔ All Q xs
  All-iff f [] = (λ h. h, λ h. h)
  All-iff f (x ∷ xs) =
      let (to, from) = f x in
      let (to', from') = All-iff f xs in (λ (p, h). (to p, to' h), λ (p, h). (from p, from' h))
