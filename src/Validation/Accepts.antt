-- ===== src/Validation/Accepts.antt =====
-- Which requests ValidateRequest accepts.
use rest_api_gateway.Prelude.{
  ◌≡◌, ◌↔◌, inl, inr, refl, subst, Bool, true, false, ◌&&◌, List, [], ◌∷◌, Option, none, Bytes,
  ◌=s=◌, if◌then◌else◌, arith, Bool-cases, All,
}
use rest_api_gateway.Prelude.Map.{lookup}
use rest_api_gateway.Runtime.{Runtime}
use rest_api_gateway.Schema.{ParameterSchema, ParameterLocation}
use rest_api_gateway.Endpoint.{EndpointDefinition}
use rest_api_gateway.Http.{HttpRequest, to_lower_case}
use rest_api_gateway.Json.{JsonValue}
use rest_api_gateway.Json.Parser.{Result, ok, failed, threw, out_of_fuel, parse}
use rest_api_gateway.Validation.{
  ValidationError, ValidationResult, Validation, Validated, validated, validation_threw, check_all,
  missing, starting, is_path, is_query, is_header, is_body, check_path, check_query, check_header,
  validate_path_parameters, validate_query_parameters, validate_header_parameters,
  validate_json_body_field, body_schemas, with_parsed_body, with_body_schemas,
  validate_body_parameters, conclude, validate_request,
}
use rest_api_gateway.Validation.Meets.{
  IsGiven, IsParsed, IsInBody, IsMetAt, IsMet, passed-check_all, missing_iff, check_found_iff,
  body_field_iff, All-iff,
}

-- What the result of the body's check says, where nothing is thrown.
abbrev Says : Type 0 → Validated Validation → Type 0
Says P (validated v) = (v.passed ≡ true) ↔ P
Says P validation_threw = Unit

abbrev Concludes : Type 0 → Validated ValidationResult → Type 0
Concludes P (validated v) = (v.is_valid ≡ true) ↔ P
Concludes P validation_threw = Unit

checked :
    {P : ParameterSchema → Type 0} (check : ParameterSchema → Option ValidationError)
    (schemas : List ParameterSchema) (errors : List ValidationError)
    → ((s : ParameterSchema) → (check s ≡ none) ↔ P s)
    → ((check_all check schemas (starting errors)).passed ≡ true) ↔ All P schemas
checked check schemas errors f =
    let (to, from) = passed-check_all check schemas (starting errors) in
    let (to', from') = All-iff f schemas in (λ h. to' (to h).1, λ h. from (refl, from' h))

IsParsed-Says :
    (rt : Runtime) (s : ParameterSchema) (schemas : List ParameterSchema)
    (errors : List ValidationError) (o : Result JsonValue)
    → Says (All (λ s. IsParsed rt s o) (s ∷ schemas)) (with_parsed_body rt (s ∷ schemas) errors o)
IsParsed-Says rt s schemas errors (ok body) =
    checked (validate_json_body_field rt body) (s ∷ schemas) errors (body_field_iff rt body)
IsParsed-Says rt s schemas errors (failed m rest) =
    (λ h. let no : false ≡ true = h in cc, λ h. absurd h.0)
IsParsed-Says rt s schemas errors threw = tt
IsParsed-Says rt s schemas errors out_of_fuel = tt

body-Says :
    (rt : Runtime) (body : Bytes) (schemas : List ParameterSchema) (errors : List ValidationError)
    → Says (All (λ s. IsInBody rt s body) schemas) (with_body_schemas rt body schemas errors)
unfolding ◌=s=◌
body-Says rt [] [] errors = (λ h. tt, λ h. refl)
body-Says rt (c ∷ body) [] errors = (λ h. tt, λ h. refl)
body-Says rt [] (s ∷ schemas) errors = checked (missing _) (s ∷ schemas) errors (missing_iff _)
body-Says rt (c ∷ body) (s ∷ schemas) errors =
    IsParsed-Says rt s schemas errors (parse rt (c ∷ body))

abbrev When : Bool → Type 0 → Type 0
When true P = P
When false P = Unit

located_iff :
    {P : Type 0} (b : Bool) (o : Option ValidationError)
    → ((o ≡ none) ↔ P)
    → ((if b then o else none) ≡ none) ↔ When b P
located_iff true o f = f
located_iff false o f = (λ h. tt, λ h. refl)

body_schemas_iff :
    (P : ParameterSchema → Type 0) (schemas : List ParameterSchema)
    → All P (body_schemas schemas) ↔ All (λ s. When (is_body s.location) (P s)) schemas
unfolding body_schemas
body_schemas_iff P [] = (λ h. h, λ h. h)
body_schemas_iff P (s ∷ schemas) =
    let (to, from) = body_schemas_iff P schemas in
    elim (Bool-cases (is_body s.location)) [
      | inl here ↦ rw here (λ h. (h.0, to h.1), λ h. (h.0, from h.1))
      | inr away ↦ rw away (λ h. (tt, to h), λ h. from h.1)
    ]

module _ {A : Type 0} (P Q : A → Type 0) where
  All-and : (xs : List A) → All (λ a. P a × Q a) xs ↔ (All P xs × All Q xs)
  All-and [] = (λ h. (tt, tt), λ h. tt)
  All-and (x ∷ xs) =
      let (to, from) = All-and xs in
      (
        λ h. let (a, b) = to h.1 in ((h.0.0, a), (h.0.1, b)),
        λ h. ((h.0.0, h.1.0), from (h.0.1, h.1.1)),
      )

module _ (rt : Runtime) (r : HttpRequest) where
  abbrev AtPath : ParameterSchema → Type 0
  AtPath s = When (is_path s.location) (IsGiven rt s (lookup s.name r.path_parameters))

  abbrev AtQuery : ParameterSchema → Type 0
  AtQuery s = When (is_query s.location) (IsGiven rt s (lookup s.name r.query_parameters))

  abbrev AtHeader : ParameterSchema → Type 0
  AtHeader s = When (is_header s.location) (IsGiven rt s (lookup (to_lower_case s.name) r.headers))

  abbrev AtBody : ParameterSchema → Type 0
  AtBody s = When (is_body s.location) (IsInBody rt s r.body)

  IsMet-parts :
      (s : ParameterSchema) → (AtPath s × (AtQuery s × (AtHeader s × AtBody s))) ↔ IsMet rt r s
  IsMet-parts s = parts s.location
    where
      parts :
          (l : ParameterLocation)
          → (When (is_path l) (IsGiven rt s (lookup s.name r.path_parameters))
              × (When (is_query l) (IsGiven rt s (lookup s.name r.query_parameters))
                  × (When (is_header l) (IsGiven rt s (lookup (to_lower_case s.name) r.headers))
                      × When (is_body l) (IsInBody rt s r.body))))
            ↔ IsMetAt rt r s l
      parts ParameterLocation.path = (λ h. h.0, λ h. (h, (tt, (tt, tt))))
      parts ParameterLocation.query = (λ h. h.1.0, λ h. (tt, (h, (tt, tt))))
      parts ParameterLocation.header = (λ h. h.1.1.0, λ h. (tt, (tt, (h, tt))))
      parts ParameterLocation.body = (λ h. h.1.1.1, λ h. (tt, (tt, (tt, h))))

  conclude-Says :
      (P Q : Type 0) (b : Bool) (w : Validated Validation)
      → ((b ≡ true) ↔ P)
      → Says Q w
      → Concludes (P × Q) (conclude b w)
  conclude-Says P Q true (validated v) f g = (λ h. (f.0 refl, g.0 h), λ h. g.1 h.1)
  conclude-Says P Q false (validated v) f g = (λ h. let no : false ≡ true = h in cc, λ h. f.1 h.0)
  conclude-Says P Q b validation_threw f g = tt

  fronts_iff :
      (schemas : List ParameterSchema) (p q h : Bool)
      → ((p ≡ true) ↔ All AtPath schemas)
      → ((q ≡ true) ↔ All AtQuery schemas)
      → ((h ≡ true) ↔ All AtHeader schemas)
      → ((p && q && h) ≡ true) ↔ (All AtPath schemas × (All AtQuery schemas × All AtHeader schemas))
  fronts_iff schemas p q h (a, a') (b, b') (c, c') = (
    λ e.
        let ep : p ≡ true = ground arith in
        let eq : q ≡ true = ground arith in
        let eh : h ≡ true = ground arith in (a ep, (b eq, c eh)),
    λ (x, (y, z)). let ep = a' x in let eq = b' y in let eh = c' z in rw (ep, eq, eh) refl,
  )

  parts_iff :
      (schemas : List ParameterSchema)
      → ((All AtPath schemas × (All AtQuery schemas × All AtHeader schemas)) × All AtBody schemas)
        ↔ All (IsMet rt r) schemas
  parts_iff schemas =
      let (to, from) = All-iff IsMet-parts schemas in
      let (s1, j1) = All-and AtPath _ schemas in
      let (s2, j2) = All-and AtQuery _ schemas in
      let (s3, j3) = All-and AtHeader AtBody schemas in
      (
        λ ((a, (b, c)), d). to (j1 (a, j2 (b, j3 (c, d)))),
        λ h. let (a, u) = s1 (from h) in let (b, v) = s2 u in let (c, d) = s3 v in ((a, (b, c)), d),
      )

  validate_request-Concludes :
      (e : EndpointDefinition)
      → Concludes
          ((All AtPath e.parameter_schemas
              × (All AtQuery e.parameter_schemas × All AtHeader e.parameter_schemas))
            × All (λ s. IsInBody rt s r.body) (body_schemas e.parameter_schemas))
          (validate_request rt r e)
  unfolding validate_request validate_path_parameters validate_query_parameters
      validate_header_parameters validate_body_parameters
  validate_request-Concludes e =
      conclude-Says _ _ _ _
        (fronts_iff e.parameter_schemas _ _ _
          (checked (check_path rt r) e.parameter_schemas _
            (λ s. located_iff (is_path s.location) _ (check_found_iff rt _ s _)))
          (checked (check_query rt r) e.parameter_schemas _
            (λ s. located_iff (is_query s.location) _ (check_found_iff rt _ s _)))
          (checked (check_header rt r) e.parameter_schemas _
            (λ s. located_iff (is_header s.location) _ (check_found_iff rt _ s _))))
        (body-Says rt r.body (body_schemas e.parameter_schemas) _)

  pub validate_request_iff :
      (e : EndpointDefinition) (v : ValidationResult)
      → validate_request rt r e ≡ validated v
      → (v.is_valid ≡ true) ↔ All (IsMet rt r) e.parameter_schemas
  validate_request_iff e v h =
      let (to, from) = subst (Concludes _) h (validate_request-Concludes e) in
      let (to', from') = parts_iff e.parameter_schemas in
      let (tob, fromb) = body_schemas_iff (λ s. IsInBody rt s r.body) e.parameter_schemas in
      (
        λ valid. let (front, body) = to valid in to' (front, tob body),
        λ met. let (front, body) = from' met in from (front, fromb body),
      )
