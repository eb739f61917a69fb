-- ===== src/Method.antt =====
-- include/gateway/Common.h: HttpMethod, and its conversions at the end of src/main.cpp.
use rest_api_gateway.Prelude.{
  ℕ, ◌≡◌, refl, ◌↔◌, Bool, true, ◌||◌, Bytes, codes, ◌=s=◌, ◌==◌, if◌then◌else◌, arith,
}

pub data HttpMethod : Type 0 where
  get post put delete patch head options unknown : HttpMethod

unfoldable pub string_to_http_method : Bytes → HttpMethod
string_to_http_method s =
    if s =s= codes "GET" || s =s= codes "get"
    then get
    else if s =s= codes "POST" || s =s= codes "post"
    then post
    else if s =s= codes "PUT" || s =s= codes "put"
    then put
    else if s =s= codes "DELETE" || s =s= codes "delete"
    then delete
    else if s =s= codes "PATCH" || s =s= codes "patch"
    then patch
    else if s =s= codes "HEAD" || s =s= codes "head"
    then head
    else if s =s= codes "OPTIONS" || s =s= codes "options"
    then options
    else unknown

unfoldable pub http_method_to_string : HttpMethod → Bytes
http_method_to_string get = codes "GET"
http_method_to_string post = codes "POST"
http_method_to_string put = codes "PUT"
http_method_to_string delete = codes "DELETE"
http_method_to_string patch = codes "PATCH"
http_method_to_string head = codes "HEAD"
http_method_to_string options = codes "OPTIONS"
http_method_to_string unknown = codes "UNKNOWN"

-- The enumerators in the order of the declaration, for `==`.
abbrev method_code : HttpMethod → ℕ
method_code get = 0
method_code post = 1
method_code put = 2
method_code delete = 3
method_code patch = 4
method_code head = 5
method_code options = 6
method_code unknown = 7

infix 50 ◌=m=◌
unfoldable pub ◌=m=◌ : HttpMethod → HttpMethod → Bool
a =m= b = method_code a == method_code b

pub method_eq_iff : (a b : HttpMethod) → ((a =m= b) ≡ true) ↔ (a ≡ b)
unfolding ◌=m=◌
method_eq_iff a b = (λ h. ground arith, λ e. ground arith)

-- StringToHttpMethod reads the text of HttpMethodToString back as the method.
string-method-string : (m : HttpMethod) → string_to_http_method (http_method_to_string m) ≡ m
unfolding string_to_http_method http_method_to_string ◌=s=◌
string-method-string get = refl
string-method-string _ = refl
