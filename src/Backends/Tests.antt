-- ===== src/Backends/Tests.antt =====
-- The registry at concrete inputs.
use rest_api_gateway.Prelude.{◌≡◌, refl, false, [], ◌∷◌, some, Bytes, codes, ◌=s=◌, arith}
use rest_api_gateway.Prelude.Map.{lookup, insert}
use rest_api_gateway.Backends.{
  Backends, find_connection, register_backend, unregister_backend, get_backend_file_descriptor,
  has_backend, get_registered_backend_identifiers,
}
use rest_api_gateway.Backends.Paired.{
  IsPaired, identifier_at, register_backend-IsPaired, unregister_backend-IsPaired,
  unregister_backend_stale,
}

abbrev no_backends : Backends
no_backends = record { connections = []; descriptors = [] }

abbrev shop : Bytes
shop = codes "shop"

abbrev one_backend : Backends
one_backend = register_backend no_backends 7 shop

no_backends-IsPaired : IsPaired no_backends
unfolding get_backend_file_descriptor lookup find_connection
no_backends-IsPaired = record { agree = λ id fd. (λ h. cc, λ h. cc) }

shop_found : get_backend_file_descriptor one_backend shop ≡ some 7
unfolding get_backend_file_descriptor register_backend insert lookup ◌=s=◌
shop_found = refl

shop_listed : get_registered_backend_identifiers one_backend ≡ shop ∷ []
unfolding get_registered_backend_identifiers register_backend insert
shop_listed = refl

one_backend-IsPaired : IsPaired one_backend
unfolding get_backend_file_descriptor lookup find_connection
one_backend-IsPaired = register_backend-IsPaired no_backends 7 shop no_backends-IsPaired refl refl

register_backend-IsPaired_example : IsPaired (register_backend no_backends 7 shop)
unfolding get_backend_file_descriptor lookup find_connection
register_backend-IsPaired_example =
    register_backend-IsPaired no_backends 7 shop no_backends-IsPaired refl refl

unregister_backend-IsPaired_example : IsPaired (unregister_backend one_backend 7).0
unregister_backend-IsPaired_example = unregister_backend-IsPaired one_backend 7 one_backend-IsPaired

unregister_backend_stale_example :
    (has_backend
        (unregister_backend (register_backend (register_backend no_backends 7 shop) 8 shop) 7).0
        shop
      ≡ false)
    × (identifier_at
          (unregister_backend (register_backend (register_backend no_backends 7 shop) 8 shop) 7).0
          8
        ≡ some shop)
unregister_backend_stale_example = unregister_backend_stale no_backends 7 8 shop (λ e. omega arith)
