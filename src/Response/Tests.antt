-- ===== src/Response/Tests.antt =====
-- A response at a concrete input.
use rest_api_gateway.Prelude.{◌≡◌, refl, [], ◌∷◌, ◌++◌, codes, ◌=s=◌}
use rest_api_gateway.Prelude.Map.{insert}
use rest_api_gateway.Decimal.{print_ℕ}
use rest_api_gateway.Http.{crlf}
use rest_api_gateway.Response.{
  build_response, header_lines, create_not_found, set_json_body, set_status_code, new_response,
  default_status_message,
}

not_found_text :
    build_response (λ m. m) (create_not_found (codes "x"))
    ≡ codes "HTTP/1.1 404 Not Found"
      ++ (crlf
          ++ (codes "Content-Type: application/json"
              ++ (crlf
                  ++ (codes "Connection: close"
                      ++ (crlf
                          ++ (codes "Server: RestApiGateway/1.0"
                              ++ (crlf
                                  ++ (codes "Content-Length: 35"
                                      ++ (crlf
                                          ++ (crlf
                                              ++ (b'{' ∷ b'"' ∷ codes "error"
                                                  ++ (b'"' ∷ b':' ∷ b'"' ∷ codes "Not Found"
                                                      ++ (b'"' ∷ b',' ∷ b'"' ∷ codes "message"
                                                          ++ (b'"' ∷ b':' ∷ b'"' ∷ b'x' ∷ b'"'
                                                            ∷ b'}' ∷ []))))))))))))))
unfolding build_response header_lines create_not_found set_json_body set_status_code new_response
    default_status_message insert print_ℕ ◌=s=◌
not_found_text = refl
