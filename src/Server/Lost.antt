-- ===== src/Server/Lost.antt =====
-- What HandleBackendConnection of src/main.cpp does when ReceiveFrame gives the error frame, as it
-- does for a connection that has ended.
use rest_api_gateway.Prelude.{
  ℕ, ◌≡◌, refl, sym, ap, ◌∙◌, true, false, Bool-cases, inl, inr, List, [], ◌∷◌, Option, none, some,
  Bytes, ◌=s=◌, bytes_eq_iff, ◌==◌, if◌then◌else◌, arith,
}
use rest_api_gateway.Prelude.Map.{lookup}
use rest_api_gateway.Frame.{Frame, FrameType, Write}
use rest_api_gateway.Runtime.{Runtime}
use rest_api_gateway.Endpoint.Reader.{Memory}
use rest_api_gateway.Routing.Invariant.{IsConsistent}
use rest_api_gateway.Routing.Backend.{without, remove_endpoints_by_backend-IsConsistent}
use rest_api_gateway.Backends.{
  BackendConnection, find_connection, get_backend_file_descriptor,
  get_registered_backend_identifiers, keys,
}
use rest_api_gateway.Backends.Paired.{
  identifier_of, identifier_at, IsPaired, get-unregister_backend, unregister_backend-IsPaired,
}
use rest_api_gateway.Server.{Gateway}
use rest_api_gateway.Server.Connection.{
  ends, remove_backend, has_descriptor, remove_lost, handle_type, handle_frame,
  handle_backend_connection,
}

-- The server without the backend: its endpoints are gone and those of the others are left in their
-- order, its identifier leads nowhere and the others lead where they led.
pub record IsWithout (id : Bytes) (g g' : Gateway) : Type 0 where
  pub endpoints_left : g'.routing_table.endpoints ≡ without id g.routing_table.endpoints
  pub consistent : IsConsistent g'.routing_table
  pub descriptors_left :
      (j : Bytes)
      → get_backend_file_descriptor g'.backends j
        ≡ (if id =s= j then none else get_backend_file_descriptor g.backends j)
  pub paired : IsPaired g'.backends

-- By the backend on the connection, where there is one.
abbrev pub Loses : Option Bytes → Gateway → Gateway → Type 0
Loses none g g' = g' ≡ g
Loses (some id) g g' = IsWithout id g g'

has_descriptor-some : (fd : ℕ) (o : Option ℕ) → has_descriptor fd o ≡ true → o ≡ some fd
has_descriptor-some fd none h = cc
has_descriptor-some fd (some n) h = ap some (ground arith)

module _ (fd : ℕ) (g : Gateway) (p : IsPaired g.backends) where
  remove_lost_there :
      (id : Bytes) (m : List (Bytes × ℕ))
      → identifier_at g.backends fd ≡ some id
      → lookup id m ≡ some fd
      → remove_lost fd (keys m) g ≡ remove_backend fd id g
  unfolding remove_lost lookup
  remove_lost_there id [] at found = cc
  remove_lost_there id ((j, n) ∷ m) at found =
      elim (Bool-cases (has_descriptor fd (get_backend_file_descriptor g.backends j))) [
        | inl lost ↦
            let back : identifier_at g.backends fd ≡ some j =
              (p.agree j fd).0 (has_descriptor-some fd _ lost) in
            let same : j ≡ id = cc in rw lost (ap (λ i. remove_backend fd i g) same)
        | inr other ↦ elim (Bool-cases (j =s= id)) [
          | inl same ↦
              let leads : get_backend_file_descriptor g.backends j ≡ some fd =
                ap (get_backend_file_descriptor g.backends) ((bytes_eq_iff j id).0 same)
                ∙ (p.agree id fd).1 at in
              let no : (fd == fd) ≡ false = rw leads at other in absurd (ground arith)
          | inr away ↦ rw other (remove_lost_there id m at (rw away at found))
        ]
      ]

  remove_lost_nowhere :
      (ids : List Bytes) → identifier_at g.backends fd ≡ none → remove_lost fd ids g ≡ g
  unfolding remove_lost
  remove_lost_nowhere [] at = refl
  remove_lost_nowhere (j ∷ ids) at =
      elim (Bool-cases (has_descriptor fd (get_backend_file_descriptor g.backends j))) [
        | inl lost ↦
            let back : identifier_at g.backends fd ≡ some j =
              (p.agree j fd).0 (has_descriptor-some fd _ lost) in
            absurd (let no : ◌≡◌ {A = Option Bytes} none (some j) = sym at ∙ back in cc)
        | inr other ↦ rw other (remove_lost_nowhere ids at)
      ]

  remove_backend-IsWithout :
      (c : BackendConnection)
      → IsConsistent g.routing_table
      → find_connection fd g.backends.connections ≡ some c
      → IsWithout c.backend_identifier g (remove_backend fd c.backend_identifier g)
  remove_backend-IsWithout c ok at =
      let (kept, left, count) =
        remove_endpoints_by_backend-IsConsistent g.routing_table c.backend_identifier ok in
      record {
        endpoints_left = left;
        consistent = kept;
        descriptors_left = λ j. get-unregister_backend g.backends fd j c at;
        paired = unregister_backend-IsPaired g.backends fd p;
      }

  remove_lost-Loses :
      (o : Option BackendConnection)
      → IsConsistent g.routing_table
      → find_connection fd g.backends.connections ≡ o
      → Loses (identifier_of o) g (remove_lost fd (get_registered_backend_identifiers g.backends) g)
  unfolding get_registered_backend_identifiers get_backend_file_descriptor
  remove_lost-Loses none ok at = remove_lost_nowhere _ (ap identifier_of at)
  remove_lost-Loses (some c) ok at =
      let here : identifier_at g.backends fd ≡ some c.backend_identifier = ap identifier_of at in
      let leads = (p.agree c.backend_identifier fd).1 here in
      rw (remove_lost_there c.backend_identifier g.backends.descriptors here leads)
        (remove_backend-IsWithout c ok at)

module _ (rt : Runtime) (memory : ℕ → Memory) (fd : ℕ) where
  handle_error :
      (f : Frame) (t : FrameType) (writes : List Write) (g : Gateway)
      → t ≡ FrameType.error
      → handle_type rt memory writes fd f t g
        ≡ ends (remove_lost fd (get_registered_backend_identifiers g.backends) g)
  handle_error f t writes g e = rw e refl

  -- On a consistent table and a registry whose maps agree: where ReceiveFrame gives the error
  -- frame, HandleBackendConnection ends; if a backend is registered on the connection, exactly
  -- its endpoints are gone and those of the others are left in their order, the table is
  -- consistent, its identifier leads to no descriptor and every other one to the same as
  -- before, and the maps agree; if none is, nothing changes.
  pub handle_backend_connection-Loses :
      (f : Frame) (writes : List Write) (calls : List (Frame × List Write)) (g : Gateway)
      → IsConsistent g.routing_table
      → IsPaired g.backends
      → f.frame_type ≡ FrameType.error
      → (g' : Gateway) × (handle_backend_connection rt memory fd ((f, writes) ∷ calls) g ≡ ends g')
        × Loses (identifier_at g.backends fd) g g'
  unfolding handle_backend_connection handle_frame
  handle_backend_connection-Loses f writes calls g ok p e = (
    remove_lost fd (get_registered_backend_identifiers g.backends) g,
    rw (handle_error f f.frame_type writes g e) refl,
    remove_lost-Loses fd g p _ ok refl,
  )
