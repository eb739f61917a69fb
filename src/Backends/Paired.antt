-- ===== src/Backends/Paired.antt =====
-- The two maps of the registry, one with the other.
use rest_api_gateway.Prelude.{
  ℕ, ◌≡◌, ◌≢◌, ◌↔◌, inl, inr, refl, sym, ap, ◌∙◌, true, false, Bool-cases, Option-cases, List, [],
  ◌∷◌, Option, none, some, Bytes, ◌=s=◌, bytes_eq_iff, bytes_eq_refl, ◌==◌, if◌then◌else◌, arith,
}
use rest_api_gateway.Prelude.Map.{erase, lookup-insert, lookup-erase}
use rest_api_gateway.Backends.{
  BackendConnection, new_connection, Backends, find_connection, put_connection, erase_connection,
  register_backend, unregister_backend, has_backend, get_backend_file_descriptor,
}

find-put :
    (fd g : ℕ) (c : BackendConnection) (m : List (ℕ × BackendConnection))
    → find_connection g (put_connection fd c m) ≡ (if fd == g then some c else find_connection g m)
unfolding find_connection put_connection
find-put fd g c [] = refl
find-put fd g c ((h, d) ∷ m) = ground (arith, find-put fd g c m)

find-erase :
    (fd g : ℕ) (m : List (ℕ × BackendConnection))
    → find_connection g (erase_connection fd m) ≡ (if fd == g then none else find_connection g m)
unfolding find_connection erase_connection
find-erase fd g [] = ground arith
find-erase fd g ((h, d) ∷ m) = ground (arith, find-erase fd g m)

-- The identifier of the backend on a file descriptor.
abbrev pub identifier_of : Option BackendConnection → Option Bytes
identifier_of none = none
identifier_of (some c) = some c.backend_identifier

abbrev pub identifier_at : Backends → ℕ → Option Bytes
identifier_at b fd = identifier_of (find_connection fd b.connections)

-- The maps agree: an identifier leads to a file descriptor exactly when that leads back.
pub record IsPaired (b : Backends) : Type 0 where
  pub agree :
      (id : Bytes) (fd : ℕ)
      → (get_backend_file_descriptor b id ≡ some fd) ↔ (identifier_at b fd ≡ some id)

pub get-register_backend :
    (b : Backends) (fd : ℕ) (id j : Bytes)
    → get_backend_file_descriptor (register_backend b fd id) j
      ≡ (if id =s= j then some fd else get_backend_file_descriptor b j)
unfolding get_backend_file_descriptor register_backend
get-register_backend b fd id j = lookup-insert id j fd b.descriptors

identifier_at-register_backend :
    (b : Backends) (fd g : ℕ) (id : Bytes)
    → identifier_at (register_backend b fd id) g ≡ (if fd == g then some id else identifier_at b g)
unfolding register_backend new_connection
identifier_at-register_backend b fd g id = elim (Bool-cases (fd == g)) [
  | inl same ↦ rw (find-put fd g (new_connection fd id) b.connections, same) refl
  | inr other ↦ rw (find-put fd g (new_connection fd id) b.connections, other) refl
]

-- One identifier and one file descriptor, after a new pair.
agree_added :
    (id j : Bytes) (fd g : ℕ) (x : Option ℕ) (y : Option Bytes)
    → ((x ≡ some g) ↔ (y ≡ some j))
    → (id ≡ j → x ≡ none)
    → (fd ≡ g → y ≡ none)
    → ((if id =s= j then some fd else x) ≡ some g) ↔ ((if fd == g then some id else y) ≡ some j)
agree_added id j fd g x y (to, from) no_x no_y = elim (Bool-cases (id =s= j)) [
  | inl same ↦
      let e = (bytes_eq_iff id j).0 same in
      let missing = no_x e in
      elim (Bool-cases (fd == g)) [
        | inl here ↦ let e' : fd ≡ g = ground arith in rw (same, here) (λ h. cc, λ h. cc)
        | inr away ↦ rw (same, away) (λ h. absurd (ground arith), λ h. let h' = from h in cc)
      ]
  | inr other ↦ elim (Bool-cases (fd == g)) [
    | inl here ↦
        let e' : fd ≡ g = ground arith in
        let missing = no_y e' in
        rw (other, here)
          (
            λ h. let h' = to h in cc,
            λ h. let e : id ≡ j = cc in absurd (ground (arith, bytes_eq_iff id j)),
          )
    | inr away ↦ rw (other, away) (to, from)
  ]
]

-- Registering a backend under a new identifier on a new connection keeps the two maps in
-- agreement.
pub register_backend-IsPaired :
    (b : Backends) (fd : ℕ) (id : Bytes)
    → IsPaired b
    → identifier_at b fd ≡ none
    → get_backend_file_descriptor b id ≡ none
    → IsPaired (register_backend b fd id)
register_backend-IsPaired b fd id p free new = record {
  agree = λ j g.
      rw (get-register_backend b fd id j, identifier_at-register_backend b fd g id)
        (agree_added id j fd g _ _ (p.agree j g)
          (λ e. ap (get_backend_file_descriptor b) (sym e) ∙ new)
          (λ e. ap (identifier_at b) (sym e) ∙ free));
}

identifier_at-erase :
    (b : Backends) (fd g : ℕ)
    → identifier_of (find_connection g (erase_connection fd b.connections))
      ≡ (if fd == g then none else identifier_at b g)
identifier_at-erase b fd g = elim (Bool-cases (fd == g)) [
  | inl same ↦ rw (find-erase fd g b.connections, same) refl
  | inr other ↦ rw (find-erase fd g b.connections, other) refl
]

-- One identifier and one file descriptor, after a pair is gone.
agree_removed :
    (id j : Bytes) (fd g : ℕ) (x : Option ℕ) (y : Option Bytes)
    → ((x ≡ some g) ↔ (y ≡ some j))
    → (id ≡ j → x ≡ some fd)
    → (fd ≡ g → y ≡ some id)
    → ((if id =s= j then none else x) ≡ some g) ↔ ((if fd == g then none else y) ≡ some j)
agree_removed id j fd g x y (to, from) that_x that_y = elim (Bool-cases (id =s= j)) [
  | inl same ↦
      let e = (bytes_eq_iff id j).0 same in
      let at = that_x e in
      elim (Bool-cases (fd == g)) [
        | inl here ↦ rw (same, here) (λ h. cc, λ h. cc)
        | inr away ↦
            rw (same, away)
              (λ h. cc, λ h. let h' = from h in let e' : fd ≡ g = cc in absurd (ground arith))
      ]
  | inr other ↦ elim (Bool-cases (fd == g)) [
    | inl here ↦
        let e' : fd ≡ g = ground arith in
        let at = that_y e' in
        rw (other, here)
          (
            λ h. let h' = to h in let e : id ≡ j = cc in absurd (ground (arith, bytes_eq_iff id j)),
            λ h. cc,
          )
    | inr away ↦ rw (other, away) (to, from)
  ]
]

unregister_found-IsPaired :
    (b : Backends) (fd : ℕ) (c : BackendConnection)
    → IsPaired b
    → find_connection fd b.connections ≡ some c
    → IsPaired (record {
      connections = erase_connection fd b.connections;
      descriptors = erase c.backend_identifier b.descriptors;
    })
unfolding get_backend_file_descriptor
unregister_found-IsPaired b fd c p at =
    let id = c.backend_identifier in
    let here : identifier_at b fd ≡ some id = ap identifier_of at in
    let leads : get_backend_file_descriptor b id ≡ some fd = (p.agree id fd).1 here in
    record {
      agree = λ j g.
          rw (lookup-erase id j b.descriptors, identifier_at-erase b fd g)
            (agree_removed id j fd g _ _ (p.agree j g)
              (λ e. ap (get_backend_file_descriptor b) (sym e) ∙ leads)
              (λ e. ap (identifier_at b) (sym e) ∙ here));
    }

-- UnregisterBackend keeps the two maps of the registry in agreement, whatever file descriptor
-- it is given.
pub unregister_backend-IsPaired :
    (b : Backends) (fd : ℕ) → IsPaired b → IsPaired (unregister_backend b fd).0
unfolding unregister_backend
unregister_backend-IsPaired b fd p = elim (Option-cases (find_connection fd b.connections)) [
  | inl missing ↦ rw missing p
  | inr (c, at) ↦ rw at (unregister_found-IsPaired b fd c p at)
]

-- The identifier of the connection that ends leads nowhere then, every other where it led.
pub get-unregister_backend :
    (b : Backends) (fd : ℕ) (j : Bytes) (c : BackendConnection)
    → find_connection fd b.connections ≡ some c
    → get_backend_file_descriptor (unregister_backend b fd).0 j
      ≡ (if c.backend_identifier =s= j then none else get_backend_file_descriptor b j)
unfolding get_backend_file_descriptor unregister_backend
get-unregister_backend b fd j c at = rw at (lookup-erase c.backend_identifier j b.descriptors)

found_old :
    (b : Backends) (old new : ℕ) (id : Bytes)
    → old ≢ new
    → find_connection old (register_backend (register_backend b old id) new id).connections
      ≡ some (new_connection old id)
unfolding register_backend
found_old b old new id h =
    let other : (new == old) ≡ false = ground arith in
    let same : (old == old) ≡ true = ground arith in
    rw
      (
        find-put new old (new_connection new id)
            (put_connection old (new_connection old id) b.connections),
        other,
      )
      (rw (find-put old old (new_connection old id) b.connections, same) refl)

stale_descriptor :
    (b : Backends) (fd : ℕ) (c : BackendConnection)
    → find_connection fd b.connections ≡ some c
    → has_backend (unregister_backend b fd).0 c.backend_identifier ≡ false
unfolding has_backend unregister_backend
stale_descriptor b fd c at = rw at (
    rw
      (
        lookup-erase c.backend_identifier c.backend_identifier b.descriptors,
        bytes_eq_refl c.backend_identifier,
      )
      refl)

other_connection :
    (b : Backends) (fd g : ℕ) (c : BackendConnection)
    → find_connection fd b.connections ≡ some c
    → fd ≢ g
    → identifier_at (unregister_backend b fd).0 g ≡ identifier_at b g
unfolding unregister_backend
other_connection b fd g c at h =
    let other : (fd == g) ≡ false = ground arith in
    rw at (identifier_at-erase b fd g ∙ rw other refl)

-- After a backend registers again on a second connection, UnregisterBackend of the first
-- connection's descriptor removes the identifier of the backend, though the second connection
-- is still in the registry under it.
pub unregister_backend_stale :
    (b : Backends) (old new : ℕ) (id : Bytes)
    → old ≢ new
    → (has_backend
          (unregister_backend (register_backend (register_backend b old id) new id) old).0
          id
        ≡ false)
      × (identifier_at
            (unregister_backend (register_backend (register_backend b old id) new id) old).0
            new
          ≡ some id)
unfolding new_connection
unregister_backend_stale b old new id h =
    let twice = register_backend (register_backend b old id) new id in
    let at = found_old b old new id h in
    let same : (new == new) ≡ true = ground arith in
    (
      stale_descriptor twice old (new_connection old id) at,
      other_connection twice old new (new_connection old id) at h
          ∙ identifier_at-register_backend (register_backend b old id) new new id
          ∙ rw same refl,
    )
