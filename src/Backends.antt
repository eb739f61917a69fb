-- ===== src/Backends.antt =====
-- The registry of backends in include/gateway/transport/UnixSocketListener.h and
-- src/transport/UnixSocketListener.cpp: connections by file descriptor, and file descriptors by
-- identifier. A file descriptor that accept gave is a natural number. Log lines are left out.
pub mod Paired
mod Tests
use rest_api_gateway.Prelude.{
  ℕ, Bool, true, false, List, [], ◌∷◌, Option, none, some, Bytes, ◌==◌, if◌then◌else◌,
}
use rest_api_gateway.Prelude.Map.{lookup, insert, erase}

pub data ConnectionState : Type 0 where
  idle reading writing closing closed : ConnectionState

pub record BackendConnection : Type 0 where
  pub file_descriptor : ℕ
  pub backend_identifier : Bytes
  pub state : ConnectionState
  pub read_buffer : Bytes

pub record Backends : Type 0 where
  pub connections : List (ℕ × BackendConnection)
  pub descriptors : List (Bytes × ℕ)

-- A map by file descriptor: find, `[]` and erase.
unfoldable pub find_connection : ℕ → List (ℕ × BackendConnection) → Option BackendConnection
find_connection fd [] = none
find_connection fd ((g, c) ∷ m) = if g == fd then some c else find_connection fd m

unfoldable pub put_connection :
    ℕ → BackendConnection → List (ℕ × BackendConnection) → List (ℕ × BackendConnection)
put_connection fd c [] = (fd, c) ∷ []
put_connection fd c ((g, d) ∷ m) = if g == fd then (fd, c) ∷ m else (g, d) ∷ put_connection fd c m

unfoldable pub erase_connection : ℕ → List (ℕ × BackendConnection) → List (ℕ × BackendConnection)
erase_connection fd [] = []
erase_connection fd ((g, d) ∷ m) =
    if g == fd then erase_connection fd m else (g, d) ∷ erase_connection fd m

-- The connection that RegisterBackend makes.
unfoldable pub new_connection : ℕ → Bytes → BackendConnection
new_connection fd id = record {
  file_descriptor = fd;
  backend_identifier = id;
  state = idle;
  read_buffer = [];
}

-- RegisterBackend
unfoldable pub register_backend : Backends → ℕ → Bytes → Backends
register_backend b fd id = record {
  connections = put_connection fd (new_connection fd id) b.connections;
  descriptors = insert id fd b.descriptors;
}

abbrev unregister_found : Backends → ℕ → Option BackendConnection → Backends × Option ℕ
unregister_found b fd none = (b, none)
unregister_found b fd (some c) = (
  record {
    connections = erase_connection fd b.connections;
    descriptors = erase c.backend_identifier b.descriptors;
  },
  some fd,
)

-- UnregisterBackend, with the file descriptor that it closes.
unfoldable pub unregister_backend : Backends → ℕ → Backends × Option ℕ
unregister_backend b fd = unregister_found b fd (find_connection fd b.connections)

-- GetBackendFileDescriptor; `none` is -1.
unfoldable pub get_backend_file_descriptor : Backends → Bytes → Option ℕ
get_backend_file_descriptor b id = lookup id b.descriptors

abbrev is_known : Option ℕ → Bool
is_known none = false
is_known (some fd) = true

-- HasBackend
unfoldable pub has_backend : Backends → Bytes → Bool
has_backend b id = is_known (lookup id b.descriptors)

abbrev pub keys : List (Bytes × ℕ) → List Bytes
keys [] = []
keys ((id, fd) ∷ m) = id ∷ keys m

-- GetRegisteredBackendIdentifiers, in the order of the map.
unfoldable pub get_registered_backend_identifiers : Backends → List Bytes
get_registered_backend_identifiers b = keys b.descriptors
