-- ===== src/Prelude/Text.antt =====
-- A std::string or a byte vector: a list of byte values. Equality of texts as a Boolean test.
use Prim.Native.Nat.{ℕ, ◌<◌}
use Prim.Native.Char.{code}
use Prim.Native.String.{String}
use mathlib.Core.Path.{◌≡◌, refl}
use mathlib.Core.Logic.{◌↔◌}
use mathlib.Core.Bool.{Bool, true, false, ◌&&◌}
use mathlib.Core.List.{List, [], ◌∷◌}
use native.Mathlib.Omega.{arith}
use rest_api_gateway.Prelude.Tests.{◌==◌}

abbrev pub Bytes : Type 0
Bytes = List ℕ

abbrev pub IsByte : ℕ → Type 0
IsByte b = b < 256

-- The bytes of an ASCII literal.
abbrev pub codes : String → Bytes
codes String.[] = []
codes (String.◌∷◌ c s) = code c ∷ codes s

-- operator== on std::string
infix 50 ◌=s=◌
unfoldable pub ◌=s=◌ : Bytes → Bytes → Bool
[] =s= [] = true
[] =s= (y ∷ ys) = false
(x ∷ xs) =s= [] = false
(x ∷ xs) =s= (y ∷ ys) = x == y && xs =s= ys

bytes_sound : (s t : Bytes) → (s =s= t) ≡ true → s ≡ t
unfolding ◌=s=◌
bytes_sound [] [] h = refl
bytes_sound [] (y ∷ ys) h = cc
bytes_sound (x ∷ xs) [] h = cc
bytes_sound (x ∷ xs) (y ∷ ys) h = ground (arith, bytes_sound xs ys)

pub bytes_eq_refl : (s : Bytes) → (s =s= s) ≡ true
unfolding ◌=s=◌
bytes_eq_refl [] = refl
bytes_eq_refl (x ∷ xs) = ground (arith, bytes_eq_refl xs)

bytes_complete : (s t : Bytes) → s ≡ t → (s =s= t) ≡ true
bytes_complete s t e = rw e (bytes_eq_refl t)

pub bytes_eq_iff : (s t : Bytes) → ((s =s= t) ≡ true) ↔ (s ≡ t)
bytes_eq_iff s t = (bytes_sound s t, bytes_complete s t)
