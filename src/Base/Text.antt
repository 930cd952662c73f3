-- ===== src/Base/Text.antt =====
-- C strings as lists of bytes without the closing NUL, and the <string.h> functions on them.
use Prim.Native.Nat.{ℕ}
use Prim.Native.Char.{code}
use Prim.Native.String.{String}
use mathlib.Core.Path.{◌≡◌, refl}
use mathlib.Core.Logic.{◌↔◌}
use mathlib.Core.Bool.{Bool, true, false, ◌&&◌, ◌||◌}
use mathlib.Core.Option.{Option, none, some}
use mathlib.Core.List.{List, [], ◌∷◌}
use native.Mathlib.Omega.{arith}
use startup.Base.Tests.{◌==◌, if◌then◌else◌}

abbrev pub Str : Type 0
Str = List ℕ

-- The bytes of an ASCII literal.
abbrev pub codes : String → Str
codes String.[] = []
codes (String.◌∷◌ c s) = code c ∷ codes s

-- `! strcmp (a, b)`
unfoldable pub str_eq : Str → Str → Bool
str_eq [] [] = true
str_eq (x ∷ a) (y ∷ b) = x == y && str_eq a b
str_eq [] (y ∷ b) = false
str_eq (x ∷ a) [] = false

pub str_eq_iff : (a b : Str) → (str_eq a b ≡ true) ↔ (a ≡ b)
unfolding str_eq
str_eq_iff [] [] = ground arith
str_eq_iff (x ∷ a) (y ∷ b) = ground (arith, str_eq_iff a b)
str_eq_iff [] (y ∷ b) = ground arith
str_eq_iff (x ∷ a) [] = ground arith

pub str_eq_refl : (a : Str) → str_eq a a ≡ true
str_eq_refl a = (str_eq_iff a a).1 refl

-- `strchr (s, c) != NULL`, for a byte that is not NUL.
unfoldable pub has_byte : ℕ → Str → Bool
has_byte c [] = false
has_byte c (x ∷ s) = x == c || has_byte c s

-- The first `strcspn (s, "=")` bytes of `s`: its key.
unfoldable pub key_of : Str → Str
key_of [] = []
key_of (x ∷ s) = if x == b'=' then [] else x ∷ key_of s

-- What follows the first '=' of `s`: `strchr (s, '=') + 1`, or NULL.
unfoldable pub value_of : Str → Option Str
value_of [] = none
value_of (x ∷ s) = if x == b'=' then some s else value_of s

-- `! strncmp (s, k, strlen (k))`
unfoldable pub starts_with : Str → Str → Bool
starts_with s [] = true
starts_with [] (y ∷ k) = false
starts_with (x ∷ s) (y ∷ k) = x == y && starts_with s k
