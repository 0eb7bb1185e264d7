-- ===== src/Base/Bytes.antt =====
-- C strings and memory as lists of bytes: comparison, search, and the bytes of a `size_t`.
use Prim.Native.Char.{code}
use Prim.Native.String.{String}
use Prim.Native.Nat.{ℕ, zero, suc, ◌+◌, ◌*◌, ◌/◌, ◌%◌, ◌^◌, ◌<◌}
use mathlib.Core.Path.{◌≡◌, refl, ap}
use mathlib.Core.Logic.{◌↔◌}
use mathlib.Core.Bool.{Bool, true, false, ◌&&◌}
use mathlib.Core.Option.{Option, none, some}
use mathlib.Core.List.{List, [], ◌∷◌}
use native.Mathlib.Omega.{arith}
use file_system_server.Base.Tests.{◌==◌, if◌then◌else◌}
use file_system_server.Base.Lists.{length}

-- The bytes of an ASCII text.
abbrev pub codes : String → List ℕ
codes String.[] = []
codes (String.◌∷◌ c s) = code c ∷ codes s

abbrev pub newline : ℕ
newline = 10

abbrev pub space : ℕ
space = 32

-- `strcmp(a, b) == 0`, for strings with no zero byte in them.
unfoldable pub str_eq : List ℕ → List ℕ → Bool
str_eq [] [] = true
str_eq [] (y ∷ ys) = false
str_eq (x ∷ xs) [] = false
str_eq (x ∷ xs) (y ∷ ys) = (x == y) && str_eq xs ys

pub str_eq_sound : (xs ys : List ℕ) → str_eq xs ys ≡ true → xs ≡ ys
unfolding str_eq
str_eq_sound [] [] h = refl
str_eq_sound [] (y ∷ ys) h = cc
str_eq_sound (x ∷ xs) [] h = cc
str_eq_sound (x ∷ xs) (y ∷ ys) h = ground (arith, str_eq_sound xs ys)

pub str_eq_refl : (xs : List ℕ) → str_eq xs xs ≡ true
unfolding str_eq
str_eq_refl [] = refl
str_eq_refl (x ∷ xs) = ground (arith, str_eq_refl xs)

pub str_eq_iff : (xs ys : List ℕ) → (str_eq xs ys ≡ true) ↔ (xs ≡ ys)
str_eq_iff xs ys = (str_eq_sound xs ys, λ e. subst_right xs ys e)
  where
    subst_right : (xs ys : List ℕ) → xs ≡ ys → str_eq xs ys ≡ true
    subst_right xs ys e = rw e (str_eq_refl ys)

-- The C string at the start of an array: its bytes before the first zero.
unfoldable pub c_string : List ℕ → List ℕ
c_string [] = []
c_string (x ∷ xs) = if x == 0 then [] else x ∷ c_string xs

-- `strchr(s, c)`: what stands before the first `c` and what behind it.
unfoldable pub split_at : ℕ → List ℕ → Option (List ℕ × List ℕ)
split_at c [] = none
split_at c (x ∷ xs) =
    if x == c
    then some ([], xs)
    else elim (split_at c xs) [ none ↦ none | some (before, after) ↦ some (x ∷ before, after) ]

-- The memory of a `size_t`: `n` bytes, the lowest first.
unfoldable pub to_bytes : ℕ → ℕ → List ℕ
to_bytes zero v = []
to_bytes (suc n) v = (v % 256) ∷ to_bytes n (v / 256)

unfoldable pub from_bytes : List ℕ → ℕ
from_bytes [] = 0
from_bytes (b ∷ bs) = b + 256 * from_bytes bs

pub length-to_bytes : (n v : ℕ) → length (to_bytes n v) ≡ n
unfolding to_bytes
length-to_bytes zero v = refl
length-to_bytes (suc n) v = ap suc (length-to_bytes n (v / 256))

pub from_bytes-to_bytes : (n v : ℕ) → v < 256 ^ n → from_bytes (to_bytes n v) ≡ v
unfolding from_bytes to_bytes
from_bytes-to_bytes zero v h = omega arith
from_bytes-to_bytes (suc n) v h =
    omega (arith, from_bytes-to_bytes n (v / 256) (omega (arith, pow_step n)))
  where
    pow_step : (n : ℕ) → 256 ^ suc n ≡ 256 * 256 ^ n
    pow_step n = omega arith
