-- ===== src/Text.antt =====
-- `std::string` as a list of bytes: comparison, literals, and the decimal numbers that a
-- `std::stringstream` prints and reads.
pub mod Decimal
use Prim.Native.Char.{code}
use Prim.Native.String.{String}
use dazeus_core.Base.{
  ℕ, ◌≡◌, refl, ◌↔◌, Bool, true, false, ◌&&◌, List, [], ◌∷◌, arith, ◌==◌, ==_iff, ltb,
  if◌then◌else◌,
}

abbrev pub Str : Type 0
Str = List ℕ

-- a string literal of the source; all of them are ASCII
unfoldable pub lit : String → Str
lit String.[] = []
lit (String.◌∷◌ c s) = code c ∷ lit s

-- `a == b` on strings
unfoldable pub str_eq : Str → Str → Bool
str_eq [] [] = true
str_eq (x ∷ xs) (y ∷ ys) = x == y && str_eq xs ys
str_eq _ _ = false

pub str_eq_iff : (a b : Str) → (str_eq a b ≡ true) ↔ (a ≡ b)
unfolding str_eq
str_eq_iff (x ∷ a) (y ∷ b) = ground (arith, str_eq_iff a b)
str_eq_iff _ _ = ground arith

pub str_eq_self : (a : Str) → str_eq a a ≡ true
str_eq_self a = (str_eq_iff a a).1 refl

-- `s == "literal"`
unfoldable pub is : Str → String → Bool
unfolding str_eq lit
is s l = str_eq s (lit l)

-- `std::string`'s `<`: by the first byte that differs
unfoldable pub str_lt : Str → Str → Bool
str_lt [] [] = false
str_lt [] (y ∷ ys) = true
str_lt (x ∷ xs) [] = false
str_lt (x ∷ xs) (y ∷ ys) = if x == y then str_lt xs ys else ltb x y
