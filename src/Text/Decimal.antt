-- ===== src/Text/Decimal.antt =====
-- Decimal numbers as a stream prints them (`s << n`) and reads them (`s >> n` into an `int`).
use dazeus_core.Base.{
  ℕ, zero, suc, ◌+◌, ◌-◌, ◌*◌, ◌/◌, ◌%◌, ◌^◌, ◌≤◌, ◌<◌, ◌≡◌, refl, Bool, true, false, ◌&&◌, List,
  [], ◌∷◌, ◌++◌, Option, none, some, arith, leb, ltb, is_empty, if◌then◌else◌, All, All-append,
  Bool-cases, inl, inr,
}

abbrev pub int_max : ℕ
int_max = 2 ^ 31 - 1

-- `isdigit(c)`
unfoldable pub is_digit : ℕ → Bool
is_digit c = leb b'0' c && leb c b'9'

-- the digits of `n`, at most `fuel` of them
unfoldable decimal_fuel : ℕ → ℕ → List ℕ
decimal_fuel zero n = []
decimal_fuel (suc fuel) n =
    let front = decimal_fuel fuel (n / 10) in
    if ltb n 10 then (b'0' + n) ∷ [] else front ++ (b'0' + n % 10) ∷ []

-- `s << n` for a number that is not negative
unfoldable pub decimal : ℕ → List ℕ
unfolding decimal_fuel
decimal n = decimal_fuel (suc n) n

-- the number that a run of digits stands for
unfoldable pub value_from : ℕ → List ℕ → ℕ
value_from acc [] = acc
value_from acc (d ∷ ds) = value_from (acc * 10 + (d - b'0')) ds

-- `s >> n` into an `int`, where the stream holds digits alone: it fails on an empty stream and on
-- a value above `INT_MAX`
unfoldable pub read_int : List ℕ → Option ℕ
unfolding value_from
read_int ds =
    if is_empty ds
    then none
    else if leb (value_from 0 ds) int_max
    then some (value_from 0 ds)
    else none

value_from-append :
    (acc : ℕ) (ds es : List ℕ) → value_from acc (ds ++ es) ≡ value_from (value_from acc ds) es
unfolding value_from
value_from-append acc [] es = refl
value_from-append acc (d ∷ ds) es = value_from-append (acc * 10 + (d - b'0')) ds es

value_from-decimal_fuel : (fuel n : ℕ) → n < fuel → value_from 0 (decimal_fuel fuel n) ≡ n
unfolding decimal_fuel value_from
value_from-decimal_fuel zero n h = absurd (omega arith)
value_from-decimal_fuel (suc fuel) n h = ground (
  arith,
  value_from-append 0 (decimal_fuel fuel (n / 10)) ((b'0' + n % 10) ∷ []),
  value_from-decimal_fuel fuel (n / 10),
)

decimal_fuel-digits : (fuel n : ℕ) → All (λ c. is_digit c ≡ true) (decimal_fuel fuel n)
unfolding decimal_fuel is_digit
decimal_fuel-digits zero n = tt
decimal_fuel-digits (suc fuel) n = elim (Bool-cases (ltb n 10)) [
  | inl small ↦ rw small (ground arith, tt)
  | inr large ↦ rw large (
      All-append _ (decimal_fuel fuel (n / 10)) ((b'0' + n % 10) ∷ [])
        (decimal_fuel-digits fuel (n / 10)) (ground arith, tt))
]

-- A printed number consists of digits.
pub decimal-digits : (n : ℕ) → All (λ c. is_digit c ≡ true) (decimal n)
unfolding decimal
decimal-digits n = decimal_fuel-digits (suc n) n

is_empty-concat : (ds : List ℕ) (d : ℕ) → is_empty (ds ++ d ∷ []) ≡ false
is_empty-concat [] d = refl
is_empty-concat (x ∷ ds) d = refl

pub decimal-nonempty : (n : ℕ) → is_empty (decimal n) ≡ false
unfolding decimal decimal_fuel
decimal-nonempty n = elim (Bool-cases (ltb n 10)) [
  | inl small ↦ rw small
  | inr large ↦ rw large (is_empty-concat (decimal_fuel n (n / 10)) (b'0' + n % 10))
]

pub value_from-decimal : (n : ℕ) → value_from 0 (decimal n) ≡ n
unfolding decimal
value_from-decimal n = value_from-decimal_fuel (suc n) n (omega arith)

-- A number that an `int` holds is read back from its print.
pub read_int-decimal : (n : ℕ) → n ≤ int_max → read_int (decimal n) ≡ some n
unfolding read_int
read_int-decimal n h = rw (decimal-nonempty n, value_from-decimal n) (ground arith)
