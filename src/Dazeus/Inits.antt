-- ===== src/Dazeus/Inits.antt =====
-- The count of initialisations in `DaZeus::loadConfig` (src/dazeus.cpp): it is kept in the database
-- as a decimal number.
use dazeus_core.Base.{
  ℕ, ◌+◌, ◌-◌, ◌%◌, Bool, ◌||◌, ◌&&◌, [], ◌∷◌, Option, none, some, leb, ◌==◌, if◌then◌else◌,
  is_empty,
}
use dazeus_core.Text.{Str, lit}
use dazeus_core.Text.Decimal.{decimal, is_digit, value_from, int_max}
use dazeus_core.Int.{ℤ, pos, negsuc}
use dazeus_core.Run.{Run, done, dies, undefined_behaviour}

-- `isspace(c)`
abbrev is_space : ℕ → Bool
is_space c = c == b' ' || leb 9 c && leb c 13

unfoldable pub skip_space : Str → Str
skip_space [] = []
skip_space (c ∷ s) = if is_space c then skip_space s else c ∷ s

unfoldable pub leading_digits : Str → Str
leading_digits [] = []
leading_digits (c ∷ s) = let rest = leading_digits s in if is_digit c then c ∷ rest else []

-- the number that the digits stand for, up to a limit
unfoldable pub magnitude : ℕ → Str → Option ℕ
magnitude limit ds =
    if is_empty ds
    then none
    else if leb (value_from 0 ds) limit
    then some (value_from 0 ds)
    else none

unfoldable pub minus : ℕ → ℤ
minus n = if n == 0 then pos 0 else negsuc (n - 1)

-- `stream >> numInits`; `none` where the stream is not good after it
unfoldable pub stream_int : Str → Option ℤ
unfolding magnitude minus
stream_int [] = none
stream_int (c ∷ s) =
    if c == b'-'
    then elim (magnitude (int_max + 1) (leading_digits s)) [ none ↦ none | some n ↦ some (minus n) ]
    else elim (magnitude int_max (leading_digits (if c == b'+' then s else c ∷ s))) [
      | none ↦ none
      | some n ↦ some (pos n)
    ]

-- `++numInits`; no `int` is above `INT_MAX`
unfoldable pub increment : ℤ → Run ℤ
increment (pos n) = if n == int_max then dies undefined_behaviour else done (pos (n + 1))
increment (negsuc n) = done (if n == 0 then pos 0 else negsuc (n - 1))

-- the number of this initialisation, from the text of the property
unfoldable pub next_init : Str → Run ℤ
unfolding stream_int increment skip_space
next_init text = elim (stream_int (skip_space text)) [
  | none ↦ increment (pos 0)
  | some n ↦ increment n
]

-- `stream << numInits`
unfoldable pub init_text : ℤ → Str
init_text (pos n) = decimal n
init_text (negsuc n) = b'-' ∷ decimal (n + 1)

-- the suffix in the greeting; a remainder of a negative number is not positive
unfoldable pub suffix : ℤ → Str
unfolding lit
suffix (negsuc n) = lit "th"
suffix (pos n) =
    if n % 100 == 11
    then lit "th"
    else if n % 100 == 12
    then lit "th"
    else if n % 100 == 13
    then lit "th"
    else if n % 10 == 1
    then lit "st"
    else if n % 10 == 2
    then lit "nd"
    else if n % 10 == 3
    then lit "rd"
    else lit "th"
