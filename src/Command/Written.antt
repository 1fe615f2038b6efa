-- ===== src/Command/Written.antt =====
-- How a sender writes the words of a command line.
use dazeus_core.Base.{
  ℕ, zero, suc, ◌≡◌, Bool, true, false, not, ◌||◌, List, [], ◌∷◌, ◌++◌, map, ◌==◌, is_empty, All,
}
use dazeus_core.Text.{Str}

-- one character, as it stands or behind a backslash
pub data Mark : Type 0 where
  plain escaped : ℕ → Mark

abbrev pub char_of : Mark → ℕ
char_of (plain c) = c
char_of (escaped c) = c

abbrev pub mark_text : Mark → Str
mark_text (plain c) = c ∷ []
mark_text (escaped c) = b'\\' ∷ c ∷ []

-- a part of a word: a character outside quotes, or a run of characters between quotes
pub data Part : Type 0 where
  bare : Mark → Part
  quoted : List Mark → Part

abbrev pub marks_text : List Mark → Str
marks_text [] = []
marks_text (m ∷ ms) = mark_text m ++ marks_text ms

abbrev pub part_text : Part → Str
part_text (bare m) = mark_text m
part_text (quoted ms) = b'"' ∷ (marks_text ms ++ b'"' ∷ [])

abbrev pub part_value : Part → Str
part_value (bare m) = char_of m ∷ []
part_value (quoted ms) = map char_of ms

abbrev pub word_text : List Part → Str
word_text [] = []
word_text (p ∷ ps) = part_text p ++ word_text ps

abbrev pub word_value : List Part → Str
word_value [] = []
word_value (p ∷ ps) = part_value p ++ word_value ps

-- a quote or a backslash needs a backslash, and outside quotes a space too
abbrev pub InsideOk : Mark → Type 0
InsideOk (plain c) = ((c == b'\\') ≡ false) × ((c == b'"') ≡ false)
InsideOk (escaped c) = Unit

abbrev pub OutsideOk : Mark → Type 0
OutsideOk (plain c) = ((c == b'\\') ≡ false) × ((c == b'"') ≡ false) × ((c == b' ') ≡ false)
OutsideOk (escaped c) = Unit

abbrev pub PartOk : Part → Type 0
PartOk (bare m) = OutsideOk m
PartOk (quoted ms) = All InsideOk ms

abbrev pub is_quoted : Part → Bool
is_quoted (bare m) = false
is_quoted (quoted ms) = true

abbrev pub has_quotes : List Part → Bool
has_quotes [] = false
has_quotes (p ∷ ps) = is_quoted p || has_quotes ps

-- Something is to be seen of the word: it is not empty, or it has quotes.
abbrev pub IsVisible : List Part → Type 0
IsVisible ps = (not (is_empty (word_value ps)) || has_quotes ps) ≡ true

abbrev pub spaces : ℕ → Str
spaces zero = []
spaces (suc k) = b' ' ∷ spaces k

-- more words on the line, each behind one space and `k` more
abbrev pub more_text : List (ℕ × List Part) → Str
more_text [] = []
more_text ((k, w) ∷ ws) = spaces (suc k) ++ (word_text w ++ more_text ws)

abbrev pub more_values : List (ℕ × List Part) → List Str
more_values [] = []
more_values ((k, w) ∷ ws) = word_value w ∷ more_values ws

abbrev pub WordOk : List Part → Type 0
WordOk w = All PartOk w × IsVisible w

abbrev pub MoreOk : List (ℕ × List Part) → Type 0
MoreOk [] = Unit
MoreOk ((k, w) ∷ ws) = WordOk w × MoreOk ws
