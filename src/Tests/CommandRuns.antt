-- ===== src/Tests/CommandRuns.antt =====
-- Command lines.
use dazeus_core.Base.{ℕ, ◌≡◌, refl, List, [], ◌∷◌, ◌++◌}
use dazeus_core.Text.{lit}
use dazeus_core.Command.{parse_args, parse_full_args}
use dazeus_core.Command.Written.{
  plain, escaped, Part, bare, quoted, word_text, word_value, more_text, more_values,
}
use dazeus_core.Command.Lines.{parse_args-line, parse_full_args-line}

quoted_line : parse_args (lit "foo  \"bar baz\" a\\ b") ≡ lit "foo" ∷ lit "bar baz" ∷ lit "a b" ∷ []
unfolding parse_args lit
quoted_line = refl

full_line : parse_full_args (lit "foo  \"bar") ≡ lit " \"bar"
unfolding parse_full_args lit
full_line = refl

-- `say`
abbrev first : List Part
first = bare (plain b's') ∷ bare (plain b'a') ∷ bare (plain b'y') ∷ []

-- two spaces more, then `"a b"\"`
abbrev others : List (ℕ × List Part)
others = (2, quoted (plain b'a' ∷ plain b' ' ∷ plain b'b' ∷ []) ∷ bare (escaped b'"') ∷ []) ∷ []

parse_args-line_example :
    parse_args (word_text first ++ more_text others) ≡ word_value first ∷ more_values others
parse_args-line_example =
    parse_args-line first others
      (((refl, refl, refl), ((refl, refl, refl), ((refl, refl, refl), tt))), refl)
      (((((refl, refl), ((refl, refl), ((refl, refl), tt))), (tt, tt)), refl), tt)

parse_full_args-line_example : parse_full_args (word_text first ++ (b' ' ∷ lit " \"x")) ≡ lit " \"x"
parse_full_args-line_example =
    parse_full_args-line first (lit " \"x")
      (((refl, refl, refl), ((refl, refl, refl), ((refl, refl, refl), tt))), refl)
