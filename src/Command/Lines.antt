-- ===== src/Command/Lines.antt =====
-- The parser over a whole line: it reads back the words that were written.
use dazeus_core.Base.{
  ℕ, zero, suc, ◌≡◌, refl, ◌∙◌, sym, ap, Bool, true, false, not, ◌||◌, List, [], ◌∷◌, ◌++◌,
  append_assoc, append-nil, arith, is_empty,
}
use dazeus_core.Text.{Str}
use dazeus_core.Command.{Parser, finish_arg, parse_char, parse_chars, parse_args, parse_full_args}
use dazeus_core.Command.Written.{
  Part, word_text, word_value, has_quotes, spaces, more_text, more_values, WordOk, MoreOk,
}
use dazeus_core.Command.Parts.{at, full_of, or_false, parse-word}

parse-spaces :
    (k : ℕ) (args : List Str) (full rest : Str)
    → parse_chars (at false false true args [] full) (spaces k ++ rest)
      ≡ parse_chars (at false false true args [] (full ++ spaces k)) rest
unfolding parse_chars
parse-spaces zero args full rest = rw append-nil
parse-spaces (suc k) args full rest =
    parse-spaces k args (full ++ b' ' ∷ []) rest ∙ rw (append_assoc full (b' ' ∷ []) (spaces k))

-- A space ends a visible word.
parse-break :
    (had command : Bool) (args : List Str) (word full rest : Str)
    → (not (is_empty word) || had) ≡ true
    → parse_chars (at false had command args word full) (b' ' ∷ rest)
      ≡ parse_chars
          (at false false true (args ++ word ∷ []) [] (full_of command full (b' ' ∷ [])))
          rest
unfolding parse_chars
parse-break had command args word full rest h = ground arith

parse-more :
    (ws : List (ℕ × List Part)) (had command : Bool) (args : List Str) (word full : Str)
    → (not (is_empty word) || had) ≡ true
    → MoreOk ws
    → finish_arg (parse_chars (at false had command args word full) (more_text ws))
      ≡ args ++ word ∷ more_values ws
unfolding finish_arg
parse-more [] had command args word full h ok = unfold parse_chars in rw h
parse-more ((k, w) ∷ ws) had command args word full h ok =
    ap finish_arg (
      parse-break had command args word full (spaces k ++ (word_text w ++ more_text ws)) h
      ∙ parse-spaces k (args ++ word ∷ []) (full_of command full (b' ' ∷ []))
          (word_text w ++ more_text ws)
      ∙ parse-word true (args ++ word ∷ []) w false []
          (full_of command full (b' ' ∷ []) ++ spaces k) (more_text ws) ok.0.0)
    ∙ parse-more ws (has_quotes w || false) true (args ++ word ∷ []) (word_value w) _
        (rw (or_false (has_quotes w)) ok.0.1) ok.1
    ∙ append_assoc args (word ∷ []) (word_value w ∷ more_values ws)

-- A line of written words, with any number of spaces between two of them, is parsed into their
-- values: quotes may hold spaces and may be empty, and a backslash takes any character as it is.
pub parse_args-line :
    (w : List Part) (ws : List (ℕ × List Part))
    → WordOk w
    → MoreOk ws
    → parse_args (word_text w ++ more_text ws) ≡ word_value w ∷ more_values ws
unfolding parse_args
parse_args-line w ws ok oks =
    ap finish_arg (parse-word false [] w false [] [] (more_text ws) ok.0)
    ∙ parse-more ws (has_quotes w || false) false [] (word_value w) []
        (rw (or_false (has_quotes w)) ok.1) oks

parse_char-full_args :
    (p : Parser) (c : ℕ)
    → p.has_command ≡ true
    → ((parse_char p c).full_args ≡ p.full_args ++ c ∷ []) × ((parse_char p c).has_command ≡ true)
unfolding parse_char
parse_char-full_args p c h = ground arith

parse_chars-full_args :
    (rest : Str) (p : Parser)
    → p.has_command ≡ true
    → (parse_chars p rest).full_args ≡ p.full_args ++ rest
unfolding parse_chars
parse_chars-full_args [] p h = sym (append-nil p.full_args)
parse_chars-full_args (c ∷ rest) p h =
    let step = parse_char-full_args p c h in
    parse_chars-full_args rest (parse_char p c) step.1
    ∙ rw step.0 (append_assoc p.full_args (c ∷ []) rest)

-- Behind the first word and one space, the rest of the line is `fullArgs`, whatever stands there.
pub parse_full_args-line :
    (w : List Part) (rest : Str) → WordOk w → parse_full_args (word_text w ++ (b' ' ∷ rest)) ≡ rest
unfolding parse_full_args
parse_full_args-line w rest ok =
    ap (λ (p : Parser). p.full_args)
      (parse-word false [] w false [] [] (b' ' ∷ rest) ok.0
        ∙ parse-break (has_quotes w || false) false [] (word_value w) [] rest
            (rw (or_false (has_quotes w)) ok.1))
    ∙ parse_chars-full_args rest _ refl
