-- ===== src/Command/Parts.antt =====
-- The parser over one written word.
use dazeus_core.Base.{
  ◌≡◌, ◌∙◌, Bool, true, false, ◌||◌, List, [], ◌∷◌, ◌++◌, map, append_assoc, append-nil, arith,
  if◌then◌else◌, All,
}
use dazeus_core.Text.{Str}
use dazeus_core.Command.{Parser, parse_chars}
use dazeus_core.Command.Written.{
  Mark, plain, escaped, char_of, mark_text, Part, bare, quoted, marks_text, part_text, part_value,
  word_text, word_value, InsideOk, OutsideOk, PartOk, is_quoted, has_quotes,
}

-- a parser between two characters of a line, with no escape pending
abbrev pub at : Bool → Bool → Bool → List Str → Str → Str → Parser
at quote had command args word full = record {
  in_quote_arg = quote;
  had_quotes_this_arg = had;
  in_escape = false;
  has_command = command;
  args = args;
  string_builder = word;
  full_args = full;
}

-- what `fullArgs` becomes over some text
abbrev pub full_of : Bool → Str → Str → Str
full_of command full text = if command then full ++ text else full

full_of-append :
    (command : Bool) (full a b : Str)
    → full_of command (full_of command full a) b ≡ full_of command full (a ++ b)
full_of-append command full a b = ground (arith, append_assoc full a b)

pub or_false : (b : Bool) → (b || false) ≡ b
or_false b = ground arith

or_swap : (a b c : Bool) → (a || (b || c)) ≡ ((b || a) || c)
or_swap a b c = ground arith

module _ (had command : Bool) (args : List Str) where
  parse-mark :
      (quote : Bool) (m : Mark) (word full rest : Str)
      → (if quote then InsideOk m else OutsideOk m)
      → parse_chars (at quote had command args word full) (mark_text m ++ rest)
        ≡ parse_chars
            (at quote had command args
              (word ++ char_of m ∷ [])
              (full_of command full (mark_text m)))
            rest
  unfolding parse_chars
  parse-mark true (plain c) word full rest h = ground arith
  parse-mark true (escaped c) word full rest h =
      ground (arith, append_assoc full (b'\\' ∷ []) (c ∷ []))
  parse-mark false (plain c) word full rest h = ground arith
  parse-mark false (escaped c) word full rest h =
      ground (arith, append_assoc full (b'\\' ∷ []) (c ∷ []))

  parse-marks :
      (ms : List Mark) (word full rest : Str)
      → All InsideOk ms
      → parse_chars (at true had command args word full) (marks_text ms ++ rest)
        ≡ parse_chars
            (at true had command args
              (word ++ map char_of ms)
              (full_of command full (marks_text ms)))
            rest
  parse-marks [] word full rest h = ground (arith, append-nil word, append-nil full)
  parse-marks (m ∷ ms) word full rest h = rw append_assoc (
      parse-mark true m word full (marks_text ms ++ rest) h.0
      ∙ parse-marks ms (word ++ char_of m ∷ []) (full_of command full (mark_text m)) rest h.1
      ∙ rw (
        append_assoc word (char_of m ∷ []) (map char_of ms),
        full_of-append command full (mark_text m) (marks_text ms),
      ))

module _ (command : Bool) (args : List Str) where
  parse-quoted :
      (had : Bool) (ms : List Mark) (word full rest : Str)
      → All InsideOk ms
      → parse_chars (at false had command args word full) (part_text (quoted ms) ++ rest)
        ≡ parse_chars
            (at false true command args
              (word ++ map char_of ms)
              (full_of command full (part_text (quoted ms))))
            rest
  parse-quoted had ms word full rest h =
      opened
      ∙ rw append_assoc
          (parse-marks true command args ms word (full_of command full (b'"' ∷ [])) (b'"' ∷ rest) h)
      ∙ closed
    where
      opened :
          parse_chars
            (at false had command args word full)
            (b'"' ∷ (marks_text ms ++ b'"' ∷ []) ++ rest)
          ≡ parse_chars
              (at true true command args word (full_of command full (b'"' ∷ [])))
              ((marks_text ms ++ b'"' ∷ []) ++ rest)
      opened = unfold parse_chars in ground arith

      closed :
          parse_chars
            (at true true command args
              (word ++ map char_of ms)
              (full_of command (full_of command full (b'"' ∷ [])) (marks_text ms)))
            (b'"' ∷ rest)
          ≡ parse_chars
              (at false true command args
                (word ++ map char_of ms)
                (full_of command full (part_text (quoted ms))))
              rest
      closed =
          unfold parse_chars in
          ground (
            arith,
            append_assoc (full ++ b'"' ∷ []) (marks_text ms) (b'"' ∷ []),
            append_assoc full (b'"' ∷ []) (marks_text ms ++ b'"' ∷ []),
          )

  parse-part :
      (had : Bool) (p : Part) (word full rest : Str)
      → PartOk p
      → parse_chars (at false had command args word full) (part_text p ++ rest)
        ≡ parse_chars
            (at false
              (is_quoted p || had)
              command
              args
              (word ++ part_value p)
              (full_of command full (part_text p)))
            rest
  parse-part had (bare m) word full rest h = parse-mark had command args false m word full rest h
  parse-part had (quoted ms) word full rest h = parse-quoted had ms word full rest h

  pub parse-word :
      (ps : List Part) (had : Bool) (word full rest : Str)
      → All PartOk ps
      → parse_chars (at false had command args word full) (word_text ps ++ rest)
        ≡ parse_chars
            (at false
              (has_quotes ps || had)
              command
              args
              (word ++ word_value ps)
              (full_of command full (word_text ps)))
            rest
  parse-word [] had word full rest h = ground (arith, append-nil word, append-nil full)
  parse-word (p ∷ ps) had word full rest h = rw append_assoc (
      parse-part had p word full (word_text ps ++ rest) h.0
      ∙ parse-word ps (is_quoted p || had) (word ++ part_value p)
          (full_of command full (part_text p)) rest h.1
      ∙ rw (
        append_assoc word (part_value p) (word_value ps),
        full_of-append command full (part_text p) (word_text ps),
        or_swap (has_quotes ps) (is_quoted p) had,
      ))
