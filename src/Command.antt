-- ===== src/Command.antt =====
-- The parser of a command line: the loop over the characters of `payload` in
-- `PluginComm::messageReceived` (src/plugincomm.cpp).
pub mod Written
pub mod Parts
pub mod Lines
use dazeus_core.Base.{
  Bool, true, false, not, ◌&&◌, ◌||◌, List, [], ◌∷◌, ◌++◌, ℕ, ◌==◌, if◌then◌else◌, is_empty,
}
use dazeus_core.Text.{Str}

-- the local variables of the loop
pub record Parser : Type 0 where
  pub in_quote_arg : Bool
  pub had_quotes_this_arg : Bool
  pub in_escape : Bool
  pub has_command : Bool
  pub args : List Str
  pub string_builder : Str
  pub full_args : Str

abbrev pub start : Parser
start = record {
  in_quote_arg = false;
  had_quotes_this_arg = false;
  in_escape = false;
  has_command = false;
  args = [];
  string_builder = [];
  full_args = [];
}

-- `if(stringBuilder.length() != 0 || hadQuotesThisArg) args.push_back(stringBuilder);`
unfoldable pub finish_arg : Parser → List Str
finish_arg p =
    if not (is_empty p.string_builder) || p.had_quotes_this_arg
    then p.args ++ p.string_builder ∷ []
    else p.args

-- `if(hasCommand) fullArgs += payload.at(i);`
unfoldable note_full_args : Parser → ℕ → Parser
note_full_args p c = if p.has_command then record p { full_args = p.full_args ++ c ∷ [] } else p

unfoldable pub read_char : Parser → ℕ → Parser
unfolding finish_arg
read_char p c =
    if p.in_escape
    then record p { in_escape = false; string_builder = p.string_builder ++ c ∷ [] }
    else if c == b'\\'
    then record p { in_escape = true }
    else if not p.in_quote_arg && c == b' '
    then record p {
      args = finish_arg p;
      string_builder = [];
      has_command = true;
      had_quotes_this_arg = false;
    }
    else if c == b'"'
    then record p { in_quote_arg = not p.in_quote_arg; had_quotes_this_arg = true }
    else record p { string_builder = p.string_builder ++ c ∷ [] }

-- one round of the loop
unfoldable pub parse_char : Parser → ℕ → Parser
unfolding read_char note_full_args
parse_char p c = read_char (note_full_args p c) c

unfoldable pub parse_chars : Parser → Str → Parser
unfolding parse_char
parse_chars p [] = p
parse_chars p (c ∷ cs) = parse_chars (parse_char p c) cs

-- the words of a payload: the command, if there is one, and its arguments
unfoldable pub parse_args : Str → List Str
unfolding parse_chars finish_arg
parse_args payload = finish_arg (parse_chars start payload)

-- `fullArgs` behind the loop
unfoldable pub parse_full_args : Str → Str
unfolding parse_chars
parse_full_args payload = (parse_chars start payload).full_args
