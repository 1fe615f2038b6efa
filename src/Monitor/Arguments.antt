-- ===== src/Monitor/Arguments.antt =====
-- The split of `config.parameters` into arguments in `PluginMonitor::start_plugin`
-- (src/pluginmonitor.cpp).
use dazeus_core.Base.{
  ℕ, Bool, true, false, not, ◌&&◌, ◌||◌, List, [], ◌∷◌, ◌++◌, leb, ◌==◌, if◌then◌else◌, is_empty,
}
use dazeus_core.Text.{Str}
use dazeus_core.Run.{Run, done, ◌>>=◌}

pub record Arguments : Type 0 where
  pub arguments : List Str
  pub current_arg : Str
  pub in_quotes : Bool
  pub in_doublequotes : Bool
  pub in_escape : Bool

abbrev pub start : Arguments
start = record {
  arguments = [];
  current_arg = [];
  in_quotes = false;
  in_doublequotes = false;
  in_escape = false;
}

-- `isspace(c)`
unfoldable is_space : ℕ → Bool
is_space c = c == b' ' || (leb 9 c && leb c 13)

unfoldable pub add_text : Arguments → Str → Arguments
add_text a text = record a { current_arg = a.current_arg ++ text }

unfoldable push_arg : Arguments → Arguments
push_arg a = record a { arguments = a.arguments ++ a.current_arg ∷ []; current_arg = [] }

-- `if(current_arg.length() > 0) { arguments.push_back(current_arg); … }`
unfoldable push_nonempty : Arguments → Arguments
unfolding push_arg
push_nonempty a = if is_empty a.current_arg then a else push_arg a

-- a character inside quotes
unfoldable read_quoted : Arguments → ℕ → Arguments
unfolding push_arg add_text
read_quoted a c =
    if a.in_quotes && c == b'\'' || a.in_doublequotes && c == b'"'
    then push_arg (record a { in_quotes = false; in_doublequotes = false })
    else add_text a (c ∷ [])

-- a character other than a percent sign that begins an escape
unfoldable pub read_char : Arguments → ℕ → Arguments
unfolding add_text read_quoted push_nonempty is_space
read_char a c =
    if a.in_escape
    then record (add_text a (c ∷ [])) { in_escape = false }
    else if a.in_quotes || a.in_doublequotes
    then read_quoted a c
    else if c == b'\''
    then record a { in_quotes = true }
    else if c == b'"'
    then record a { in_doublequotes = true }
    else if is_space c
    then push_nonempty a
    else add_text a (c ∷ [])

-- whether the branch `c == '%'` is reached
unfoldable pub at_percent : Arguments → ℕ → Bool
at_percent a c = not a.in_escape && not (a.in_quotes || a.in_doublequotes) && c == b'%'

-- the loop over `i`; `%s` and `%n` take two characters
unfoldable pub split : Run Str → Str → Arguments → Str → Run Arguments
unfolding at_percent read_char add_text
split socket network a [] = done a
split socket network a (c ∷ []) = done (read_char a c)
split socket network a (c ∷ d ∷ rest) =
    let with_socket = socket >>= λ text. split socket network (add_text a text) rest in
    let with_network = split socket network (add_text a network) rest in
    let plain = split socket network (read_char a c) (d ∷ rest) in
    if at_percent a c
    then (if d == b's' then with_socket else if d == b'n' then with_network else plain)
    else plain

unfoldable pub parse_arguments : Run Str → Str → Str → Run (List Str)
unfolding split push_nonempty
parse_arguments socket network parameters =
    split socket network start parameters >>= λ a. done (push_nonempty a).arguments
