-- ===== src/Config/Safety.antt =====
-- `ConfigReader::read` as a whole (src/config.cpp): the options keep the blocks of the section, and
-- what dotconf can call never makes the reader die.
use dazeus_core.Base.{
  ◌≡◌, refl, true, false, List, [], ◌∷◌, ◌++◌, Option, none, some, is_empty, Bool-cases, inl, inr,
  All,
}
use dazeus_core.Text.{Str, lit}
use dazeus_core.External.{Utils}
use dazeus_core.Run.{Gives, gives, Gives-bind}
use dazeus_core.Config.{
  Section, s_root, s_socket, s_database, s_network, s_server, s_plugin, ConfigReaderState, Cmd,
  Defaults,
}
use dazeus_core.Config.Options.{option}
use dazeus_core.Config.Reading.{
  Callback, opens, closes, sets, error_handler, call, after_call, command_loop,
}
use dazeus_core.Config.Sections.{
  Blocks, IsConsistent, After, in_socket, in_database, in_network, in_server, in_plugin,
  value_of-Gives, asserted-Gives, sect_open-Gives, sect_close-Gives, takes_name,
}
use dazeus_core.Config.Filled.{
  complained, option_root-Gives, option_socket-Gives, option_database-Gives, option_network-Gives,
  option_server-Gives, option_plugin-Gives,
}

module _ (u : Utils) (s : ConfigReaderState) (cmd : Cmd) where
  option-Gives :
      (here : Section)
      → s.current_section ≡ here
      → Blocks here s
      → Gives After (option u here s cmd)
  unfolding option in_socket in_database in_network in_server in_plugin
  option-Gives s_root at c = option_root-Gives u s cmd at c
  option-Gives s_socket at c =
      Gives-bind (value_of-Gives s.socket_progress c.socket)
        (λ b _. option_socket-Gives u s cmd b at c)
  option-Gives s_database at c =
      Gives-bind (value_of-Gives s.database_progress (c.database refl))
        (λ b _. option_database-Gives u s cmd b at c)
  option-Gives s_network at c =
      Gives-bind (asserted-Gives s.network_progress c.network)
        (λ b _. option_network-Gives u s cmd b at c)
  option-Gives s_server at c =
      Gives-bind (asserted-Gives s.server_progress c.server)
        (λ b _. option_server-Gives u s cmd b at c)
  option-Gives s_plugin at c =
      Gives-bind (value_of-Gives s.plugin_progress c.plugin)
        (λ b _. option_plugin-Gives u s cmd b at c)

-- dotconf gives the argument of `<network` and `<plugin` as one word at least, the closing bracket
-- included. The other blocks take no argument.
abbrev pub IsTagged : Callback → Type 0
IsTagged (opens cmd) = takes_name cmd ≡ true → is_empty cmd.str ≡ false
IsTagged _ = Unit

module _ (u : Utils) (d : Defaults) where
  call-Gives :
      (s : ConfigReaderState) (c : Callback)
      → IsTagged c
      → IsConsistent s
      → Gives After (call u d s c)
  unfolding call
  call-Gives s (opens cmd) tagged b = sect_open-Gives d s cmd tagged s.current_section refl b
  call-Gives s (closes cmd) tagged b = sect_close-Gives s cmd s.current_section refl b
  call-Gives s (sets cmd) tagged b = option-Gives u s cmd s.current_section refl b

  after_call-IsConsistent :
      (r : ConfigReaderState × Option Str) → IsConsistent r.0 → IsConsistent (after_call u d r)
  unfolding after_call error_handler
  after_call-IsConsistent (s, none) b = b
  after_call-IsConsistent (s, some msg) b = elim (Bool-cases (is_empty s.error)) [
    | inl e ↦ simp e (complained s refl b msg)
    | inr e ↦ simp e (complained s refl b (s.error ++ (lit "\n" ++ msg)))
  ]

  -- Whatever calls dotconf makes, if it gives an argument for each `<network` and `<plugin`, no callback
  -- dies, and at each moment the blocks that the reader holds are the ones of the section it is in.
  pub command_loop-Gives :
      (s : ConfigReaderState) (calls : List Callback)
      → All IsTagged calls
      → IsConsistent s
      → Gives IsConsistent (command_loop u d s calls)
  unfolding command_loop
  command_loop-Gives s [] tagged b = gives b
  command_loop-Gives s (c ∷ cs) tagged b =
      Gives-bind (call-Gives s c tagged.0 b)
        (λ r k. command_loop-Gives (after_call u d r) cs tagged.1 (after_call-IsConsistent r k))
