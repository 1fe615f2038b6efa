-- ===== src/Config/Ending.antt =====
-- How `ConfigReader::read` ends (src/config.cpp): with the settings, with an exception, or at the
-- assertions behind the command loop.
use dazeus_core.Base.{
  ◌≡◌, refl, Bool, true, false, not, ◌||◌, List, Option, none, some, arith, is_empty, All,
}
use dazeus_core.External.{Utils}
use dazeus_core.Run.{Run, done, dies, assert_failed, Gives, gives, Gives-done, Gives-if}
use dazeus_core.Settings.{DatabaseConfig}
use dazeus_core.Config.{Section, ConfigReaderState, Defaults, initial, is_some}
use dazeus_core.Config.Reading.{Callback, command_loop, finish, finish_blocks, read}
use dazeus_core.Config.Sections.{
  IsConsistent, Any, in_socket, in_database, in_network, in_server, in_plugin,
}
use dazeus_core.Config.Safety.{IsTagged, command_loop-Gives}

-- a section whose block is taken out when it closes: all but the root and the database
unfoldable pub is_pending : Section → Bool
unfolding in_socket in_network in_server in_plugin
is_pending x = in_socket x || in_network x || in_server x || in_plugin x

start : IsConsistent initial
unfolding initial in_socket in_database in_network in_server in_plugin is_some
start = record {
  socket = refl;
  database = λ h. ground arith;
  network = refl;
  server = refl;
  plugin = refl;
}

consistent :
    {m : Run ConfigReaderState} {s : ConfigReaderState}
    → Gives IsConsistent m
    → m ≡ done s
    → IsConsistent s
consistent g e = Gives-done (rw e at g)

module _ (u : Utils) (d : Defaults) where
  finish_blocks-dies :
      (s : ConfigReaderState) (o : Option DatabaseConfig)
      → IsConsistent s
      → is_some o ≡ true
      → is_pending s.current_section ≡ true
      → finish_blocks s o ≡ dies assert_failed
  unfolding finish_blocks is_pending is_some
  finish_blocks-dies s none b has p = ground arith
  finish_blocks-dies s (some db) b has p =
      rw b.socket (rw b.network (rw b.server (rw b.plugin (rw p refl))))

  finish_blocks-Gives :
      (s : ConfigReaderState) (o : Option DatabaseConfig)
      → IsConsistent s
      → is_pending s.current_section ≡ false
      → Gives Any (finish_blocks s o)
  unfolding finish_blocks is_pending is_some
  finish_blocks-Gives s none b p = gives tt
  finish_blocks-Gives s (some db) b p =
      rw b.socket (rw b.network (rw b.server (rw b.plugin (rw p (gives tt)))))

  -- If dotconf gives an argument for each `<network` and `<plugin`, `read` aborts at its assertions when
  -- dotconf has no error to tell, a database block was given, and the file ends inside a socket, a
  -- network, a server or a plugin block.
  pub read-dies :
      (calls : List Callback) (s : ConfigReaderState)
      → All IsTagged calls
      → command_loop u d initial calls ≡ done s
      → is_empty s.error ≡ true
      → is_some s.database_progress ≡ true
      → is_pending s.current_section ≡ true
      → read u d true true calls ≡ dies assert_failed
  unfolding read finish
  read-dies calls s tagged run fine has pending = rw run (
      rw fine (
        finish_blocks-dies s s.database_progress
          (consistent (command_loop-Gives u d initial calls tagged start) run) has pending))

  -- If dotconf gives an argument for each `<network` and `<plugin`, `read` returns, with the settings or
  -- an exception, for every file that ends outside those blocks.
  pub read-Gives :
      (created loop_ok : Bool) (calls : List Callback) (s : ConfigReaderState)
      → All IsTagged calls
      → command_loop u d initial calls ≡ done s
      → is_pending s.current_section ≡ false
      → Gives Any (read u d created loop_ok calls)
  unfolding read finish
  read-Gives created loop_ok calls s tagged run closed =
      Gives-if (not created) (λ _. gives tt)
        (λ _. rw run (
          Gives-if (not loop_ok || not (is_empty s.error)) (λ _. gives tt)
            (λ _.
              finish_blocks-Gives s s.database_progress
                (consistent (command_loop-Gives u d initial calls tagged start) run) closed)))
