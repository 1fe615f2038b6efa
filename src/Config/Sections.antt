-- ===== src/Config/Sections.antt =====
-- The section that the reader is in and the blocks it holds (src/config.cpp): no callback runs into
-- an assertion or reads an empty optional.
use dazeus_core.Base.{◌≡◌, refl, Bool, true, false, not, ◌||◌, Option, none, some, arith, is_empty}
use dazeus_core.Text.{Str, is}
use dazeus_core.Run.{Gives, gives, Gives-bind, Gives-if}
use dazeus_core.Config.{
  Section, s_root, s_socket, s_database, s_network, s_server, s_plugin, ConfigReaderState, Cmd,
  Defaults, is_some, without_last, open_network, open_plugin, open_root, open_in_network, sect_open,
  value_of, asserted, close_server, sect_close,
}

unfoldable pub in_socket : Section → Bool
in_socket s_socket = true
in_socket _ = false

unfoldable pub in_database : Section → Bool
in_database s_database = true
in_database _ = false

-- a server block stands in a network block
unfoldable pub in_network : Section → Bool
in_network s_network = true
in_network s_server = true
in_network _ = false

unfoldable pub in_server : Section → Bool
in_server s_server = true
in_server _ = false

unfoldable pub in_plugin : Section → Bool
in_plugin s_plugin = true
in_plugin _ = false

-- The blocks that are open are the ones of the section `here`. (The database block stays.)
pub record Blocks (here : Section) (s : ConfigReaderState) : Type 0 where
  pub socket : is_some s.socket_progress ≡ in_socket here
  pub database : in_database here ≡ true → is_some s.database_progress ≡ true
  pub network : is_some s.network_progress ≡ in_network here
  pub server : is_some s.server_progress ≡ in_server here
  pub plugin : is_some s.plugin_progress ≡ in_plugin here

abbrev pub IsConsistent : ConfigReaderState → Type 0
IsConsistent s = Blocks s.current_section s

abbrev pub After : ConfigReaderState × Option Str → Type 0
After r = IsConsistent r.0

abbrev pub Any {ℓ} : {A : Type ℓ} → A → Type 0
Any a = Unit

pub value_of-Gives {ℓ} : {A : Type ℓ} (o : Option A) → is_some o ≡ true → Gives Any (value_of o)
unfolding value_of is_some
value_of-Gives none h = ground arith
value_of-Gives (some a) h = gives tt

pub asserted-Gives {ℓ} : {A : Type ℓ} (o : Option A) → is_some o ≡ true → Gives Any (asserted o)
unfolding asserted is_some
asserted-Gives none h = ground arith
asserted-Gives (some a) h = gives tt

without_last-Gives : (s : Str) → is_empty s ≡ false → Gives Any (without_last s)
unfolding without_last
without_last-Gives s h = Gives-if (is_empty s) (λ e. ground arith) (λ _. gives tt)

module _ (s : ConfigReaderState) where
  pub shift : {here : Section} → s.current_section ≡ here → Blocks here s → IsConsistent s
  shift e b = simp e b

-- the blocks with a name behind the tag: ARG_STR in the table of the options
abbrev pub takes_name : Cmd → Bool
takes_name cmd = is cmd.name "<network" || is cmd.name "<plugin"

module _ (d : Defaults) (s : ConfigReaderState) (cmd : Cmd)
    (named : takes_name cmd ≡ true → is_empty cmd.str ≡ false) where
  open_root-Gives : s.current_section ≡ s_root → Blocks s_root s → Gives After (open_root d s cmd)
  unfolding open_root in_socket in_database in_network in_server in_plugin is_some open_network
      open_plugin
  open_root-Gives root c =
      Gives-if
        (is_some s.socket_progress || is_some s.network_progress || is_some s.server_progress)
        (λ e. elim (clash e) [ ])
        λ e0.
          Gives-if (is cmd.name "<socket>")
            (λ _. gives record {
              socket = refl;
              database = λ h. ground arith;
              network = c.network;
              server = c.server;
              plugin = c.plugin;
            })
            λ e1.
              Gives-if (is cmd.name "<database>")
                (λ _.
                  Gives-if (is_some s.database_progress) (λ _. gives (shift s root c))
                    (λ _. gives record {
                      socket = c.socket;
                      database = λ h. refl;
                      network = c.network;
                      server = c.server;
                      plugin = c.plugin;
                    }))
                λ e2.
                  Gives-if (is cmd.name "<network")
                    (λ e. Gives-bind (without_last-Gives cmd.str (named (ground arith))) (λ n _.
                      gives record {
                        socket = c.socket;
                        database = λ h. ground arith;
                        network = refl;
                        server = c.server;
                        plugin = c.plugin;
                      }))
                    λ e3.
                      Gives-if (is cmd.name "<plugin")
                        (λ e. Gives-bind (without_last-Gives cmd.str (named (ground arith))) (λ n _.
                          Gives-if (is_empty n) (λ _. gives (shift s root c))
                            (λ _. gives record {
                              socket = c.socket;
                              database = λ h. ground arith;
                              network = c.network;
                              server = c.server;
                              plugin = refl;
                            })))
                        λ e4. gives (shift s root c)
    where
      clash :
          (is_some s.socket_progress || is_some s.network_progress || is_some s.server_progress)
            ≡ true
          → ⊥
      clash e = ground arith

  open_in_network-Gives :
      s.current_section ≡ s_network → Blocks s_network s → Gives After (open_in_network d s cmd)
  unfolding open_in_network in_socket in_database in_network in_server in_plugin is_some
  open_in_network-Gives at c =
      Gives-if (not (is_some s.network_progress) || is_some s.server_progress)
        (λ e. elim (clash e) [ ])
        λ e0.
          Gives-if (is cmd.name "<server>")
            (λ _. gives (record {
              socket = c.socket;
              database = λ h. ground arith;
              network = c.network;
              server = refl;
              plugin = c.plugin;
            }))
            λ e1. gives (shift s at c)
    where
      clash : (not (is_some s.network_progress) || is_some s.server_progress) ≡ true → ⊥
      clash e = ground arith

  pub sect_open-Gives :
      (here : Section)
      → s.current_section ≡ here
      → Blocks here s
      → Gives After (sect_open d here s cmd)
  unfolding sect_open
  sect_open-Gives s_root at c = open_root-Gives at c
  sect_open-Gives s_network at c = open_in_network-Gives at c
  sect_open-Gives s_socket at c = gives (shift s at c)
  sect_open-Gives s_database at c = gives (shift s at c)
  sect_open-Gives s_server at c = gives (shift s at c)
  sect_open-Gives s_plugin at c = gives (shift s at c)

module _ (s : ConfigReaderState) (cmd : Cmd) where
  pub sect_close-Gives :
      (here : Section)
      → s.current_section ≡ here
      → Blocks here s
      → Gives After (sect_close here s cmd)
  unfolding sect_close in_socket in_database in_network in_server in_plugin is_some close_server
  sect_close-Gives s_root at c = gives (shift s at c)
  sect_close-Gives s_socket at c =
      Gives-if (is cmd.name "</socket>")
        (λ _. Gives-bind (value_of-Gives s.socket_progress c.socket) (λ sc _. gives (record {
          socket = refl;
          database = λ h. ground arith;
          network = c.network;
          server = c.server;
          plugin = c.plugin;
        })))
        (λ _. gives (shift s at c))
  sect_close-Gives s_database at c =
      Gives-if (is cmd.name "</database>")
        (λ _. gives (record {
          socket = c.socket;
          database = λ h. ground arith;
          network = c.network;
          server = c.server;
          plugin = c.plugin;
        }))
        (λ _. gives (shift s at c))
  sect_close-Gives s_network at c =
      Gives-if (is cmd.name "</network>")
        (λ _. Gives-bind (value_of-Gives s.network_progress c.network) (λ net _. gives (record {
          socket = c.socket;
          database = λ h. ground arith;
          network = refl;
          server = c.server;
          plugin = c.plugin;
        })))
        (λ _. gives (shift s at c))
  sect_close-Gives s_server at c =
      Gives-if (is cmd.name "</server>")
        (λ _. Gives-bind (value_of-Gives s.network_progress c.network) (λ net _.
          Gives-bind (value_of-Gives s.server_progress c.server) (λ server _. gives (record {
            socket = c.socket;
            database = λ h. ground arith;
            network = refl;
            server = refl;
            plugin = c.plugin;
          }))))
        (λ _. gives (shift s at c))
  sect_close-Gives s_plugin at c =
      Gives-if (is cmd.name "</plugin>")
        (λ _. Gives-bind (value_of-Gives s.plugin_progress c.plugin) (λ pc _. gives (record {
          socket = c.socket;
          database = λ h. ground arith;
          network = c.network;
          server = c.server;
          plugin = refl;
        })))
        (λ _. gives (shift s at c))
