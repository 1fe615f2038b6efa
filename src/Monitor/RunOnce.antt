-- ===== src/Monitor/RunOnce.antt =====
-- What one `runOnce` does to the plugins.
use dazeus_core.Base.{
  ◌⊎◌, ◌&&◌, ℕ, ◌+◌, ◌≤◌, ◌<◌, ◌≡◌, refl, Bool, true, false, not, ◌||◌, List, [], ◌∷◌, Option, none,
  some, arith, ltb, ◌==◌, inl, inr, Bool-cases, All, ltb→lt, ==_iff,
}
use dazeus_core.Text.{Str}
use dazeus_core.Run.{
  Run, Death, undefined_behaviour, done, dies, Yields, Ends, EndsWith, returned, died,
  EndsWith-bind, EndsWith-if, EndsWith-mono, EndsWith-self, EndsWith-Yields, Ends-EndsWith,
}
use dazeus_core.Settings.{PluginConfig}
use dazeus_core.Monitor.{
  PluginState, Host, Monitor, plugin_failed, forked, launch, start_plugin, ChildStatus, reap_all,
  wait_seconds, visit, consider, start_all, run_once, path_of, executable_of, full_executable_of,
}
use dazeus_core.Monitor.Arguments.{
  parse_arguments, Arguments, split, at_percent, read_char, add_text, start,
}

-- the checks before the fork
abbrev pub is_startable : Host → PluginConfig → Bool
is_startable h config =
    let path = path_of h config in
    let full_executable = full_executable_of path (executable_of config) in
    h.directory_exists path && h.file_exists full_executable && h.executable_exists full_executable

-- The fork for a plugin, after some number of forks, gives `o`: its path, its arguments and its
-- executable are passed on.
abbrev pub ForkGives : Host → PluginState → Option ℕ → Type 0
ForkGives h s o =
    (forks : ℕ) × (arguments : List Str) × (parse_arguments h.socket s.network s.config.parameters
      ≡ done arguments)
    × (h.fork forks (path_of h s.config) arguments (executable_of s.config) ≡ o)

-- What may become of a plugin in the loop that starts plugins, and whether it waits after it.
pub data Considered (h : Host) (now : ℕ) (s : PluginState) : PluginState → Bool → Type 0 where
  disabled : s.will_autostart ≡ false → Considered h now s s false
  running : (s.pid == 0) ≡ false → Considered h now s s false
  too_early :
      (w : ℕ)
      → s.will_autostart ≡ true
      → s.pid ≡ 0
      → wait_seconds s.num_failures ≡ some w
      → now < s.last_start + w
      → Considered h now s s true
  started :
      (w pid : ℕ)
      → s.will_autostart ≡ true
      → s.pid ≡ 0
      → wait_seconds s.num_failures ≡ some w
      → s.last_start + w ≤ now
      → is_startable h s.config ≡ true
      → ForkGives h s (some pid)
      → Considered h now s (record s { last_start = now; pid = pid }) false
  failed :
      (w : ℕ)
      → s.will_autostart ≡ true
      → s.pid ≡ 0
      → wait_seconds s.num_failures ≡ some w
      → s.last_start + w ≤ now
      → (is_startable h s.config ≡ false) ⊎ ForkGives h s none
      → Considered h now s (record s { last_start = now; num_failures = s.num_failures + 1 }) true

-- a plugin that is to be started, and whose wait is no `int`
abbrev pub IsOverflown : PluginState → Type 0
IsOverflown s = (s.will_autostart ≡ true) × (s.pid ≡ 0) × (wait_seconds s.num_failures ≡ none)

-- one of the plugins is
pub data HasOverflown : List (Str × PluginState) → Type 0 where
  at_head :
      {name : Str} {s : PluginState} {ss : List (Str × PluginState)}
      → IsOverflown s
      → HasOverflown ((name, s) ∷ ss)
  behind :
      {name : Str} {s : PluginState} {ss : List (Str × PluginState)}
      → HasOverflown ss
      → HasOverflown ((name, s) ∷ ss)

-- Why the process may die: a wait that overflows, or `getPluginSocket().toString()`, where there is
-- no socket or one of an unknown kind.
pub data Fatal (h : Host) (overflown : Type 0) : Death → Type 0 where
  overflow : overflown → Fatal h overflown undefined_behaviour
  no_socket : {d : Death} → h.socket ≡ dies d → Fatal h overflown d

pub Fatal-map : {h : Host} {a b : Type 0} (f : a → b) (d : Death) → Fatal h a d → Fatal h b d
Fatal-map f d (overflow x) = overflow (f x)
Fatal-map f d (no_socket e) = no_socket e

module _ (h : Host) (now : ℕ) where
  abbrev Became : PluginState → PluginState × Bool × ℕ → Type 0
  Became s r = Considered h now s r.0 r.1

  module _ (s : PluginState) (w : ℕ) (auto : s.will_autostart ≡ true) (stopped : s.pid ≡ 0)
      (waited : wait_seconds s.num_failures ≡ some w) (ripe : s.last_start + w ≤ now) (forks : ℕ)
      (arguments : List Str)
      (parsed : parse_arguments h.socket s.network s.config.parameters ≡ done arguments) where
    forked-Considered :
        (o : Option ℕ)
        → is_startable h s.config ≡ true
        → h.fork forks (path_of h s.config) arguments (executable_of s.config) ≡ o
        → Considered h now s
            (forked (record s { last_start = now }) o).0
            (not (forked (record s { last_start = now }) o).1)
    unfolding forked plugin_failed
    forked-Considered none ok e =
        failed w auto stopped waited ripe (inr (forks, arguments, parsed, e))
    forked-Considered (some pid) ok e =
        started w pid auto stopped waited ripe ok (forks, arguments, parsed, e)

    launch-Considered :
        let r = launch h forks arguments (record s { last_start = now }) in
        Considered h now s r.0 (not r.1)
    unfolding launch
    launch-Considered =
        let path = path_of h s.config in
        let executable = executable_of s.config in
        elim (Bool-cases (h.directory_exists path)) [
          | inr gone ↦ rw gone (failed w auto stopped waited ripe (inl (rw gone refl)))
          | inl dir ↦
              rw dir (elim (Bool-cases (h.file_exists (full_executable_of path executable))) [
                | inr gone ↦ rw gone (failed w auto stopped waited ripe (inl (rw (dir, gone) refl)))
                | inl file ↦
                    rw file
                      (elim (Bool-cases
                        (h.executable_exists (full_executable_of path executable))) [
                          | inr barred ↦ rw barred (
                              failed w auto stopped waited ripe (inl (rw (dir, file, barred) refl)))
                          | inl allowed ↦ rw allowed (
                              forked-Considered (h.fork forks path arguments executable)
                                (rw (dir, file, allowed) refl) refl)
                        ])
              ])
        ]

  module _ (socket_ends : Ends h.socket) where
    abbrev BySocket : Death → Type 0
    BySocket d = h.socket ≡ dies d

    -- splitting the parameters never loops, and dies only where the socket is asked for
    split-EndsWith :
        (network text : Str) (a : Arguments)
        → EndsWith (λ b. Unit {0}) BySocket (split h.socket network a text)
    unfolding split
    split-EndsWith network [] a = returned tt
    split-EndsWith network (c ∷ []) a = returned tt
    split-EndsWith network (c ∷ d ∷ rest) a = elim (Bool-cases (at_percent a c)) [
      | inr other ↦ rw other (split-EndsWith network (d ∷ rest) (read_char a c))
      | inl percent ↦ rw percent (elim (Bool-cases (d == b's')) [
        | inl s ↦ rw s (
            EndsWith-bind (Ends-EndsWith h.socket socket_ends)
              (λ t _. split-EndsWith network rest (add_text a t)))
        | inr not_s ↦ rw not_s (elim (Bool-cases (d == b'n')) [
          | inl n ↦ rw n (split-EndsWith network rest (add_text a network))
          | inr not_n ↦ rw not_n (split-EndsWith network (d ∷ rest) (read_char a c))
        ])
      ])
    ]

    parse_arguments-EndsWith :
        (network text : Str)
        → EndsWith (λ b. Unit {0}) BySocket (parse_arguments h.socket network text)
    unfolding parse_arguments
    parse_arguments-EndsWith network text =
        EndsWith-bind (split-EndsWith network text start) (λ a _. returned tt)

    visit-Considered :
        (s : PluginState) (forks : ℕ) (o : Option ℕ)
        → s.will_autostart ≡ true
        → s.pid ≡ 0
        → wait_seconds s.num_failures ≡ o
        → EndsWith (Became s) (Fatal h (IsOverflown s)) (visit h now forks s o)
    unfolding visit start_plugin
    visit-Considered s forks none auto stopped e = died (overflow (auto, stopped, e))
    visit-Considered s forks (some w) auto stopped e =
        elim (Bool-cases (ltb now (s.last_start + w))) [
          | inl early ↦ rw early (returned (too_early w auto stopped e (ltb→lt _ _ early)))
          | inr late ↦ rw late (
              EndsWith-bind {P = λ (r : PluginState × Bool × ℕ). Considered h now s r.0 (not r.1)}
                (EndsWith-bind
                  (EndsWith-mono
                    (EndsWith-self (parse_arguments-EndsWith s.network s.config.parameters))
                    (λ arguments p. p) (λ d p. no_socket p))
                  (λ arguments parsed.
                    returned
                      (launch-Considered s w auto stopped e (ground arith) forks arguments parsed)))
                (λ r k. returned k))
        ]

    consider-Considered :
        (s : PluginState) (forks : ℕ)
        → EndsWith (Became s) (Fatal h (IsOverflown s)) (consider h now forks s)
    unfolding consider
    consider-Considered s forks =
        EndsWith-if (not s.will_autostart) (λ off. returned (disabled (ground arith)))
          λ on.
            EndsWith-if (not (s.pid == 0)) (λ busy. returned (running (ground arith)))
              (λ stopped.
                visit-Considered s forks (wait_seconds s.num_failures) (ground arith)
                  ((==_iff s.pid 0).0 (ground arith)) refl)

-- every plugin in turn; the last argument says whether one of them waits
pub data Visited (h : Host) (now : ℕ)
    : List (Str × PluginState) → List (Str × PluginState) → Bool → Type 0 where
  none_left : Visited h now [] [] false
  one :
      {ss ts : List (Str × PluginState)} {s t : PluginState} {a b c : Bool} (name : Str)
      → Considered h now s t a
      → Visited h now ss ts b
      → c ≡ (a || b)
      → Visited h now ((name, s) ∷ ss) ((name, t) ∷ ts) c

module _ (h : Host) (now : ℕ) (socket_ends : Ends h.socket) where
  start_all-Visited :
      (ss : List (Str × PluginState)) (forks : ℕ)
      → EndsWith
          (λ r. Visited h now ss r.0 r.1)
          (Fatal h (HasOverflown ss))
          (start_all h now forks ss)
  unfolding start_all
  start_all-Visited [] forks = returned none_left
  start_all-Visited ((name, s) ∷ ss) forks =
      EndsWith-bind
        (EndsWith-mono (consider-Considered h now socket_ends s forks) (λ r k. k)
          (Fatal-map at_head))
        λ r k.
          EndsWith-bind (EndsWith-mono (start_all-Visited ss r.2) (λ q v. v) (Fatal-map behind))
            (λ q v. returned (one name k v refl))

  pub run_once_lem :
      (children : List (ℕ × ChildStatus)) (m : Monitor)
      → m.should_run ≡ true
      → EndsWith
          (λ m'. Visited h now (reap_all now children m.states) m'.states m'.should_run)
          (Fatal h (HasOverflown (reap_all now children m.states)))
          (run_once h now children m)
  unfolding run_once
  run_once_lem children m on = simp on (
      EndsWith-bind (start_all-Visited (reap_all now children m.states) m.forks)
        (λ r v. returned v))

  -- what is so of a plugin that need not be looked at again
  abbrev pub IsSettled : PluginState → Type 0
  IsSettled s = (s.will_autostart ≡ true) → (s.pid == 0) ≡ false

  module _
      (live : (k p : ℕ) (path executable : Str) (arguments : List Str)
        → h.fork k path arguments executable ≡ some p
        → (p == 0) ≡ false) where
    Considered-IsSettled :
        {s t : PluginState} {a : Bool} → Considered h now s t a → a ≡ false → IsSettled t
    Considered-IsSettled (disabled off) e on = cc
    Considered-IsSettled (running busy) e on = busy
    Considered-IsSettled (too_early w auto stopped waited early) e on = cc
    Considered-IsSettled {s} (started w pid auto stopped waited ripe ok (forks, arguments, p, f)) e
          on =
        live forks pid (path_of h s.config) (executable_of s.config) arguments f
    Considered-IsSettled (failed w auto stopped waited ripe why) e on = cc

    Visited-IsSettled :
        {ss ts : List (Str × PluginState)} {w : Bool}
        → Visited h now ss ts w
        → w ≡ false
        → All (λ p. IsSettled p.1) ts
    Visited-IsSettled none_left e = tt
    Visited-IsSettled (one name k v c) e =
        (Considered-IsSettled k (ground arith), Visited-IsSettled v (ground arith))

    IsSettled-after :
        (children : List (ℕ × ChildStatus)) (m m' : Monitor) (r : Run Monitor)
        → Yields (λ n. Visited h now (reap_all now children m.states) n.states n.should_run) r
        → r ≡ done m'
        → m'.should_run ≡ false
        → All (λ p. IsSettled p.1) m'.states
    IsSettled-after children m m' r v e off = Visited-IsSettled (rw e at v) off

    -- When `runOnce` does not ask to be run again, every plugin that is to be started runs, if a fork
    -- gives the parent no pid 0.
    pub run_once-IsSettled :
        (children : List (ℕ × ChildStatus)) (m m' : Monitor)
        → m.should_run ≡ true
        → run_once h now children m ≡ done m'
        → m'.should_run ≡ false
        → All (λ p. IsSettled p.1) m'.states
    run_once-IsSettled children m m' on e off =
        IsSettled-after children m m' (run_once h now children m)
          (EndsWith-Yields (run_once_lem children m on)) e off
