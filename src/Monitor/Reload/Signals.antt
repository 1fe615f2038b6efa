-- ===== src/Monitor/Reload/Signals.antt =====
-- `kill_plugins`: whom it sends a signal, and what it leaves of the map.
use dazeus_core.Base.{
  ℕ, ◌≡◌, refl, sym, ap, Bool, true, false, List, [], ◌∷◌, ◌++◌, Option, none, some, ◌==◌, inl, inr,
  Bool-cases, if◌then◌else◌, is_empty,
}
use dazeus_core.Text.{Str}
use dazeus_core.Map
use dazeus_core.Run.{
  done, Ends, ◌>>=◌, EndsWith, returned, EndsWith-bind, EndsWith-self, EndsWith-both,
}
use dazeus_core.Monitor.{PluginState, Host, Monitor}
use dazeus_core.Monitor.Reload.{
  Pass, Signal, sigint, sigkill, stop_plugin, stop_running, stop_all, rest_and_run, kill_round,
  kill_plugins,
}
use dazeus_core.Monitor.Reload.Kept.{Keeps, Keeps-self, Unlucky, rest_and_run-Keeps}

-- the processes of the plugins of a list that run
abbrev running : Option PluginState → List ℕ
running none = []
running (some s) = if s.pid == 0 then [] else s.pid ∷ []

abbrev pub targets : List Str → List (Str × PluginState) → List ℕ
targets [] ss = []
targets (name ∷ names) ss = running (Map.find name ss) ++ targets names ss

abbrev signals : Bool → List ℕ → List Signal
signals hard [] = []
signals hard (pid ∷ pids) = (if hard then sigkill pid else sigint pid) ∷ signals hard pids

signals-append :
    (hard : Bool) (ps qs : List ℕ) → signals hard (ps ++ qs) ≡ signals hard ps ++ signals hard qs
signals-append hard [] qs = refl
signals-append hard (p ∷ ps) qs = rw (signals-append hard ps qs)

stop_running_lem :
    (hard : Bool) (o : Option PluginState) → stop_running hard o ≡ done (signals hard (running o))
unfolding stop_running stop_plugin
stop_running_lem hard none = refl
stop_running_lem hard (some s) = elim (Bool-cases (s.pid == 0)) [
  | inl stopped ↦ rw stopped refl
  | inr runs ↦ rw runs refl
]

-- the assertion of `stop_plugin` does not fail
stop_all_lem :
    (hard : Bool) (names : List Str) (ss : List (Str × PluginState))
    → stop_all hard names ss ≡ done (signals hard (targets names ss))
unfolding stop_all
stop_all_lem hard [] ss = refl
stop_all_lem hard (name ∷ names) ss =
    rw (stop_running_lem hard (Map.find name ss), stop_all_lem hard names ss)
      (ap done (sym (signals-append hard (running (Map.find name ss)) (targets names ss))))

module _ (h : Host) (socket_ends : Ends h.socket) where
  -- the monitor after a round that sent signals to `pids`: `sleep(2)` and `runOnce`, if there were any
  abbrev pub RanAfter : Pass → List ℕ → Monitor → Monitor → Type 0
  RanAfter pass [] m m' = m' ≡ m
  RanAfter pass (pid ∷ pids) m m' = rest_and_run h pass m ≡ done m'

  abbrev pub AfterRound : Bool → Pass → List Str → Monitor → Monitor × List Signal → Type 0
  AfterRound hard pass names m r =
      RanAfter pass (targets names m.states) m r.0
      × Keeps m.states r.0.states
      × (r.1 ≡ signals hard (targets names m.states))

  kill_round-EndsWith :
      (hard : Bool) (pass : Pass) (names : List Str) (m : Monitor)
      → EndsWith (AfterRound hard pass names m) (Unlucky h) (kill_round h hard pass names m)
  unfolding kill_round
  kill_round-EndsWith hard pass names m =
      rw (stop_all_lem hard names m.states) (by_targets (targets names m.states) refl)
    where
      by_targets :
          (pids : List ℕ)
          → pids ≡ targets names m.states
          → EndsWith (AfterRound hard pass names m) (Unlucky h) (
              if is_empty (signals hard pids)
              then done (m, [])
              else rest_and_run h pass m >>= λ m'. done (m', signals hard pids))
      by_targets [] e = returned (rw (← e) (refl, Keeps-self m.states, refl))
      by_targets (p ∷ pids) e =
          EndsWith-bind
            (EndsWith-both (EndsWith-self (rest_and_run-Keeps h socket_ends pass m))
              (rest_and_run-Keeps h socket_ends pass m))
            (λ m' k. returned (rw (← e) (k.0, k.1, refl)))

  -- both rounds; `mid` is the monitor between them
  abbrev pub AfterKill : Pass → Pass → List Str → Monitor → Monitor × List Signal → Type 0
  AfterKill soft hard names m r =
      (mid : Monitor) × RanAfter soft (targets names m.states) m mid
      × RanAfter hard (targets names mid.states) mid r.0
      × Keeps m.states mid.states
      × Keeps mid.states r.0.states
      × (r.1 ≡ signals false (targets names m.states) ++ signals true (targets names mid.states))

  -- `kill_plugins` sends SIGINT to each plugin of the list that runs; if there is one, it rests and
  -- calls `runOnce`. Then it sends SIGKILL to each plugin of the list that runs in the map that this
  -- left, and if there is one, it rests and calls `runOnce` again. It changes no configuration, and it
  -- starts no plugin that is off. No assertion of `stop_plugin` fails: the process dies only in
  -- `runOnce`, of an overflown wait or of the plugin socket.
  pub kill_plugins-Yields :
      (soft hard : Pass) (names : List Str) (m : Monitor)
      → EndsWith (AfterKill soft hard names m) (Unlucky h) (kill_plugins h soft hard names m)
  unfolding kill_plugins
  kill_plugins-Yields soft hard names m =
      EndsWith-bind (kill_round-EndsWith false soft names m) λ r k.
        EndsWith-bind (kill_round-EndsWith true hard names r.0)
          (λ q l. returned (r.0, k.0, l.0, k.1, l.1, cc))
