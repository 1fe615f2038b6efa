-- ===== src/Monitor/Reload/Kept.antt =====
-- What `runOnce` and the killing of plugins leave as it is.
use dazeus_core.Base.{
  ℕ, ◌≡◌, refl, ◌∙◌, ◌⊎◌, inl, inr, Bool, true, false, List, [], ◌∷◌, Option, none, some, arith,
  ◌==◌, Bool-cases,
}
use dazeus_core.Text.{Str, str_eq}
use dazeus_core.Map
use dazeus_core.Run.{Death, Ends, EndsWith, returned, EndsWith-mono}
use dazeus_core.Monitor.{
  PluginState, Host, Monitor, ChildStatus, exited, signaled, neither, child_died, reap, reap_all,
  run_once,
}
use dazeus_core.Monitor.RunOnce.{
  Considered, disabled, running, too_early, started, failed, Visited, none_left, one, run_once_lem,
  Fatal, Fatal-map,
}
use dazeus_core.Monitor.Reload.{Pass, rest_and_run}

-- The configuration stays, and a plugin that is not to be started gets no new process.
pub record Kept (s t : PluginState) : Type 0 where
  pub config_kept : t.config ≡ s.config
  pub autostart_kept : t.will_autostart ≡ s.will_autostart
  pub network_kept : t.network ≡ s.network
  pub not_started : s.will_autostart ≡ false → (t.pid ≡ s.pid) ⊎ (t.pid ≡ 0)

Kept-self : (s : PluginState) → Kept s s
Kept-self s = record {
  config_kept = refl;
  autostart_kept = refl;
  network_kept = refl;
  not_started = λ off. inl refl;
}

Kept-trans : {s t v : PluginState} → Kept s t → Kept t v → Kept s v
Kept-trans k l = record {
  config_kept = l.config_kept ∙ k.config_kept;
  autostart_kept = l.autostart_kept ∙ k.autostart_kept;
  network_kept = l.network_kept ∙ k.network_kept;
  not_started = λ off.
      ground (arith, k.not_started off, l.not_started (k.autostart_kept ∙ off), k.autostart_kept);
}

-- under one name, before and after
pub data KeptAt : Option PluginState → Option PluginState → Type 0 where
  absent : KeptAt none none
  present : {s t : PluginState} → Kept s t → KeptAt (some s) (some t)

abbrev pub Keeps : List (Str × PluginState) → List (Str × PluginState) → Type 0
Keeps ss ts = (j : Str) → KeptAt (Map.find j ss) (Map.find j ts)

KeptAt-self : (o : Option PluginState) → KeptAt o o
KeptAt-self none = absent
KeptAt-self (some s) = present (Kept-self s)

pub Keeps-self : (ss : List (Str × PluginState)) → Keeps ss ss
Keeps-self ss j = KeptAt-self (Map.find j ss)

KeptAt-trans : {o p q : Option PluginState} → KeptAt o p → KeptAt p q → KeptAt o q
KeptAt-trans absent absent = absent
KeptAt-trans (present k) (present l) = present (Kept-trans k l)

pub Keeps-trans : (ss ts us : List (Str × PluginState)) → Keeps ss ts → Keeps ts us → Keeps ss us
Keeps-trans ss ts us k l j = KeptAt-trans (k j) (l j)

Keeps-cons :
    (name : Str) {s t : PluginState} (ss ts : List (Str × PluginState))
    → Kept s t
    → Keeps ss ts
    → Keeps ((name, s) ∷ ss) ((name, t) ∷ ts)
unfolding Map.find
Keeps-cons name ss ts k l j = elim (Bool-cases (str_eq name j)) [
  | inl same ↦ rw same (present k)
  | inr other ↦ rw other (l j)
]

died-Kept :
    (now : ℕ) (s : PluginState) (c : ChildStatus)
    → Kept s (elim c [ neither ↦ s | _ ↦ child_died now s ])
unfolding child_died
died-Kept now s exited = record {
  config_kept = refl;
  autostart_kept = refl;
  network_kept = refl;
  not_started = λ off. inr refl;
}
died-Kept now s signaled = record {
  config_kept = refl;
  autostart_kept = refl;
  network_kept = refl;
  not_started = λ off. inr refl;
}
died-Kept now s neither = Kept-self s

reap-Keeps :
    (now child : ℕ) (status : ChildStatus) (ss : List (Str × PluginState))
    → Keeps ss (reap now child status ss)
unfolding reap
reap-Keeps now child status [] = Keeps-self []
reap-Keeps now child status ((name, s) ∷ ss) = elim (Bool-cases (s.pid == child)) [
  | inl found ↦ simp found (Keeps-cons name ss ss (died-Kept now s status) (Keeps-self ss))
  | inr other ↦
      simp other (
        Keeps-cons name ss (reap now child status ss) (Kept-self s)
          (reap-Keeps now child status ss))
]

reap_all-Keeps :
    (now : ℕ) (children : List (ℕ × ChildStatus)) (ss : List (Str × PluginState))
    → Keeps ss (reap_all now children ss)
unfolding reap_all
reap_all-Keeps now [] ss = Keeps-self ss
reap_all-Keeps now ((child, status) ∷ children) ss =
    Keeps-trans ss (reap now child status ss) (reap_all now children (reap now child status ss))
      (reap-Keeps now child status ss) (reap_all-Keeps now children (reap now child status ss))

Considered-Kept :
    {h : Host} {now : ℕ} {s t : PluginState} {b : Bool} → Considered h now s t b → Kept s t
Considered-Kept {s} (disabled off) = Kept-self s
Considered-Kept {s} (running busy) = Kept-self s
Considered-Kept {s} (too_early w auto stopped waited early) = Kept-self s
Considered-Kept (started w pid auto stopped waited ripe ok f) = record {
  config_kept = refl;
  autostart_kept = refl;
  network_kept = refl;
  not_started = λ off. ground (arith, auto);
}
Considered-Kept (failed w auto stopped waited ripe why) = record {
  config_kept = refl;
  autostart_kept = refl;
  network_kept = refl;
  not_started = λ off. inl refl;
}

Visited-Keeps :
    {h : Host} {now : ℕ} {ss ts : List (Str × PluginState)} {w : Bool}
    → Visited h now ss ts w
    → Keeps ss ts
Visited-Keeps none_left = Keeps-self []
Visited-Keeps (one {ss} {ts} name k v c) =
    Keeps-cons name ss ts (Considered-Kept k) (Visited-Keeps v)

-- why a reload may die: an overflown wait, or the socket
abbrev pub Unlucky : Host → Death → Type 0
Unlucky h = Fatal h Unit

module _ (h : Host) (socket_ends : Ends h.socket) where
  pub run_once-Keeps :
      (now : ℕ) (children : List (ℕ × ChildStatus)) (m : Monitor)
      → EndsWith (λ m'. Keeps m.states m'.states) (Unlucky h) (run_once h now children m)
  unfolding run_once
  run_once-Keeps now children m = elim (Bool-cases m.should_run) [
    | inl on ↦
        EndsWith-mono (run_once_lem h now socket_ends children m on)
          (λ m' v.
            Keeps-trans m.states (reap_all now children m.states) m'.states
              (reap_all-Keeps now children m.states) (Visited-Keeps v))
          (Fatal-map (λ o. tt))
    | inr off ↦ simp off (returned (Keeps-self m.states))
  ]

  pub rest_and_run-Keeps :
      (pass : Pass) (m : Monitor)
      → EndsWith (λ m'. Keeps m.states m'.states) (Unlucky h) (rest_and_run h pass m)
  unfolding rest_and_run
  rest_and_run-Keeps pass m = elim (Bool-cases pass.signalled) [
    | inl on ↦ simp on (run_once-Keeps pass.now pass.children (record m { should_run = true }))
    | inr off ↦ simp off (run_once-Keeps pass.now pass.children m)
  ]
