-- ===== src/Monitor/Reload/Follows.antt =====
-- After `configReloaded` the map of the plugins follows the configuration.
use dazeus_core.Base.{
  ◌≡◌, refl, sym, ap, subst, ◌∙◌, ◌⊎◌, inl, inr, Bool, true, false, ◌||◌, List, [], ◌∷◌, Option,
  none, some, arith, ltb, is_empty, All, Bool-cases,
}
use dazeus_core.Text.{Str, str_eq, str_eq_iff}
use dazeus_core.Map
use dazeus_core.External.{member, Distinct, Utils, UtilsLaws}
use dazeus_core.Run.{
  Run, Death, ◌>>=◌, Gives, gives, Ends, EndsWith, returned, EndsWith-bind, EndsWith-mono,
}
use dazeus_core.Settings.{PluginConfig, NetworkConfig}
use dazeus_core.Monitor.{PluginState, Host, Monitor}
use dazeus_core.Monitor.Reload.{
  Registry, mark, Pass, Signal, Reloaded, reloaded, refused, clean_up, config_reloaded,
}
use dazeus_core.Monitor.Reload.Register.{
  Plan, wanted, names, planned, by_plan, Registers, Named, register_all-Registers, find-Registers,
  seen-Registers, member-planned, Registers-Distinct, Registers-refused,
}
use dazeus_core.Monitor.Reload.Kept.{KeptAt, absent, present, Unlucky, Keeps-trans, run_once-Keeps}
use dazeus_core.Monitor.Reload.Signals.{kill_plugins-Yields}

-- What the loop that marks plugins makes of one of them.
data Marked (seen : Bool) : Option PluginState → Option PluginState → Type 0 where
  nothing : Marked seen none none
  unmarked : {s : PluginState} → seen ≡ true → Marked seen (some s) (some s)
  off :
      {s t : PluginState}
      → seen ≡ false
      → t.will_autostart ≡ false
      → t.pid ≡ s.pid
      → Marked seen (some s) (some t)

module _ (u : Utils) (laws : UtilsLaws u) (seen : List Str) where
  Marked-cons :
      (name : Str) {s t : PluginState} (ss ts : List (Str × PluginState)) (j : Str)
      → Marked (member name seen) (some s) (some t)
      → Marked (member j seen) (Map.find j ss) (Map.find j ts)
      → Marked (member j seen) (Map.find j ((name, s) ∷ ss)) (Map.find j ((name, t) ∷ ts))
  unfolding Map.find
  Marked-cons name {s} {t} ss ts j k l = elim (Bool-cases (str_eq name j)) [
    | inl same ↦
        rw same
          (subst (λ n. Marked (member n seen) (some s) (some t)) ((str_eq_iff name j).0 same) k)
    | inr other ↦ rw other l
  ]

  mark-Marked :
      (ss : List (Str × PluginState)) (j : Str)
      → Marked (member j seen) (Map.find j ss) (Map.find j (mark u seen ss).0)
  unfolding mark Map.find
  mark-Marked [] j = nothing
  mark-Marked ((name, s) ∷ rest) j = elim (Bool-cases (u.contains seen name)) [
    | inl again ↦ simp again (
        Marked-cons name rest (mark u seen rest).0 j
          (unmarked (sym (laws.contains_lem seen name) ∙ again)) (mark-Marked rest j))
    | inr fresh ↦ elim (Bool-cases (ltb 0 s.pid || s.will_autostart)) [
      | inl active ↦
          simp (fresh, active)
            (Marked-cons name rest (mark u seen rest).0 j
              (off (sym (laws.contains_lem seen name) ∙ fresh) refl refl) (mark-Marked rest j))
      | inr idle ↦
          simp (fresh, idle)
            (Marked-cons name rest (mark u seen rest).0 j
              (off (sym (laws.contains_lem seen name) ∙ fresh) (ground arith) refl)
              (mark-Marked rest j))
    ]
  ]

  -- no name that was seen is to be killed
  mark-unseen :
      (ss : List (Str × PluginState)) → All (λ name. member name seen ≡ false) (mark u seen ss).1
  unfolding mark
  mark-unseen [] = tt
  mark-unseen ((name, s) ∷ rest) = elim (Bool-cases (u.contains seen name)) [
    | inl again ↦ simp again (mark-unseen rest)
    | inr fresh ↦ elim (Bool-cases (ltb 0 s.pid || s.will_autostart)) [
      | inl active ↦
          simp (fresh, active) (sym (laws.contains_lem seen name) ∙ fresh, mark-unseen rest)
      | inr idle ↦ simp (fresh, idle) (mark-unseen rest)
    ]
  ]

-- What stands under a name after a reload, by its plan and by what stood there.
pub data Follows : Option Plan → Option PluginState → Option PluginState → Type 0 where
  not_there : Follows none none none
  switched_off :
      {s t : PluginState}
      → t.will_autostart ≡ false
      → (t.pid ≡ s.pid) ⊎ (t.pid ≡ 0)
      → Follows none (some s) (some t)
  newly_planned :
      {p : Plan} {t : PluginState}
      → t.config ≡ p.config
      → t.will_autostart ≡ true
      → t.network ≡ p.network
      → Follows (some p) none (some t)
  planned_again :
      {p : Plan} {s t : PluginState}
      → t.config ≡ p.config
      → t.will_autostart ≡ true
      → t.network ≡ s.network
      → Follows (some p) (some s) (some t)

some_inj : {s t : PluginState} → some s ≡ some t → s ≡ t
some_inj e = cc

-- through the loop over the plugins, the marking, and what comes after it
Follows-steps :
    (seen : Bool) (plan : Option Plan) (old entered marked kept : Option PluginState)
    → seen ≡ elim plan [ none ↦ false | some p ↦ true ]
    → entered ≡ by_plan plan old
    → Marked seen entered marked
    → KeptAt marked kept
    → Follows plan old kept
Follows-steps seen none none entered marked kept e f nothing absent = not_there
Follows-steps seen none none entered marked kept e f (unmarked again) k = absurd (ground arith)
Follows-steps seen none none entered marked kept e f (off fresh o p) k = absurd (ground arith)
Follows-steps seen none (some s) entered marked kept e f nothing k = absurd (ground arith)
Follows-steps seen none (some s) entered marked kept e f (unmarked again) k = absurd (ground arith)
Follows-steps seen none (some s) entered marked kept e f (off fresh o p) (present k) =
    switched_off (k.autostart_kept ∙ o)
      (ground (arith, k.not_started o, p, ap (λ x. x.pid) (some_inj f)))
Follows-steps seen (some p) none entered marked kept e f nothing k = absurd (ground arith)
Follows-steps seen (some p) none entered marked kept e f (off fresh o q) k = absurd (ground arith)
Follows-steps seen (some p) none entered marked kept e f (unmarked again) (present k) =
    newly_planned (k.config_kept ∙ ap (λ x. x.config) (some_inj f))
      (k.autostart_kept ∙ ap (λ x. x.will_autostart) (some_inj f))
      (k.network_kept ∙ ap (λ x. x.network) (some_inj f))
Follows-steps seen (some p) (some s) entered marked kept e f nothing k = absurd (ground arith)
Follows-steps seen (some p) (some s) entered marked kept e f (off fresh o q) k =
    absurd (ground arith)
Follows-steps seen (some p) (some s) entered marked kept e f (unmarked again) (present k) =
    planned_again (k.config_kept ∙ ap (λ x. x.config) (some_inj f))
      (k.autostart_kept ∙ ap (λ x. x.will_autostart) (some_inj f))
      (k.network_kept ∙ ap (λ x. x.network) (some_inj f))

module _ (u : Utils) (laws : UtilsLaws u) (h : Host) (socket_ends : Ends h.socket)
    (networks : List NetworkConfig) (named : Named networks) (plugins : List PluginConfig)
    (plugins_named : All (λ p. is_empty p.name ≡ false) plugins) (soft hard last : Pass) where
  -- how a reload may end, from the map `old`
  pub data Reloads (old : List (Str × PluginState)) : Reloaded → Type 0 where
    followed :
        {m : Monitor} {sent : List Signal}
        → Distinct (names (wanted networks plugins))
        → ((j : Str)
            → Follows (planned j (wanted networks plugins)) (Map.find j old) (Map.find j m.states))
        → Reloads old (reloaded m sent)
    kept_out :
        {m : Monitor} {why : Str}
        → ¬ Distinct (names (wanted networks plugins))
        → Reloads old (refused m why)

  -- how a reload may be cut off: in a `runOnce`, when no name came twice
  abbrev pub CutOff : Death → Type 0
  CutOff d = Distinct (names (wanted networks plugins)) × Unlucky h d

  clean_up-Reloads :
      (m : Monitor) (q : Registry × Option Str)
      → Registers (record { seen = []; states = m.states }) (wanted networks plugins) q
      → EndsWith (Reloads m.states) CutOff (clean_up u h soft hard last m q)
  unfolding clean_up
  clean_up-Reloads m (r, some why) g = returned (kept_out (Registers-refused g))
  clean_up-Reloads m (r, none) g =
      let marked = (mark u r.seen r.states).0 in
      let kills = (mark u r.seen r.states).1 in
      let cut : (d : Death) → Unlucky h d → CutOff d = λ d x. (Registers-Distinct g tt, x) in
      EndsWith-bind
        (EndsWith-mono
          (kill_plugins-Yields h socket_ends soft hard kills
            (record { states = marked; should_run = m.should_run; forks = m.forks }))
          (λ q k. k) cut)
        λ q k.
          EndsWith-bind
            (EndsWith-mono
              (run_once-Keeps h socket_ends last.now last.children
                (record { states = q.0.states; should_run = true; forks = q.0.forks }))
              (λ m' l. l) cut)
            λ m' l. returned (
              followed (Registers-Distinct g tt) λ j.
                Follows-steps (member j r.seen) (planned j (wanted networks plugins))
                  (Map.find j m.states) (Map.find j r.states) (Map.find j marked)
                  (Map.find j m'.states)
                  (ap (member j) (seen-Registers g) ∙ member-planned j (wanted networks plugins))
                  (find-Registers g j) (mark-Marked u laws r.seen r.states j)
                  (Keeps-trans marked k.0.states m'.states k.3
                    (Keeps-trans k.0.states q.0.states m'.states k.4 l) j))

  -- With a name for every plugin and network, there are three ways in which a reload may end. It
  -- comes to its end, with a map that follows the configuration: each wanted plugin stands in it with
  -- its new settings and is to be started, and every other plugin is off and gets no new process. Or
  -- it throws because two wanted plugins have the same name. Or a `runOnce` inside of it is cut off by
  -- an overflown wait, or by an exception of the plugin socket, which passes through the reload. The
  -- first and the third come only where no two wanted plugins have the same name.
  pub config_reloaded_lem :
      (m : Monitor)
      → EndsWith (Reloads m.states) CutOff (config_reloaded u h networks plugins soft hard last m)
  unfolding config_reloaded
  config_reloaded_lem m = by_registry (
      register_all-Registers u laws networks named plugins plugins_named
        (record { seen = []; states = m.states }))
    where
      by_registry :
          {r : Run (Registry × Option Str)}
          → Gives (Registers (record { seen = []; states = m.states }) (wanted networks plugins)) r
          → EndsWith (Reloads m.states) CutOff (r >>= clean_up u h soft hard last m)
      by_registry (gives g) = clean_up-Reloads m _ g
