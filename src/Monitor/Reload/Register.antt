-- ===== src/Monitor/Reload/Register.antt =====
-- The loop of `configReloaded` over the plugins, against the list of the plugins that are wanted.
use dazeus_core.Base.{
  ◌≡◌, refl, sym, ◌∙◌, ◌⊎◌, inl, inr, Bool, true, false, List, [], ◌∷◌, ◌++◌, append_assoc,
  append-nil, ap, subst, Option, none, some, arith, if◌then◌else◌, is_empty, All,
}
use dazeus_core.Text.{Str, str_eq, str_eq_iff, str_eq_self, lit}
use dazeus_core.Map
use dazeus_core.External.{
  member, member-append, Distinct-concat, Distinct-append, Distinct, Utils, UtilsLaws,
}
use dazeus_core.Run.{done, Gives, gives, Gives-bind, Gives-if, Gives-mono}
use dazeus_core.Settings.{PluginConfig, NetworkConfig}
use dazeus_core.Monitor.{PluginState}
use dazeus_core.Monitor.Reload.{
  new_plugin_state, Registry, Reply, next, enter, register, state_name, register_networks,
  register_plugin, register_all,
}

-- A plugin to run: its settings, its name in the map, and its network, if it has one.
pub record Plan : Type 0 where
  pub config : PluginConfig
  pub name : Str
  pub network : Str

abbrev pub on_networks : PluginConfig → List NetworkConfig → List Plan
on_networks config [] = []
on_networks config (n ∷ ns) =
    record { config = config; name = state_name config n; network = n.name } ∷ on_networks config ns

-- the plans of a configuration, in its order
abbrev pub wanted : List NetworkConfig → List PluginConfig → List Plan
wanted networks [] = []
wanted networks (p ∷ ps) =
    (if p.per_network
      then on_networks p networks
      else record { config = p; name = p.name; network = [] } ∷ [])
    ++ wanted networks ps

abbrev pub names : List Plan → List Str
names [] = []
names (p ∷ ps) = p.name ∷ names ps

abbrev pub planned : Str → List Plan → Option Plan
planned j [] = none
planned j (p ∷ ps) = if str_eq p.name j then some p else planned j ps

-- what becomes of the plugin of a plan
abbrev pub carried_out : Plan → Option PluginState → PluginState
carried_out p none = record {
  config = p.config;
  will_autostart = true;
  pid = 0;
  network = p.network;
  num_failures = 0;
  last_start = 0;
}
carried_out p (some s) = record s { num_failures = 0; will_autostart = true; config = p.config }

-- what stands under a name, by what stood there and by the plan for the name
abbrev pub by_plan : Option Plan → Option PluginState → Option PluginState
by_plan none old = old
by_plan (some p) old = some (carried_out p old)

-- One plan after the other, until a name comes again.
pub data Registers : Registry → List Plan → Registry × Option Str → Type 0 where
  complete : {r : Registry} → Registers r [] (r, none)
  entered :
      {r : Registry} (t : Registry) {p : Plan} {ps : List Plan} {q : Registry × Option Str}
      → member p.name r.seen ≡ false
      → t.seen ≡ r.seen ++ p.name ∷ []
      → ((j : Str)
          → Map.find j t.states ≡ (
              if str_eq p.name j
              then some (carried_out p (Map.find p.name r.states))
              else Map.find j r.states))
      → Registers t ps q
      → Registers r (p ∷ ps) q
  multiple :
      {r : Registry} {p : Plan} {ps : List Plan}
      → member p.name r.seen ≡ true
      → Registers r (p ∷ ps) (r, some (lit "Multiple plugins exist with name " ++ p.name))

Registers-next :
    {r : Registry} {ps qs : List Plan} {q : Registry × Option Str} (k : Registry → Reply)
    → Registers r ps q
    → ((t : Registry) → Gives (Registers t qs) (k t))
    → Gives (Registers r (ps ++ qs)) (next q k)
Registers-next k complete h = h _
Registers-next k (entered t fresh at_end found rest) h =
    Gives-mono (Registers-next k rest h) (λ q. entered t fresh at_end found)
Registers-next k (multiple again) h = gives (multiple again)

abbrev pub Named : List NetworkConfig → Type 0
Named networks = All (λ n. is_empty n.name ≡ false) networks

module _ (u : Utils) (laws : UtilsLaws u) where
  module _ (p : Plan) where
    -- the assertions of the constructor hold
    abbrev pub IsSound : Type 0
    IsSound =
        (p.config.per_network ≡ true) × (is_empty p.network ≡ false)
        ⊎ (p.config.per_network ≡ false) × (is_empty p.network ≡ true)

    new_plugin_state_lem : IsSound → new_plugin_state p.config p.network ≡ done (carried_out p none)
    unfolding new_plugin_state
    new_plugin_state_lem (inl h) = simp h.0 (simp h.1 refl)
    new_plugin_state_lem (inr h) = simp h.0 (simp h.1 refl)

    enter-Registers :
        IsSound
        → (r : Registry) (o : Option PluginState) → member p.name r.seen ≡ false
        → Map.find p.name r.states ≡ o
        → Gives
            (Registers r (p ∷ []))
            (enter p.config p.name p.network (record r { seen = r.seen ++ p.name ∷ [] }) o)
    unfolding enter
    enter-Registers sound r none fresh e = rw (new_plugin_state_lem sound) (
        gives (
          entered _ fresh refl
            (λ j. rw (e, Map.find-assign p.name j (carried_out p none) r.states) refl) complete))
    enter-Registers sound r (some s) fresh e = gives (
        entered _ fresh refl
          (λ j. rw (e, Map.find-assign p.name j (carried_out p (some s)) r.states) refl) complete)

    register-Registers :
        IsSound
        → (r : Registry) → Gives (Registers r (p ∷ [])) (register u p.config p.name p.network r)
    unfolding register
    register-Registers sound r =
        Gives-if (u.contains r.seen p.name)
          (λ again. gives (multiple (sym (laws.contains_lem r.seen p.name) ∙ again)))
          λ fresh. enter-Registers sound r _ (sym (laws.contains_lem r.seen p.name) ∙ fresh) refl

  module _ (config : PluginConfig) (per_network : config.per_network ≡ true) where
    register_networks-Registers :
        (ns : List NetworkConfig)
        → Named ns
        → (r : Registry)
        → Gives (Registers r (on_networks config ns)) (register_networks u config ns r)
    unfolding register_networks
    register_networks-Registers [] h r = gives complete
    register_networks-Registers (n ∷ ns) h r =
        Gives-bind
          (register-Registers
            (record { config = config; name = state_name config n; network = n.name })
            (inl (per_network, h.0)) r)
          λ q g.
            Registers-next (register_networks u config ns) g (register_networks-Registers ns h.1)

  module _ (networks : List NetworkConfig) (named : Named networks) where
    register_plugin-Registers :
        (p : PluginConfig)
        → is_empty p.name ≡ false
        → (b : Bool) → p.per_network ≡ b
        → (r : Registry)
        → Gives
            (Registers r (
              if b
              then on_networks p networks
              else record { config = p; name = p.name; network = [] } ∷ []))
            (register_plugin u networks p r)
    unfolding register_plugin
    register_plugin-Registers p h true e r =
        simp h (simp e (register_networks-Registers p e networks named r))
    register_plugin-Registers p h false e r = simp h (
        simp e (
          register-Registers (record { config = p; name = p.name; network = [] }) (inr (e, refl))
            r))

    -- With a name for every plugin and every network, the loop over the plugins follows the list of
    -- the wanted plugins: no assertion fails.
    pub register_all-Registers :
        (plugins : List PluginConfig)
        → All (λ p. is_empty p.name ≡ false) plugins
        → (r : Registry)
        → Gives (Registers r (wanted networks plugins)) (register_all u networks plugins r)
    unfolding register_all
    register_all-Registers [] h r = gives complete
    register_all-Registers (p ∷ ps) h r =
        Gives-bind (register_plugin-Registers p h.0 p.per_network refl r)
          λ q g. Registers-next (register_all u networks ps) g (register_all-Registers ps h.1)

-- a name that was seen has no plan that is still carried out
seen-planned :
    {r t : Registry} {ps : List Plan}
    → Registers r ps (t, none)
    → (j : Str) → member j r.seen ≡ true
    → planned j ps ≡ none
seen-planned complete j h = refl
seen-planned {r} (entered t {p} {ps} fresh at_end found rest) j h = ground (
  arith,
  str_eq_iff p.name j,
  member-append j r.seen (p.name ∷ []),
  seen-planned rest j (ap (member j) at_end ∙ ground (arith, member-append j r.seen (p.name ∷ []))),
)

-- After a loop without an exception each name has what its plan says, and what it had if there is no
-- plan for it.
pub find-Registers :
    {r t : Registry} {ps : List Plan}
    → Registers r ps (t, none)
    → (j : Str) → Map.find j t.states ≡ by_plan (planned j ps) (Map.find j r.states)
find-Registers complete j = refl
find-Registers {r} (entered t {p} {ps} fresh at_end found rest) j = ground (
  arith,
  str_eq_iff p.name j,
  found j,
  find-Registers rest j,
  member-append j r.seen (p.name ∷ []),
  str_eq_self j,
  seen-planned rest j,
)

pub seen-Registers :
    {r t : Registry} {ps : List Plan} → Registers r ps (t, none) → t.seen ≡ r.seen ++ names ps
seen-Registers complete = sym (append-nil _)
seen-Registers {r} (entered t {p} {ps} fresh at_end found rest) =
    seen-Registers rest
    ∙ ap (λ x. x ++ names ps) at_end
    ∙ append_assoc r.seen (p.name ∷ []) (names ps)

pub member-planned :
    (j : Str) (ps : List Plan)
    → member j (names ps) ≡ elim (planned j ps) [ none ↦ false | some p ↦ true ]
member-planned j [] = refl
member-planned j (p ∷ ps) =
    ground (arith, str_eq_iff p.name j, str_eq_iff j p.name, member-planned j ps)

pub Registers-Distinct :
    {r t : Registry} {ps : List Plan}
    → Registers r ps (t, none)
    → Distinct r.seen
    → Distinct (r.seen ++ names ps)
Registers-Distinct {r} complete d = subst Distinct (sym (append-nil r.seen)) d
Registers-Distinct {r} (entered t {p} {ps} fresh at_end found rest) d =
    subst Distinct (ap (λ x. x ++ names ps) at_end ∙ append_assoc r.seen (p.name ∷ []) (names ps)) (
      Registers-Distinct rest (subst Distinct (sym at_end) (Distinct-concat r.seen p.name d fresh)))

pub Registers-refused :
    {r t : Registry} {ps : List Plan} {why : Str}
    → Registers r ps (t, some why)
    → ¬ Distinct (r.seen ++ names ps)
Registers-refused {r} (entered t {p} {ps} fresh at_end found rest) d = Registers-refused rest (
    subst Distinct
      (sym (ap (λ x. x ++ names ps) at_end ∙ append_assoc r.seen (p.name ∷ []) (names ps))) d)
Registers-refused {r} (multiple {p} {ps} again) d =
    ground (arith, Distinct-append p.name r.seen (names ps) d)
