-- ===== src/Dazeus/Networks.antt =====
-- The networks after a configuration was loaded.
use dazeus_core.Base.{
  ℕ, ◌+◌, ◌≤◌, ◌<◌, ◌≡◌, refl, sym, ap, ◌∙◌, Bool, true, false, ◌||◌, List, [], ◌∷◌, Option, none,
  some, arith, if◌then◌else◌, inl, inr, ◌⊎◌, Bool-cases,
}
use dazeus_core.Text.{Str, str_eq, str_eq_iff}
use dazeus_core.Map
use dazeus_core.Settings.{NetworkConfig}
use dazeus_core.Dazeus.{
  DaZeus, is_configured, split_gone, add_network, update_network, update_networks, drop_gone,
}

-- The network under a name: one that is not configured is not there; one that was there is the same
-- object; and one that was not is a new object.
pub data Network (first last : ℕ) : Bool → Option ℕ → Option ℕ → Type 0 where
  dropped : {old : Option ℕ} → Network first last false old none
  stayed : {net : ℕ} → Network first last true (some net) (some net)
  made : {net : ℕ} → first ≤ net → net < last → Network first last true none (some net)

-- the same before the networks that are not configured are dropped
data Updated (first last : ℕ) : Bool → Option ℕ → Option ℕ → Type 0 where
  untouched : {old : Option ℕ} → Updated first last false old old
  there : {net : ℕ} {b : Bool} → Updated first last b (some net) (some net)
  added : {net : ℕ} → first ≤ net → net < last → Updated first last true none (some net)

Updated-trans :
    {a b c : ℕ} {p q : Bool} {x y z : Option ℕ}
    → a ≤ b
    → b ≤ c
    → Updated a b p x y
    → Updated b c q y z
    → Updated a c (p || q) x z
Updated-trans h k untouched untouched = untouched
Updated-trans h k untouched there = there
Updated-trans h k untouched (added l u) = added (omega arith) u
Updated-trans h k there untouched = there
Updated-trans h k there there = there
Updated-trans h k (added l u) untouched = added l (omega arith)
Updated-trans h k (added l u) there = added l (omega arith)

split_gone-find :
    (ncs : List NetworkConfig) (m : List (Str × ℕ)) (j : Str)
    → Map.find j (split_gone ncs m).0 ≡ (if is_configured j ncs then Map.find j m else none)
unfolding split_gone Map.find
split_gone-find ncs [] j = ground arith
split_gone-find ncs ((name, net) ∷ rest) j = elim (Bool-cases (is_configured name ncs)) [
  | inl stays ↦ rw stays (ground (arith, split_gone-find ncs rest j, str_eq_iff name j))
  | inr goes ↦ rw goes (ground (arith, split_gone-find ncs rest j, str_eq_iff name j))
]

-- along equations
pub Network-cast :
    {a b c d : ℕ} {e : Bool} {x y z v : Option ℕ}
    → c ≡ a
    → d ≡ b
    → z ≡ x
    → v ≡ y
    → Network a b e x y
    → Network c d e z v
Network-cast h k l m n = rw (h, k, l, m) n

module _ {D : Type 0} where
  -- what the networks do not touch
  pub record Same (s t : DaZeus D) : Type 0 where
    pub same_database : t.database ≡ s.database
    pub same_plugins : t.plugins ≡ s.plugins
    pub same_monitor : t.plugin_monitor ≡ s.plugin_monitor
    pub same_settings : t.settings ≡ s.settings

  Same-self : (s : DaZeus D) → Same s s
  Same-self s = record {
    same_database = refl;
    same_plugins = refl;
    same_monitor = refl;
    same_settings = refl;
  }

module _ {D : Type 0} (auto : NetworkConfig → Bool) where
  abbrev Becomes : Bool → Str → DaZeus D → DaZeus D → Type 0
  Becomes b j s t =
      Updated s.next_network t.next_network b (Map.find j s.networks) (Map.find j t.networks)
      × (s.next_network ≤ t.next_network)

  add_network-Becomes :
      (nc : NetworkConfig) (s : DaZeus D) (j : Str)
      → Map.find nc.name s.networks ≡ none
      → Becomes (str_eq nc.name j) j s (add_network auto nc s)
  unfolding add_network
  add_network-Becomes nc s j absent = elim (Bool-cases (auto nc)) [
    | inl connects ↦ simp connects (entry (Bool-cases (str_eq nc.name j)))
    | inr idle ↦ simp idle (entry (Bool-cases (str_eq nc.name j)))
  ]
    where
      entry :
          (str_eq nc.name j ≡ true) ⊎ (str_eq nc.name j ≡ false)
          → Updated s.next_network
              (s.next_network + 1)
              (str_eq nc.name j)
              (Map.find j s.networks)
              (Map.find j (Map.assign nc.name s.next_network s.networks))
            × (s.next_network ≤ s.next_network + 1)
      entry (inl same) =
          rw
            (
              Map.find-assign nc.name j s.next_network s.networks,
              same,
              ap (λ k. Map.find k s.networks) (sym ((str_eq_iff nc.name j).0 same)) ∙ absent,
            )
            (added (omega arith) (omega arith), omega arith)
      entry (inr other) =
          rw (Map.find-assign nc.name j s.next_network s.networks, other) (untouched, omega arith)

  update_network-Becomes :
      (nc : NetworkConfig) (s : DaZeus D) (j : Str) (o : Option ℕ)
      → Map.find nc.name s.networks ≡ o
      → Becomes (str_eq nc.name j) j s (update_network auto nc o s)
  unfolding update_network
  update_network-Becomes nc s j none e = add_network-Becomes nc s j e
  update_network-Becomes nc s j (some net) e = elim (Bool-cases (str_eq nc.name j)) [
    | inl same ↦
        rw (ap (λ k. Map.find k s.networks) (sym ((str_eq_iff nc.name j).0 same)) ∙ e)
          (there, omega arith)
    | inr other ↦ rw other (untouched, omega arith)
  ]

  update_networks-Becomes :
      (ncs : List NetworkConfig) (s : DaZeus D) (j : Str)
      → Becomes (is_configured j ncs) j s (update_networks auto ncs s)
  unfolding update_networks is_configured
  update_networks-Becomes [] s j = (untouched, omega arith)
  update_networks-Becomes (nc ∷ ncs) s j =
      let first = update_network-Becomes nc s j (Map.find nc.name s.networks) refl in
      let then_rest =
        update_networks-Becomes ncs (update_network auto nc (Map.find nc.name s.networks) s) j in
      (Updated-trans first.1 then_rest.1 first.0 then_rest.0, omega arith)

  -- After the networks were updated and the ones that are gone were dropped, exactly the configured
  -- names have a network: the one that they had, or one that was made for them.
  pub drop_gone-Network :
      (ncs : List NetworkConfig) (s : DaZeus D) (j : Str)
      → let t = drop_gone ncs (update_networks auto ncs s) in
        Network s.next_network t.next_network
          (is_configured j ncs)
          (Map.find j s.networks)
          (Map.find j t.networks)
  unfolding drop_gone
  drop_gone-Network ncs s j =
      rw (split_gone-find ncs (update_networks auto ncs s).networks j)
        (settle (is_configured j ncs) (update_networks-Becomes ncs s j).0)
    where
      settle :
          {a b : ℕ} {x y : Option ℕ} (c : Bool)
          → Updated a b c x y
          → Network a b c x (if c then y else none)
      settle false u = dropped
      settle true there = stayed
      settle true (added l u) = made l u

  update_network-Same :
      (nc : NetworkConfig) (o : Option ℕ) (s : DaZeus D) → Same s (update_network auto nc o s)
  unfolding update_network add_network
  update_network-Same nc (some net) s = record {
    same_database = refl;
    same_plugins = refl;
    same_monitor = refl;
    same_settings = refl;
  }
  update_network-Same nc none s = elim (Bool-cases (auto nc)) [
    | inl connects ↦ simp connects record {
      same_database = refl;
      same_plugins = refl;
      same_monitor = refl;
      same_settings = refl;
    }
    | inr idle ↦ simp idle record {
      same_database = refl;
      same_plugins = refl;
      same_monitor = refl;
      same_settings = refl;
    }
  ]

  update_networks-Same :
      (ncs : List NetworkConfig) (s : DaZeus D) → Same s (update_networks auto ncs s)
  unfolding update_networks
  update_networks-Same [] s = Same-self s
  update_networks-Same (nc ∷ ncs) s =
      let t = update_network auto nc (Map.find nc.name s.networks) s in
      let first = update_network-Same nc (Map.find nc.name s.networks) s in
      let rest = update_networks-Same ncs t in
      record {
        same_database = rest.same_database ∙ first.same_database;
        same_plugins = rest.same_plugins ∙ first.same_plugins;
        same_monitor = rest.same_monitor ∙ first.same_monitor;
        same_settings = rest.same_settings ∙ first.same_settings;
      }

  pub drop_gone-Same :
      (ncs : List NetworkConfig) (s : DaZeus D)
      → Same s (drop_gone ncs (update_networks auto ncs s))
  unfolding drop_gone
  drop_gone-Same ncs s =
      let k = update_networks-Same ncs s in
      record {
        same_database = k.same_database;
        same_plugins = k.same_plugins;
        same_monitor = k.same_monitor;
        same_settings = k.same_settings;
      }
