-- ===== src/Socket/Commands.antt =====
-- Subscriptions to commands, and when the sender has to be known.
use dazeus_core.Base.{
  ℕ, ◌≡◌, refl, Bool, true, false, ◌&&◌, ◌||◌, List, [], ◌∷◌, arith, if◌then◌else◌, Bool-cases, inl,
  inr,
}
use dazeus_core.Text.{Str, str_eq, str_lt}
use dazeus_core.Socket.{
  SocketInfo, RequirementInfo, requirement_met, is_subscribed_to_command, command_might_need_whois,
  insert_command, subscribe_to_command,
}

if_or : (a b : Bool) → (if a then true else b) ≡ (a || b)
if_or true b = refl
if_or false b = refl

or_pick : (a b c : Bool) → (if a then true else b || c) ≡ (b || (if a then true else c))
or_pick true true c = refl
or_pick true false c = refl
or_pick false b c = refl

module _ (cmd recv sender : Str) (network : ℕ) where
  insert_command_lem :
      (k : Str) (r : RequirementInfo) (identified : Bool) (m : List (Str × RequirementInfo))
      → is_subscribed_to_command (insert_command k r m) cmd recv sender identified network ≡ (
          str_eq k cmd && requirement_met r recv sender identified network
          || is_subscribed_to_command m cmd recv sender identified network)
  unfolding insert_command is_subscribed_to_command
  insert_command_lem k r identified [] =
      if_or (str_eq k cmd && requirement_met r recv sender identified network) false
  insert_command_lem k r identified ((j, q) ∷ m) =
      let new = str_eq k cmd && requirement_met r recv sender identified network in
      let head = str_eq j cmd && requirement_met q recv sender identified network in
      let rest = is_subscribed_to_command m cmd recv sender identified network in
      elim (Bool-cases (str_lt k j)) [
        | inl before ↦ rw before (if_or new (if head then true else rest))
        | inr behind ↦ rw (behind, insert_command_lem k r identified m) (or_pick head new rest)
      ]

  -- A subscription to a command adds the calls that it accepts, and takes none away.
  pub subscribe_to_command_lem :
      (info : SocketInfo) (k : Str) (r : RequirementInfo) (identified : Bool)
      → is_subscribed_to_command
          (subscribe_to_command info k r).commands
          cmd
          recv
          sender
          identified
          network
        ≡ (str_eq k cmd && requirement_met r recv sender identified network
            || is_subscribed_to_command info.commands cmd recv sender identified network)
  unfolding subscribe_to_command
  subscribe_to_command_lem info k r identified = insert_command_lem k r identified info.commands

  -- Where no whois is needed, it makes no difference whether the sender is identified.
  pub is_subscribed_to_command_blind :
      (m : List (Str × RequirementInfo)) (a b : Bool)
      → command_might_need_whois m cmd ≡ false
      → is_subscribed_to_command m cmd recv sender a network
        ≡ is_subscribed_to_command m cmd recv sender b network
  unfolding command_might_need_whois is_subscribed_to_command requirement_met
  is_subscribed_to_command_blind [] a b h = refl
  is_subscribed_to_command_blind ((k, r) ∷ m) a b h =
      ground (arith, is_subscribed_to_command_blind m a b)
