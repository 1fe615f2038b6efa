-- ===== src/Requests/Success.antt =====
-- The field "success" of an answer tells how the request ended (src/plugincomm.cpp, `handle` and the
-- `try` around it).
use Prim.Native.String.{String}
use dazeus_core.Base.{
  ℕ, ◌≡◌, refl, ◌∙◌, Bool, true, false, not, ◌||◌, List, [], ◌∷◌, Option, none, some, arith,
  if◌then◌else◌, take,
}
use dazeus_core.Text.{Str, lit, is, str_eq, str_eq_self}
use dazeus_core.Run.{Death}
use dazeus_core.External.{Utils, Networks}
use dazeus_core.Json.{Json, json_true, Fields, Jansson, JanssonLaws}
use dazeus_core.Map
use dazeus_core.Requests.{
  Outcome, returns, throws, crashes, Bot, Request, Result, respond, respond_text, succeed, after,
}
use dazeus_core.Requests.Network.{
  list_networks, list_channels, ask_network, on_found_network, on_network, send_to, on_channel,
}
use dazeus_core.Requests.Handle.{is_network_action}

pub data Told (j : Jansson) : Fields → Type 0 where
  told : {fs : Fields} → j.object_get fs (lit "success") ≡ some json_true → Told j fs

-- a request that returned says so
pub data Reports {D : Type 0} (j : Jansson) : Result D → Type 0 where
  says : {r : Request D} → Told j r.response → Reports j (r, returns tt)
  thrown : {r : Request D} {why : Str} → Reports j (r, throws why)
  crashed : {r : Request D} {why : Death} → Reports j (r, crashes why)

pub Reports-if :
    {D : Type 0} {j : Jansson} {x y : Result D} (b : Bool)
    → (b ≡ true → Reports j x)
    → (b ≡ false → Reports j y)
    → Reports j (if b then x else y)
Reports-if true h k = h refl
Reports-if false h k = k refl

pub Reports-after :
    {D A : Type 0} {j : Jansson} (r : Request D) (m : D × Outcome A) (k : A → Request D → Result D)
    → ((a : A) (s : Request D) → Reports j (k a s))
    → Reports j (after r m k)
Reports-after r (db, returns a) k h = h a _
Reports-after r (db, throws why) k h = thrown
Reports-after r (db, crashes why) k h = crashed

module _ {j : Jansson} (laws : JanssonLaws j) where
  pub object_get-set_new :
      (fs : Fields) (k : Str) (v : Json) → j.object_get (j.set_new fs k (some v)) k ≡ some v
  object_get-set_new fs k v = laws.get-set fs k k v ∙ rw (str_eq_self k)

  pub object_get-set_other :
      (fs : Fields) (i k : Str) (o : Option Json)
      → str_eq i k ≡ false
      → j.object_get (j.set_new fs i o) k ≡ j.object_get fs k
  object_get-set_other fs i k none e = rw (laws.set_null fs i)
  object_get-set_other fs i k (some v) e = laws.get-set fs i k v ∙ rw e

module _ {D : Type 0} {j : Jansson} (laws : JanssonLaws j) where
  pub succeed-Told : (r : Request D) → Told j (succeed j r).response
  unfolding succeed respond
  succeed-Told r = told (object_get-set_new laws r.response (lit "success") json_true)

  pub respond-Told :
      (key : String) (o : Option Json) (r : Request D)
      → str_eq (lit key) (lit "success") ≡ false
      → Told j r.response
      → Told j (respond j key o r).response
  unfolding respond
  respond-Told key o r other (told t) =
      told (object_get-set_other laws r.response (lit key) (lit "success") o other ∙ t)

  pub respond_text-Told :
      (key : String) (text : Str) (r : Request D)
      → str_eq (lit key) (lit "success") ≡ false
      → Told j r.response
      → Told j (respond_text j key text r).response
  unfolding respond_text
  respond_text-Told key text r other t = respond-Told key _ r other t

module _ {D : Type 0} (j : Jansson) (laws : JanssonLaws j) (nets : Networks) (bot : Bot) where
  pub list_networks-Reports : (r : Request D) → Reports j (list_networks j nets bot r)
  unfolding list_networks lit str_eq
  list_networks-Reports r = says (respond-Told laws "networks" _ _ refl (succeed-Told laws _))

  list_channels-Reports : (n : ℕ) (r : Request D) → Reports j (list_channels j nets bot n r)
  unfolding list_channels lit str_eq
  list_channels-Reports n r = says (respond-Told laws "channels" _ _ refl (succeed-Told laws _))

  ask_network-Reports :
      (act : Str) (n : ℕ) (rest : List Str) (r : Request D)
      → Reports j (ask_network j nets bot act n rest r)
  unfolding ask_network
  ask_network-Reports act n [] r = thrown
  ask_network-Reports act n (p ∷ rest) r =
      Reports-if (is act "whois") (λ _. says (succeed-Told laws r))
        λ _.
          Reports-if (is act "join") (λ _. says (succeed-Told laws r))
            λ _.
              Reports-if (is act "part") (λ _. says (succeed-Told laws r))
                λ _. says (succeed-Told laws r)

  on_found_network-Reports :
      (act network : Str) (rest : List Str) (r : Request D) (o : Option ℕ)
      → is_network_action act ≡ true
      → Reports j (on_found_network j nets bot act network rest r o)
  unfolding on_found_network is_network_action lit str_eq
  on_found_network-Reports act network rest r none known = thrown
  on_found_network-Reports act network rest r (some n) known =
      Reports-if (is act "channels") (λ _. list_channels-Reports n _)
        λ e1.
          Reports-if (is act "whois" || is act "join" || is act "part")
            (λ _. ask_network-Reports act n rest _)
            λ e2.
              Reports-if (is act "nick")
                (λ _. says (respond_text-Told laws "nick" _ _ refl (succeed-Told laws _)))
                λ e3. elim (absurd e1 e2 e3) [ ]
    where
      absurd :
          is act "channels" ≡ false
          → (is act "whois" || is act "join" || is act "part") ≡ false
          → is act "nick" ≡ false
          → ⊥
      absurd e1 e2 e3 = ground arith

  pub on_network-Reports :
      (act : Str) (params : List Str) (r : Request D)
      → is_network_action act ≡ true
      → Reports j (on_network j nets bot act params r)
  unfolding on_network
  on_network-Reports act [] r known =
      on_found_network-Reports act [] [] _ (Map.find [] bot.networks) known
  on_network-Reports act (network ∷ rest) r known =
      on_found_network-Reports act network rest _ (Map.find network bot.networks) known

module _ {D : Type 0} (u : Utils) (j : Jansson) (laws : JanssonLaws j) (nets : Networks) where
  send_to-Reports :
      (act network receiver message : Str) (networks : List (Str × ℕ)) (r : Request D)
      → Reports j (send_to u j nets act network receiver message networks r)
  unfolding send_to
  send_to-Reports act network receiver message [] r = thrown
  send_to-Reports act network receiver message ((key, n) ∷ rest) r =
      Reports-if (str_eq (nets.network_name n) network)
        (λ _.
          Reports-if
            (not (is (take 1 receiver) "#")
              || u.contains_ci (nets.joined_channels n) (u.str_to_lower receiver))
            (λ _. says (succeed-Told laws r)) (λ _. thrown))
        (λ _. send_to-Reports act network receiver message rest r)

  pub on_channel-Reports :
      (networks : List (Str × ℕ)) (act : Str) (params : List Str) (r : Request D)
      → Reports j (on_channel u j nets networks act params r)
  unfolding on_channel
  on_channel-Reports networks act [] r = thrown
  on_channel-Reports networks act (network ∷ []) r = thrown
  on_channel-Reports networks act (network ∷ receiver ∷ []) r =
      Reports-if (is act "names") (λ _. send_to-Reports act network receiver [] networks _)
        (λ _. thrown)
  on_channel-Reports networks act (network ∷ receiver ∷ message ∷ more) r =
      Reports-if (is act "names") (λ _. send_to-Reports act network receiver [] networks _)
        (λ _. send_to-Reports act network receiver message networks _)
