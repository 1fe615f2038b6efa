-- ===== src/Comm/Asked.antt =====
-- The commands that a flush of the queue leaves, and the whois that is under way for each of them
-- (src/plugincomm.cpp).
use dazeus_core.Base.{
  ℕ, ◌≡◌, refl, Bool, true, false, not, ◌&&◌, List, [], ◌∷◌, ◌++◌, arith, if◌then◌else◌, Bool-cases,
  inl, inr, All,
}
use dazeus_core.Text.{Str, str_eq}
use dazeus_core.External.{Networks, NetworkCall, send_whois}
use dazeus_core.Json.{Jansson}
use dazeus_core.Socket.{SocketInfo}
use dazeus_core.Comm.{Command, Comm, whois_required, flush_command_queue}
use dazeus_core.Comm.Flush.{is_held, held, whois_calls, flush_command_queue_lem}

-- where an element stands in a list
pub data Among {ℓ} {A : Type ℓ} (a : A) : List A → Type ℓ where
  at_front : {xs : List A} → Among a (a ∷ xs)
  behind : {x : A} {xs : List A} → Among a xs → Among a (x ∷ xs)

Among-left {ℓ} : {A : Type ℓ} {a : A} {xs : List A} (ys : List A) → Among a xs → Among a (xs ++ ys)
Among-left ys at_front = at_front
Among-left ys (behind m) = behind (Among-left ys m)

Among-right {ℓ} : {A : Type ℓ} {a : A} (xs : List A) {ys : List A} → Among a ys → Among a (xs ++ ys)
Among-right [] m = m
Among-right (x ∷ xs) m = behind (Among-right xs m)

All-map {ℓ κ μ} :
    {A : Type ℓ} {P : A → Type κ} {Q : A → Type μ} (xs : List A)
    → ((a : A) → P a → Q a)
    → All P xs
    → All Q xs
All-map [] f h = tt
All-map (x ∷ xs) f (p, h) = (f x p, All-map xs f h)

-- a whois for the sender of a command was sent
abbrev pub IsAsked : List NetworkCall → Command → Type 0
IsAsked calls c = Among (send_whois c.network c.origin) calls

abbrev pub marked : Command → Command
marked c = record c { whois_sent = true }

module _ (j : Jansson) (nets : Networks) (nick : Str) (identified : Bool) where
  -- a command that is left
  abbrev pub IsWaiting : List NetworkCall → Command → Type 0
  IsWaiting calls c = (str_eq nick c.origin ≡ false) × (c.whois_sent ≡ true) × IsAsked calls c

  held-IsWaiting :
      (ss : List (ℕ × SocketInfo)) (q : List Command) (calls : List NetworkCall)
      → All (λ c. c.whois_sent ≡ true → IsAsked calls c) q
      → ((x : NetworkCall) → Among x (whois_calls j nets nick identified ss q) → Among x calls)
      → All (IsWaiting calls) (held j nets nick identified ss q)
  held-IsWaiting ss [] calls old new = tt
  held-IsWaiting ss (cmd ∷ q) calls old new =
      elim (Bool-cases (is_held j nets nick identified ss cmd)) [
        | inr free ↦ rw free (held-IsWaiting ss q calls old.1 (λ x m. new x (rw free m)))
        | inl waits ↦ elim (Bool-cases cmd.whois_sent) [
          | inl sent ↦ rw waits (
            (ground arith, refl, old.0 sent),
            held-IsWaiting ss q calls old.1 (λ x m. new x (rw (waits, sent) m)),
          )
          | inr unsent ↦ rw waits (
            (ground arith, refl, new _ (rw (waits, unsent) at_front)),
            held-IsWaiting ss q calls old.1 (λ x m. new x (rw (waits, unsent) (behind m))),
          )
        ]
      ]

  held-kept :
      (ss : List (ℕ × SocketInfo)) (q left : List Command)
      → ((c : Command) → Among c (held j nets nick identified ss q) → Among c left)
      → All (λ c. is_held j nets nick identified ss c ≡ true → Among (marked c) left) q
  held-kept ss [] left f = tt
  held-kept ss (cmd ∷ q) left f = (
    (λ waits. f _ (rw waits at_front)),
    held-kept ss q left (λ c m. f c (rest c m (is_held j nets nick identified ss cmd))),
  )
    where
      rest :
          (c : Command)
          → Among c (held j nets nick identified ss q)
          → (b : Bool)
          → Among c (
              if b
              then marked cmd ∷ held j nets nick identified ss q
              else held j nets nick identified ss q)
      rest c m true = behind m
      rest c m false = m

  -- If a whois was sent for every command of the queue that is marked so, then it is so behind a flush
  -- of the queue, where every command is marked, and none is of the sender that the flush was about.
  -- No command is lost for which a plugin may want to know whether its sender is identified, while
  -- its sender is neither known as identified nor the one that the flush was about: it is still there.
  pub flush_command_queue_answered :
      (s : Comm)
      → All (λ c. c.whois_sent ≡ true → IsAsked s.calls c) s.command_queue
      → let t = flush_command_queue j nets nick identified s in
        All (IsWaiting t.calls) t.command_queue
        × All
            (λ c.
              (whois_required j nets s.sockets c && not (str_eq nick c.origin)) ≡ true
              → Among (marked c) t.command_queue)
            s.command_queue
  flush_command_queue_answered s old = rw (flush_command_queue_lem j nets nick identified s) (
    held-IsWaiting s.sockets s.command_queue
        (s.calls ++ whois_calls j nets nick identified s.sockets s.command_queue)
        (All-map s.command_queue (λ c f e. Among-left _ (f e)) old) (λ x m. Among-right s.calls m),
    held-kept s.sockets s.command_queue (held j nets nick identified s.sockets s.command_queue)
        (λ c m. m),
  )
