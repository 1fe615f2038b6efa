-- ===== src/Requests/Replies.antt =====
-- The answers to the packets of a plugin (src/plugincomm.cpp, `poll` and `handle`).
use dazeus_core.Base.{
  ◌≡◌, ◌<◌, ◌^◌, refl, sym, ap, ◌∙◌, List, [], ◌∷◌, ◌++◌, Option, none, some, All, append_assoc,
  append-nil, length,
}
use dazeus_core.Text.{Str}
use dazeus_core.Run.{Run, Death, uncaught_exception, EndsWith, returned, died, EndsWith-bind, ◌>>=◌}
use dazeus_core.External.{Utils, Networks}
use dazeus_core.Json.{Json, c_str, json_false, json_object, no_fields, Jansson}
use dazeus_core.Wire.{process, encode}
use dazeus_core.Wire.RoundTrip.{IsQuiet, IsPacket, stream, handle_all, process-stream}
use dazeus_core.Requests.{
  returns, throws, crashes, Database, Bot, Request, Result, respond, respond_text,
}
use dazeus_core.Requests.Handle.{handle, caught, write_answer, answer_input, on_packet}
use dazeus_core.Requests.Buffer.{Keeps, keeps}
use dazeus_core.Requests.Unwritten.{handle-Keeps}

module _ {D : Type 0} (u : Utils) (j : Jansson) (nets : Networks) (db : Database D)
    (bot : Bot) where
  -- `handle` with an empty answer
  abbrev pub handled : Json → Request D → Result D
  handled input r = handle u j nets db bot input (record r { response = no_fields })

  abbrev pub answer : Request D → Str
  answer s = j.dumps (json_object s.response)

  -- the answer behind an exception
  abbrev pub regret : Str → Request D → Request D
  regret why s = respond_text j "error" why (respond j "success" (some json_false) s)

  -- the bot after `s`, which was `r`, when `text` is written behind what waited
  abbrev pub told : Request D → Request D → Str → Request D
  told r s text = record s {
    info = record s.info { writebuffer = r.info.writebuffer ++ encode text };
  }

  -- What becomes of the bot by a packet, and the text of the answer to it: what `handle` has put
  -- into the answer for this packet, or its exception.
  pub data Replies (r : Request D) (packet : Str) : Request D → Str → Type 0 where
    granted :
        {input : Json} {s : Request D}
        → j.loads (c_str packet) ≡ some input
        → handled input r ≡ (s, returns tt)
        → Replies r packet (told r s (answer s)) (answer s)
    refused :
        {input : Json} {s : Request D} {why : Str}
        → j.loads (c_str packet) ≡ some input
        → handled input r ≡ (s, throws why)
        → Replies r packet (told r (regret why s) (answer (regret why s))) (answer (regret why s))

  -- of which death a packet is
  pub data Breaks (r : Request D) (packet : Str) : Death → Type 0 where
    no_json : j.loads (c_str packet) ≡ none → Breaks r packet uncaught_exception
    crashed :
        {input : Json} {s : Request D} {why : Death}
        → j.loads (c_str packet) ≡ some input
        → handled input r ≡ (s, crashes why)
        → Breaks r packet why

  caught-Replies :
      (r : Request D) (packet : Str) (input : Json)
      → j.loads (c_str packet) ≡ some input
      → (m : Result D) → handled input r ≡ m
      → Keeps r.info.writebuffer m
      → EndsWith
          (λ s. (text : Str) × Replies r packet s text)
          (Breaks r packet)
          (write_answer u j nets db bot (caught u j nets db bot m))
  unfolding caught respond_text respond
  caught-Replies r packet input e (s, returns tt) h (keeps k) =
      returned (answer s, rw k (granted e h))
  caught-Replies r packet input e (s, throws why) h (keeps k) =
      returned (answer (regret why s), rw k (refused e h))
  caught-Replies r packet input e (s, crashes why) h k = died (crashed e h)

  pub on_packet-Replies :
      (r : Request D) (packet : Str)
      → EndsWith
          (λ s. (text : Str) × Replies r packet s text)
          (Breaks r packet)
          (on_packet u j nets db bot r packet)
  unfolding on_packet
  on_packet-Replies r packet = go (j.loads (c_str packet)) refl
    where
      go :
          (o : Option Json)
          → j.loads (c_str packet) ≡ o
          → EndsWith
              (λ s. (text : Str) × Replies r packet s text)
              (Breaks r packet)
              (answer_input u j nets db bot o r)
      go none e = died (no_json e)
      go (some input) e = caught-Replies r packet input e (handled input r) refl (
          handle-Keeps u j nets db bot r.info.writebuffer input (record r { response = no_fields })
            refl)

  Replies-writebuffer :
      {r s : Request D} {packet text : Str}
      → Replies r packet s text
      → s.info.writebuffer ≡ r.info.writebuffer ++ encode text
  Replies-writebuffer (granted e h) = refl
  Replies-writebuffer (refused e h) = refl

  -- The packets one after the other, each with the answer to it, from one state of the bot to
  -- another.
  pub data Exchange : Request D → List Str → List Str → Request D → Type 0 where
    silence : {r : Request D} → Exchange r [] [] r
    then_on :
        {r s t : Request D} {packet text : Str} {packets texts : List Str}
        → Replies r packet s text
        → Exchange s packets texts t
        → Exchange r (packet ∷ packets) (text ∷ texts) t

  -- the death by one of the packets, behind an exchange of the ones before it
  pub data BrokenOff : Request D → List Str → Death → Type 0 where
    here :
        {r : Request D} {packet : Str} {packets : List Str} {d : Death}
        → Breaks r packet d
        → BrokenOff r (packet ∷ packets) d
    later :
        {r s : Request D} {packet text : Str} {packets : List Str} {d : Death}
        → Replies r packet s text
        → BrokenOff s packets d
        → BrokenOff r (packet ∷ packets) d

  -- the packets were answered, and the answers are written behind what waited, in their order
  abbrev pub AnsweredAll : Request D → List Str → Request D → Type 0
  AnsweredAll r packets t =
      (texts : List Str) × Exchange r packets texts t
      × (t.info.writebuffer ≡ r.info.writebuffer ++ stream texts)

  pub handle_all-Answered :
      (r : Request D) (ms : List Str)
      → EndsWith (AnsweredAll r ms) (BrokenOff r ms) (handle_all (on_packet u j nets db bot) r ms)
  unfolding handle_all stream
  handle_all-Answered r [] = returned ([], silence, sym (append-nil r.info.writebuffer))
  handle_all-Answered r (m ∷ ms) = first (λ s. handle_all-Answered s ms) (on_packet-Replies r m)
    where
      more :
          {s : Request D} {text : Str} {q : Run (Request D)}
          → Replies r m s text
          → EndsWith (AnsweredAll s ms) (BrokenOff s ms) q
          → EndsWith (AnsweredAll r (m ∷ ms)) (BrokenOff r (m ∷ ms)) q
      more {text = text} a (returned (texts, x, e)) = returned (
        text ∷ texts,
        then_on a x,
        e
            ∙ ap (λ b. b ++ stream texts) (Replies-writebuffer a)
            ∙ append_assoc r.info.writebuffer (encode text) (stream texts),
      )
      more a (died x) = died (later a x)

      first :
          {q : Run (Request D)}
          → ((s : Request D)
              → EndsWith
                  (AnsweredAll s ms)
                  (BrokenOff s ms)
                  (handle_all (on_packet u j nets db bot) s ms))
          → EndsWith (λ s. (text : Str) × Replies r m s text) (Breaks r m) q
          → EndsWith
              (AnsweredAll r (m ∷ ms))
              (BrokenOff r (m ∷ ms))
              (q >>= λ s. handle_all (on_packet u j nets db bot) s ms)
      first k (returned {a = s} (text, a)) = more a (k s)
      first k (died x) = died (here x)

  -- A stream of framed packets from a plugin, behind bytes that are neither digits nor braces, is
  -- answered packet by packet: each answer is what `handle` has put into it for its own packet, in
  -- the state that the packets before it left, or the exception that `handle` threw; the framed
  -- answers are written behind what waits to be written, in the order of the packets. Or the process
  -- dies of a packet, behind the packets that were answered: of one that is no JSON, or of one where
  -- `handle` crashes. The loop ends.
  pub process_lem :
      (pre : Str) (ms : List Str) (r : Request D)
      → All IsQuiet pre
      → All IsPacket ms
      → length (stream ms) < 2 ^ 31
      → EndsWith
          (λ p. AnsweredAll r ms p.1)
          (BrokenOff r ms)
          (process
            (on_packet u j nets db bot)
            (record { waiting_size = 0; readahead = pre ++ stream ms })
            r)
  process_lem pre ms r quiet packets small =
      rw (process-stream (on_packet u j nets db bot) pre ms r quiet packets small)
        (EndsWith-bind (handle_all-Answered r ms) (λ t h. returned h))
