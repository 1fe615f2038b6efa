-- ===== src/Wire.antt =====
-- The framing of the plugin protocol: `[size in ASCII][JSON data of given size]`, as
-- `PluginComm::poll` reads it (src/plugincomm.cpp) and as `poll` and `SocketInfo::dispatch` write it.
pub mod Steps
pub mod Chunks
pub mod RoundTrip
use dazeus_core.Base.{
  ℕ, zero, suc, ◌+◌, ◌%◌, ◌^◌, Bool, true, false, ◌&&◌, List, [], ◌∷◌, ◌++◌, Option, none, some,
  ltb, leb, ◌==◌, if◌then◌else◌, length, take, drop, is_empty,
}
use dazeus_core.Text.{Str, lit}
use dazeus_core.Text.Decimal.{is_digit, read_int, decimal}
use dazeus_core.Run.{Run, done, dies, assert_failed, out_of_fuel, ◌>>=◌}

-- the two fields of `SocketInfo` that the reader keeps; `waitingSize` is never negative
pub record Frame : Type 0 where
  pub waiting_size : ℕ
  pub readahead : Str

-- The `for` over `j`: the digits met before the first '{', and the text from that '{' on.
unfoldable pub scan_size : Str → Str → Option (Str × Str)
scan_size digits [] = none
scan_size digits (c ∷ rest) =
    let digit = scan_size (digits ++ c ∷ []) rest in
    let skip = scan_size digits rest in
    if is_digit c then digit else if c == b'{' then some (digits, c ∷ rest) else skip

-- `s >> waitingSize; assert(s)`, and the cut of the buffer, made only if the size is not 0;
-- `none` is the failed assertion
unfoldable pub set_size : Frame → Option (Str × Str) → Option Frame
set_size f none = some f
set_size f (some (digits, rest)) = elim (read_int digits) [
  | none ↦ none
  | some zero ↦ some f
  | some (suc n) ↦ some (record { waiting_size = suc n; readahead = rest })
]

unfoldable pub read_size : Frame → Option Frame
read_size f = if f.waiting_size == 0 then set_size f (scan_size [] f.readahead) else some f

-- `(signed)length >= size`: a `size_t` cut to 32 bits and read as an `int`
unfoldable pub signed_ge : ℕ → ℕ → Bool
signed_ge len size = let cut = len % 2 ^ 32 in ltb cut (2 ^ 31) && leb size cut

unfoldable pub take_packet : Frame → Option (Str × Frame)
take_packet f =
    if f.waiting_size == 0
    then none
    else if signed_ge (length f.readahead) f.waiting_size
    then some (
      take f.waiting_size f.readahead,
      record { waiting_size = 0; readahead = drop f.waiting_size f.readahead },
    )
    else none

pub data Step : Type 0 where
  no_size : Step
  waits : Frame → Step
  packet : Str → Frame → Step

unfoldable pub taken : Frame → Option (Str × Frame) → Step
taken g none = waits g
taken g (some (p, h)) = packet p h

unfoldable pub sized : Option Frame → Step
unfolding taken
sized none = no_size
sized (some g) = taken g (take_packet g)

-- one round of `do … while(parsedPacket)`, up to the handling of the packet
unfoldable pub frame_step : Frame → Step
unfolding sized
frame_step f = sized (read_size f)

-- `info.readahead.append(readahead, r)`
abbrev pub extend : Frame → Str → Frame
extend f bytes = record f { readahead = f.readahead ++ bytes }

module _ {ℓ} {S : Type ℓ} (on_packet : S → Str → Run S) where
  -- the rest of the loop after one round
  unfoldable pub continue_with : (Frame → S → Run (Frame × S)) → S → Step → Run (Frame × S)
  continue_with next s no_size = dies assert_failed
  continue_with next s (waits g) = done (g, s)
  continue_with next s (packet p h) = on_packet s p >>= λ t. next h t

  -- the loop `do … while(parsedPacket)`
  unfoldable pub drain : ℕ → Frame → S → Run (Frame × S)
  unfolding continue_with
  drain zero f s = out_of_fuel
  drain (suc fuel) f s = continue_with (drain fuel) s (frame_step f)

  -- Each round but the last takes a byte at least, so this fuel is enough.
  unfoldable pub process : Frame → S → Run (Frame × S)
  process f s = drain (suc (length f.readahead)) f s

  -- what `poll` does with the bytes that it could read from one socket
  unfoldable pub receive : Frame → S → Str → Run (Frame × S)
  receive f s bytes = if is_empty bytes then done (f, s) else process (extend f bytes) s

-- `mstr << jsonMsg.length(); mstr << jsonMsg; mstr << "\n"`
unfoldable pub encode : Str → Str
encode msg = decimal (length msg) ++ (msg ++ lit "\n")
