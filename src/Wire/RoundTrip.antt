-- ===== src/Wire/RoundTrip.antt =====
-- What one side frames the other side reads back.
use dazeus_core.Base.{
  ℕ, suc, ◌+◌, ◌^◌, ◌≤◌, ◌<◌, ◌≡◌, refl, sym, ap, ◌∙◌, List, [], ◌∷◌, ◌++◌, some, none,
  append_assoc, append-nil, arith, length, length-append, take-length_append, drop-length_append,
  All, true, false, ◌==◌,
}
use dazeus_core.Text.{Str, lit}
use dazeus_core.Text.Decimal.{is_digit, decimal, decimal-digits, read_int-decimal, int_max}
use dazeus_core.Run.{Run, done, ◌>>=◌, >>=_assoc}
use dazeus_core.Wire.{
  scan_size, set_size, read_size, take_packet, packet, waits, taken, sized, frame_step, process,
  continue_with, encode,
}
use dazeus_core.Wire.Steps.{signed_ge_small}
use dazeus_core.Wire.Chunks.{process_step, bind_cong}

-- a byte that may stand between two packets
abbrev pub IsQuiet : ℕ → Type 0
IsQuiet c = (is_digit c ≡ false) × ((c == b'{') ≡ false)

-- a JSON object, as the writers print it: it begins with a brace and has a size that fits an `int`
abbrev pub IsPacket : Str → Type 0
IsPacket [] = ⊥
IsPacket (c ∷ body) = (c ≡ b'{') × (suc (length body) ≤ int_max)

scan_size-quiet :
    (pre digits rest : Str)
    → All IsQuiet pre
    → scan_size digits (pre ++ rest) ≡ scan_size digits rest
unfolding scan_size
scan_size-quiet [] digits rest h = refl
scan_size-quiet (c ∷ pre) digits rest h = rw (h.0.0, h.0.1) (scan_size-quiet pre digits rest h.1)

scan_size-digits :
    (ds digits rest : Str)
    → All (λ c. is_digit c ≡ true) ds
    → scan_size digits (ds ++ rest) ≡ scan_size (digits ++ ds) rest
unfolding scan_size
scan_size-digits [] digits rest h = rw append-nil
scan_size-digits (c ∷ ds) digits rest h =
    rw h.0 (scan_size-digits ds (digits ++ c ∷ []) rest h.1 ∙ rw append_assoc)

scan_size-brace : (digits rest : Str) → scan_size digits (b'{' ∷ rest) ≡ some (digits, b'{' ∷ rest)
unfolding scan_size is_digit
scan_size-brace digits rest = refl

module _ (pre body rest : Str) (quiet : All IsQuiet pre) (fits : suc (length body) ≤ int_max) where
  abbrev msg : Str
  msg = b'{' ∷ body

  abbrev buffer : Str
  buffer = pre ++ (decimal (length msg) ++ (msg ++ rest))

  scan_size-buffer : scan_size [] buffer ≡ some (decimal (length msg), msg ++ rest)
  scan_size-buffer =
      scan_size-quiet pre [] _ quiet
      ∙ scan_size-digits (decimal (length msg)) [] _ (decimal-digits (length msg))
      ∙ scan_size-brace (decimal (length msg)) (body ++ rest)

  read_size-buffer :
      read_size (record { waiting_size = 0; readahead = buffer })
      ≡ some (record { waiting_size = length msg; readahead = msg ++ rest })
  unfolding read_size set_size
  read_size-buffer = rw (scan_size-buffer, set_size, read_int-decimal (length msg) fits)

  take_packet-buffer :
      length msg + length rest < 2 ^ 31
      → take_packet (record { waiting_size = length msg; readahead = msg ++ rest })
        ≡ some (msg, record { waiting_size = 0; readahead = rest })
  unfolding take_packet
  take_packet-buffer small =
      rw
        (
          signed_ge_small (length (msg ++ rest)) (length msg)
              (omega (arith, length-append msg rest)),
          take-length_append body rest,
          drop-length_append body rest,
        )
        (ground (arith, length-append body rest))

  frame_step-buffer :
      length msg + length rest < 2 ^ 31
      → frame_step (record { waiting_size = 0; readahead = buffer })
        ≡ packet msg (record { waiting_size = 0; readahead = rest })
  unfolding frame_step sized taken
  frame_step-buffer small = rw (read_size-buffer, take_packet-buffer small)

frame_step-quiet :
    (pre : Str)
    → All IsQuiet pre
    → frame_step (record { waiting_size = 0; readahead = pre })
      ≡ waits (record { waiting_size = 0; readahead = pre })
unfolding frame_step sized taken read_size set_size take_packet
frame_step-quiet pre h = rw nothing
  where
    nothing : scan_size [] pre ≡ none
    nothing =
        sym (ap (scan_size []) (append-nil pre))
        ∙ scan_size-quiet pre [] [] h
        ∙ unfold scan_size in refl

-- the bytes of some packets, framed one after the other
unfoldable pub stream : List Str → Str
stream [] = []
stream (m ∷ ms) = encode m ++ stream ms

pub newline-IsQuiet : All IsQuiet (lit "\n")
unfolding lit is_digit
newline-IsQuiet = ((refl, refl), tt)

length-newline : length (lit "\n") ≡ 1
unfolding lit
length-newline = refl

-- what is left in the buffer behind the last packet
abbrev pub leftover : Str → List Str → Str
leftover pre [] = pre
leftover pre (m ∷ ms) = leftover (lit "\n") ms

module _ {ℓ} {S : Type ℓ} (on_packet : S → Str → Run S) where
  -- the packets handled one after the other
  unfoldable pub handle_all : S → List Str → Run S
  handle_all s [] = done s
  handle_all s (m ∷ ms) = on_packet s m >>= λ t. handle_all t ms

  regroup :
      (pre m ms : Str)
      → pre ++ (encode m ++ ms) ≡ pre ++ (decimal (length m) ++ (m ++ (lit "\n" ++ ms)))
  unfolding encode
  regroup pre m ms = simp append_assoc

  length-encode : (m : Str) → length m + 1 ≤ length (encode m)
  unfolding encode
  length-encode m = omega (
    arith,
    length-append (decimal (length m)) (m ++ lit "\n"),
    length-append m (lit "\n"),
    length-newline,
  )

  process-packet :
      (pre body rest : Str) (s : S)
      → All IsQuiet pre
      → suc (length body) ≤ int_max
      → suc (length body) + length (lit "\n" ++ rest) < 2 ^ 31
      → process on_packet
          (record { waiting_size = 0; readahead = pre ++ (encode (b'{' ∷ body) ++ rest) })
          s
        ≡ (on_packet s (b'{' ∷ body)
            >>= process on_packet (record { waiting_size = 0; readahead = lit "\n" ++ rest }))
  unfolding continue_with
  process-packet pre body rest s q fits small =
      rw (regroup pre (b'{' ∷ body) rest) (
        process_step on_packet _ s
        ∙ rw (frame_step-buffer pre body (lit "\n" ++ rest) q fits small))

  -- A stream of framed packets, behind bytes that are neither digits nor braces, is taken apart
  -- into exactly these packets, handled in order; only bytes of that kind stay in the buffer.
  pub process-stream :
      (pre : Str) (ms : List Str) (s : S)
      → All IsQuiet pre
      → All IsPacket ms
      → length (stream ms) < 2 ^ 31
      → process on_packet (record { waiting_size = 0; readahead = pre ++ stream ms }) s ≡ (
          handle_all s ms >>= λ t.
          done (record { waiting_size = 0; readahead = leftover pre ms }, t))
  unfolding stream handle_all continue_with
  process-stream pre [] s q h small =
      rw append-nil (process_step on_packet _ s ∙ rw (frame_step-quiet pre q))
  process-stream pre ([] ∷ ms) s q h small = elim h.0 [ ]
  process-stream pre ((c ∷ body) ∷ ms) s q h small = rw h.0.0 (
      process-packet pre body (stream ms) s q h.0.1
        (omega (arith, bytes, length-append (lit "\n") (stream ms), length-newline))
      ∙ bind_cong (on_packet s (b'{' ∷ body)) _ _
          (λ t. process-stream (lit "\n") ms t newline-IsQuiet h.1 (omega (arith, bytes)))
      ∙ sym (>>=_assoc (on_packet s (b'{' ∷ body)) _ _))
    where
      bytes : suc (length body) + 1 + length (stream ms) < 2 ^ 31
      bytes = omega (arith, length-encode (c ∷ body), length-append (encode (c ∷ body)) (stream ms))
