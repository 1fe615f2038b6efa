-- ===== src/Tests/WireRuns.antt =====
-- The framing of the packets on concrete bytes.
use dazeus_core.Base.{◌≡◌, refl, List, [], ◌∷◌, ◌++◌, arith}
use dazeus_core.Text.{Str, lit}
use dazeus_core.Text.Decimal.{is_digit, read_int, decimal}
use dazeus_core.Run.{Run, done, ◌>>=◌, Ends}
use dazeus_core.Wire.{
  Frame, receive, process, encode, drain, frame_step, read_size, set_size, scan_size, take_packet,
  signed_ge,
}
use dazeus_core.Wire.Chunks.{receive-append, receive-Ends}
use dazeus_core.Wire.RoundTrip.{stream, leftover, handle_all, process-stream}

-- keeps the packets
abbrev keep : List Str → Str → Run (List Str)
keep s x = done (s ++ x ∷ [])

abbrev fresh : Frame
fresh = record { waiting_size = 0; readahead = [] }

abbrev frame_of : Str → Frame
frame_of s = record { waiting_size = 0; readahead = s }

two_packets :
    receive keep fresh [] (lit "2{}3{ }2{")
    ≡ done (record { waiting_size = 2; readahead = lit "{" }, lit "{}" ∷ lit "{ }" ∷ [])
unfolding receive lit process drain frame_step read_size set_size scan_size is_digit read_int
    take_packet signed_ge
two_packets = refl

encode_text : encode (lit "{}") ≡ lit "2{}\n"
unfolding encode lit decimal
encode_text = refl

receive-append_example :
    receive keep fresh [] (lit "2{" ++ lit "}3")
    ≡ (receive keep fresh [] (lit "2{") >>= λ (g, t). receive keep g t (lit "}3"))
unfolding lit
receive-append_example = receive-append keep fresh [] (lit "2{") (lit "}3") refl (omega arith)

receive-Ends_example : Ends (receive keep fresh [] (lit "2{}"))
receive-Ends_example = receive-Ends keep (λ s x. tt) fresh [] (lit "2{}")

process-stream_example :
    process keep (frame_of (lit "\n" ++ stream (lit "{}" ∷ lit "{ }" ∷ []))) [] ≡ (
      handle_all keep [] (lit "{}" ∷ lit "{ }" ∷ []) >>= λ t.
      done (frame_of (leftover (lit "\n") (lit "{}" ∷ lit "{ }" ∷ [])), t))
unfolding lit stream encode is_digit decimal
process-stream_example =
    process-stream keep (lit "\n") (lit "{}" ∷ lit "{ }" ∷ []) [] ((refl, refl), tt)
      ((refl, omega arith), ((refl, omega arith), tt)) (omega arith)
