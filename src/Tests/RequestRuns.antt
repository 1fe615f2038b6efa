-- ===== src/Tests/RequestRuns.antt =====
-- Requests of a plugin.
use dazeus_core.Base.{◌≡◌, [], ◌∷◌, some, if◌then◌else◌}
use dazeus_core.Base.{◌++◌, arith, refl}
use dazeus_core.Text.Decimal.{is_digit, decimal}
use dazeus_core.Wire.{process, encode}
use dazeus_core.Wire.RoundTrip.{stream}
use dazeus_core.Requests.Handle.{on_packet}
use dazeus_core.Requests.Replies.{AnsweredAll, BrokenOff, process_lem}
use dazeus_core.Text.{Str, lit}
use dazeus_core.Run.{Yields, EndsWith}
use dazeus_core.Json.{
  Json, json_true, json_false, json_text, json_array, json_object, no_items, item, no_fields, field,
}
use dazeus_core.Requests.{Request}
use dazeus_core.Requests.Handle.{handle, caught}
use dazeus_core.Requests.Answers.{did_return, handle_lem}
use dazeus_core.Tests.Samples.{
  utils, jansson, jansson-laws, nets, database, bot_settings, silent_plugin,
}

abbrev start : Request Str
start = record { response = no_fields; info = silent_plugin; database = []; calls = [] }

abbrev text_item : Str → Json
text_item s = json_text s

-- {"do": "property", "params": ["set", "a", "b"]}
abbrev set_it : Json
set_it = json_object (
    field (lit "do") (text_item (lit "property")) (
      field (lit "params")
        (json_array (
          item (text_item (lit "set"))
            (item (text_item (lit "a")) (item (text_item (lit "b")) no_items))))
        no_fields))

handle_lem_example :
    Yields
      (λ s.
        jansson.object_get s.response (lit "success")
        ≡ some (
            if did_return (handle utils jansson nets database bot_settings set_it start).1
            then json_true
            else json_false))
      (caught utils jansson nets database bot_settings
        (handle utils jansson nets database bot_settings set_it start))
handle_lem_example = handle_lem utils jansson jansson-laws nets database bot_settings set_it start

process_lem_example :
    EndsWith
      (λ p.
        AnsweredAll utils jansson nets database bot_settings start (lit "{}" ∷ lit "{ }" ∷ []) p.1)
      (BrokenOff utils jansson nets database bot_settings start (lit "{}" ∷ lit "{ }" ∷ []))
      (process
        (on_packet utils jansson nets database bot_settings)
        (record { waiting_size = 0; readahead = lit "\n" ++ stream (lit "{}" ∷ lit "{ }" ∷ []) })
        start)
unfolding lit stream encode is_digit decimal
process_lem_example =
    process_lem utils jansson nets database bot_settings (lit "\n") (lit "{}" ∷ lit "{ }" ∷ [])
      start ((refl, refl), tt) ((refl, omega arith), ((refl, omega arith), tt)) (omega arith)
