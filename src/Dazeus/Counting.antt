-- ===== src/Dazeus/Counting.antt =====
-- The count of initialisations, from one load of the configuration to the next.
use dazeus_core.Base.{
  [], ℕ, ◌+◌, ◌<◌, ◌≤◌, ◌≡◌, refl, ◌∙◌, true, false, [], ◌∷◌, some, arith, ◌==◌, is_empty, le→leb,
  All,
}
use dazeus_core.Text.{Str, lit}
use dazeus_core.Requests.{returns}
use dazeus_core.Dazeus.{DaZeus, object}
use dazeus_core.Dazeus.Load.{World, Attempt, count_init}
use dazeus_core.Text.Decimal.{
  decimal, decimal-digits, decimal-nonempty, value_from, value_from-decimal, is_digit, int_max,
}
use dazeus_core.Int.{ℤ, pos}
use dazeus_core.Run.{done}
use dazeus_core.Dazeus.Inits.{
  skip_space, leading_digits, stream_int, increment, next_init, init_text,
}

abbrev IsNumber : Str → Type 0
IsNumber ds = All (λ c. is_digit c ≡ true) ds

leading_digits-number : (ds : Str) → IsNumber ds → leading_digits ds ≡ ds
unfolding leading_digits
leading_digits-number [] h = refl
leading_digits-number (c ∷ ds) h = rw (h.0, leading_digits-number ds h.1) refl

skip_space-number : (ds : Str) → IsNumber ds → skip_space ds ≡ ds
unfolding skip_space is_digit
skip_space-number [] h = refl
skip_space-number (c ∷ ds) h = ground arith

digit-ne : (c k : ℕ) → is_digit c ≡ true → k < b'0' → (c == k) ≡ false
unfolding is_digit
digit-ne c k h l = ground arith

stream_int-number :
    (ds : Str)
    → IsNumber ds
    → is_empty ds ≡ false
    → value_from 0 ds ≤ int_max
    → stream_int ds ≡ some (pos (value_from 0 ds))
unfolding stream_int
stream_int-number [] h e l = absurd cc
stream_int-number (c ∷ ds) h e l =
    rw
      (
        digit-ne c b'-' h.0 (omega arith),
        digit-ne c b'+' h.0 (omega arith),
        leading_digits-number (c ∷ ds) h,
        le→leb (value_from 0 (c ∷ ds)) int_max l,
      )
      refl

increment-pos : (n : ℕ) → n < int_max → increment (pos n) ≡ done (pos (n + 1))
unfolding increment
increment-pos n h = ground arith

next_init-stream :
    (text : Str) (n : ℤ) → stream_int (skip_space text) ≡ some n → next_init text ≡ increment n
unfolding next_init
next_init-stream text n e = rw (e, next_init) refl

-- The count that one load writes down is read by the next one, which counts one more, up to INT_MAX.
pub next_init-init_text : (n : ℕ) → n < int_max → next_init (init_text (pos n)) ≡ done (pos (n + 1))
unfolding init_text
next_init-init_text n h =
    next_init-stream (decimal n) (pos n) (
      rw
        (
          skip_space-number (decimal n) (decimal-digits n),
          stream_int-number (decimal n) (decimal-digits n) (decimal-nonempty n)
              (rw (value_from-decimal n) (omega arith)),
        )
        (rw (value_from-decimal n) refl))
    ∙ increment-pos n h

-- If the database holds a count n below INT_MAX, and writes without an error, `loadConfig` writes
-- n + 1 in its place, and changes nothing else.
pub count_init_lem :
    {D : Type 0} (w : World D) (a : Attempt) (s : DaZeus D) (n : ℕ) (d d' d'' : D)
    → n < int_max
    → w.db.property d (lit "dazeus.numinits") [] [] [] ≡ (d', returns (init_text (pos n)))
    → w.db.set_property d' (lit "dazeus.numinits") (init_text (pos (n + 1))) [] [] []
      ≡ (d'', returns tt)
    → count_init w a s (object d) ≡ done (record s { database = object d'' })
unfolding count_init
count_init_lem w a s n d d' d'' h get set = rw (get, next_init-init_text n h, set) refl
