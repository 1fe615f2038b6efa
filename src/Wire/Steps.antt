-- ===== src/Wire/Steps.antt =====
-- One round of the reader: what it consumes, and that bytes which arrive later do not change it.
use dazeus_core.Base.{
  ℕ, zero, suc, ◌+◌, ◌^◌, ◌≤◌, ◌<◌, ◌≡◌, refl, ◌∙◌, true, false, [], ◌∷◌, ◌++◌, Option, none, some,
  arith, leb, ◌==◌, length, take, drop, length-append, length-drop, take-append_of_le,
  drop-append_of_le, Bool-cases, Option-cases, inl, inr, sym, leb→le,
}
use dazeus_core.Text.{Str}
use dazeus_core.Text.Decimal.{read_int}
use dazeus_core.Wire.{
  Frame, scan_size, set_size, read_size, signed_ge, take_packet, Step, no_size, waits, packet,
  taken, sized, frame_step, extend,
}

-- Below 2 GiB the conversion to `int` changes nothing.
pub signed_ge_small : (len size : ℕ) → len < 2 ^ 31 → signed_ge len size ≡ leb size len
unfolding signed_ge
signed_ge_small len size h = ground arith

scan_size-length :
    (digits xs ds rest : Str) → scan_size digits xs ≡ some (ds, rest) → length rest ≤ length xs
unfolding scan_size
scan_size-length digits [] ds rest h = ground arith
scan_size-length digits (c ∷ xs) ds rest h =
    ground
      (arith, scan_size-length (digits ++ c ∷ []) xs ds rest, scan_size-length digits xs ds rest)

scan_size-append :
    (digits xs bytes ds rest : Str)
    → scan_size digits xs ≡ some (ds, rest)
    → scan_size digits (xs ++ bytes) ≡ some (ds, rest ++ bytes)
unfolding scan_size
scan_size-append digits [] bytes ds rest h = ground arith
scan_size-append digits (c ∷ xs) bytes ds rest h = ground (
  arith,
  scan_size-append (digits ++ c ∷ []) xs bytes ds rest,
  scan_size-append digits xs bytes ds rest,
)

-- What `read_size` may do to a frame, and what it does with more bytes at the end.
data SizeRead (f : Frame) (bytes : Str) : Option Frame → Type 0 where
  fails : read_size (extend f bytes) ≡ none → SizeRead f bytes none
  same : SizeRead f bytes (some f)
  found :
      (g : Frame)
      → (g.waiting_size == 0) ≡ false
      → length g.readahead ≤ length f.readahead
      → read_size (extend f bytes) ≡ some (extend g bytes)
      → SizeRead f bytes (some g)

set_size-SizeRead :
    (f : Frame) (bytes ds rest : Str)
    → (f.waiting_size == 0) ≡ true
    → scan_size [] f.readahead ≡ some (ds, rest)
    → (n : Option ℕ) → read_int ds ≡ n
    → SizeRead f bytes (set_size f (some (ds, rest)))
unfolding set_size read_size
set_size-SizeRead f bytes ds rest z e none r =
    rw (r, set_size) (fails (rw (z, scan_size-append [] f.readahead bytes ds rest e, set_size, r)))
set_size-SizeRead f bytes ds rest z e (some zero) r = rw (r, set_size) same
set_size-SizeRead f bytes ds rest z e (some (suc n)) r =
    rw (r, set_size)
      (found (record { waiting_size = suc n; readahead = rest }) (ground arith)
        (scan_size-length [] f.readahead ds rest e)
        (rw (z, scan_size-append [] f.readahead bytes ds rest e, set_size, r)))

read_size-SizeRead : (f : Frame) (bytes : Str) → SizeRead f bytes (read_size f)
unfolding read_size
read_size-SizeRead f bytes = elim (Bool-cases (f.waiting_size == 0)) [
  | inr busy ↦ rw busy same
  | inl idle ↦ rw idle (elim (Option-cases (scan_size [] f.readahead)) [
    | inl e ↦ rw e (unfold set_size in same)
    | inr ((ds, rest), e) ↦ rw e (set_size-SizeRead f bytes ds rest idle e (read_int ds) refl)
  ])
]

-- What one round of the reader says of the round on the same frame with more bytes at its end.
abbrev pub Extended : Frame → Str → Step → Type 0
Extended f bytes no_size = frame_step (extend f bytes) ≡ no_size
Extended f bytes (waits g) = frame_step (extend f bytes) ≡ frame_step (extend g bytes)
Extended f bytes (packet p h) = frame_step (extend f bytes) ≡ packet p (extend h bytes)

module _ (g : Frame) (bytes : Str) (busy : (g.waiting_size == 0) ≡ false) where
  read_size_busy : read_size (extend g bytes) ≡ some (extend g bytes)
  unfolding read_size
  read_size_busy = rw busy

  take_packet_full :
      length g.readahead + length bytes < 2 ^ 31
      → signed_ge (length g.readahead) g.waiting_size ≡ true
      → take_packet (extend g bytes)
        ≡ some (
          take g.waiting_size g.readahead,
          record { waiting_size = 0; readahead = drop g.waiting_size g.readahead ++ bytes },
        )
  unfolding take_packet
  take_packet_full small full =
      let fits : leb g.waiting_size (length g.readahead) ≡ true =
        sym (signed_ge_small _ g.waiting_size (omega arith)) ∙ full in
      let fits' : signed_ge (length (g.readahead ++ bytes)) g.waiting_size ≡ true =
        signed_ge_small _ g.waiting_size (omega (arith, length-append g.readahead bytes))
        ∙ ground (arith, length-append g.readahead bytes) in
      rw (
        busy,
        fits',
        take-append_of_le g.waiting_size g.readahead bytes (leb→le _ _ fits),
        drop-append_of_le g.waiting_size g.readahead bytes (leb→le _ _ fits),
      )

  take_packet_self :
      signed_ge (length g.readahead) g.waiting_size ≡ true
      → take_packet g
        ≡ some (
          take g.waiting_size g.readahead,
          record { waiting_size = 0; readahead = drop g.waiting_size g.readahead },
        )
  unfolding take_packet
  take_packet_self full = rw (busy, full)

  take_packet_partial : signed_ge (length g.readahead) g.waiting_size ≡ false → take_packet g ≡ none
  unfolding take_packet
  take_packet_partial partial = rw (busy, partial)

  frame_step_busy :
      (f : Frame) → read_size f ≡ some (extend g bytes) → frame_step f ≡ frame_step (extend g bytes)
  unfolding frame_step
  frame_step_busy f e = rw (e, read_size_busy)

  taken-Extended :
      (f : Frame)
      → length g.readahead ≤ length f.readahead
      → length f.readahead + length bytes < 2 ^ 31
      → read_size (extend f bytes) ≡ some (extend g bytes)
      → Extended f bytes (taken g (take_packet g))
  unfolding taken frame_step
  taken-Extended f shorter small e =
      elim (Bool-cases (signed_ge (length g.readahead) g.waiting_size)) [
        | inr partial ↦ rw (take_packet_partial partial) (frame_step_busy (extend f bytes) e)
        | inl full ↦ rw (take_packet_self full) (rw (e, take_packet_full (omega arith) full))
      ]

take_packet_idle : (f : Frame) → (f.waiting_size == 0) ≡ true → take_packet f ≡ none
unfolding take_packet
take_packet_idle f idle = rw idle

SizeRead-Extended :
    (f : Frame) (bytes : Str) (r : Option Frame)
    → length f.readahead + length bytes < 2 ^ 31
    → SizeRead f bytes r
    → Extended f bytes (sized r)
unfolding sized taken frame_step
SizeRead-Extended f bytes _ small (fails e) = rw e
SizeRead-Extended f bytes _ small same = elim (Bool-cases (f.waiting_size == 0)) [
  | inl idle ↦ rw (take_packet_idle f idle) refl
  | inr busy ↦ taken-Extended f bytes busy f (omega arith) small (read_size_busy f bytes busy)
]
SizeRead-Extended f bytes _ small (found g busy shorter e) =
    taken-Extended g bytes busy f shorter small e

-- A round on a frame, while its buffer and the new bytes are below 2 GiB together.
pub frame_step-Extended :
    (f : Frame) (bytes : Str)
    → length f.readahead + length bytes < 2 ^ 31
    → Extended f bytes (frame_step f)
unfolding frame_step
frame_step-Extended f bytes small =
    SizeRead-Extended f bytes (read_size f) small (read_size-SizeRead f bytes)

-- A round never makes the buffer longer, and one that finds a packet makes it shorter.
abbrev pub Shrinks : Frame → Step → Type 0
Shrinks f no_size = Unit
Shrinks f (waits g) = length g.readahead ≤ length f.readahead
Shrinks f (packet p h) = length h.readahead < length f.readahead

signed_ge-le : (len size : ℕ) → signed_ge len size ≡ true → size ≤ len
unfolding signed_ge
signed_ge-le len size h = ground arith

taken-Shrinks :
    (f g : Frame) → length g.readahead ≤ length f.readahead → Shrinks f (taken g (take_packet g))
unfolding taken take_packet
taken-Shrinks f g shorter = ground (
  arith,
  signed_ge-le (length g.readahead) g.waiting_size,
  length-drop g.waiting_size g.readahead,
)

SizeRead-Shrinks :
    (f : Frame) {bytes : Str} {r : Option Frame} → SizeRead f bytes r → Shrinks f (sized r)
unfolding sized
SizeRead-Shrinks f (fails e) = tt
SizeRead-Shrinks f same = taken-Shrinks f f (omega arith)
SizeRead-Shrinks f (found g busy shorter e) = taken-Shrinks f g shorter

pub frame_step-Shrinks : (f : Frame) → Shrinks f (frame_step f)
unfolding frame_step
frame_step-Shrinks f = SizeRead-Shrinks f (read_size-SizeRead f [])
