-- ===== src/Wire/Chunks.antt =====
-- The loop of the reader: it ends, and how the bytes are cut into reads makes no difference.
use native.Mathlib.Nat.{le_refl}
use dazeus_core.Base.{
  ℕ, zero, suc, ◌+◌, ◌^◌, ◌<◌, ◌≡◌, refl, sym, ap, ◌∙◌, [], ◌∷◌, ◌++◌, append_assoc, append-nil,
  arith, length, length-append, is_empty, false,
}
use dazeus_core.Text.{Str}
use dazeus_core.Run.{Run, done, dies, out_of_fuel, Ends, ◌>>=◌, >>=_assoc}
use dazeus_core.Wire.{
  Frame, Step, no_size, waits, packet, frame_step, extend, continue_with, drain, process, receive,
}
use dazeus_core.Wire.Steps.{Extended, frame_step-Extended, Shrinks, frame_step-Shrinks}

pub bind_cong {ℓ κ} :
    {A : Type ℓ} {B : Type κ} (m : Run A) (f g : A → Run B)
    → ((a : A) → f a ≡ g a)
    → (m >>= f) ≡ (m >>= g)
bind_cong (done a) f g h = h a
bind_cong (dies d) f g h = refl
bind_cong out_of_fuel f g h = refl

module _ {ℓ} {S : Type ℓ} (on_packet : S → Str → Run S) where
  -- the rest of the loop is only ever run on shorter buffers
  continue_with_cong :
      (next next' : Frame → S → Run (Frame × S)) (f : Frame) (s : S)
      → ((g : Frame) (t : S) → length g.readahead < length f.readahead → next g t ≡ next' g t)
      → (r : Step) → Shrinks f r
      → continue_with on_packet next s r ≡ continue_with on_packet next' s r
  unfolding continue_with
  continue_with_cong next next' f s h no_size k = refl
  continue_with_cong next next' f s h (waits g) k = refl
  continue_with_cong next next' f s h (packet x g) k = bind_cong (on_packet s x) _ _ (λ t. h g t k)

  -- any two amounts of fuel above the length of the buffer do the same
  drain_fuel :
      (n m : ℕ) (f : Frame) (s : S)
      → length f.readahead < n
      → length f.readahead < m
      → drain on_packet n f s ≡ drain on_packet m f s
  unfolding drain
  drain_fuel zero m f s p q = absurd (omega arith)
  drain_fuel (suc n) zero f s p q = absurd (omega arith)
  drain_fuel (suc n) (suc m) f s p q =
      continue_with_cong (drain on_packet n) (drain on_packet m) f s
        (λ g t k. drain_fuel n m g t (omega arith) (omega arith)) (frame_step f)
        (frame_step-Shrinks f)

  -- the loop without fuel
  pub process_step :
      (f : Frame) (s : S)
      → process on_packet f s ≡ continue_with on_packet (process on_packet) s (frame_step f)
  unfolding process drain
  process_step f s =
      continue_with_cong (drain on_packet (length f.readahead)) _ f s
        (λ g t k. drain_fuel _ (suc (length g.readahead)) g t k (omega arith)) (frame_step f)
        (frame_step-Shrinks f)

  -- If the handling of a packet never runs out of fuel, then neither does the loop.
  drain-Ends :
      ((s : S) (x : Str) → Ends (on_packet s x))
      → (n : ℕ) (f : Frame) (s : S) → length f.readahead < n
      → Ends (drain on_packet n f s)
  unfolding drain
  drain-Ends h zero f s k = absurd (omega arith)
  drain-Ends h (suc n) f s k =
      go (frame_step f) (frame_step-Shrinks f) (λ g t l. drain-Ends h n g t (omega arith))
    where
      bound :
          (m : Run S) (next : S → Run (Frame × S))
          → Ends m
          → ((t : S) → Ends (next t))
          → Ends (m >>= next)
      bound (done t) next e l = l t
      bound (dies d) next e l = tt
      bound out_of_fuel next e l = elim e [ ]

      go :
          (r : Step)
          → Shrinks f r
          → ((g : Frame) (t : S)
              → length g.readahead < length f.readahead
              → Ends (drain on_packet n g t))
          → Ends (continue_with on_packet (drain on_packet n) s r)
      go no_size i l = tt
      go (waits g) i l = tt
      go (packet x g) i l = bound (on_packet s x) _ (h s x) (λ t. l g t i)

  -- A frame that the loop left behind keeps waiting: only more bytes can change that.
  process-extend :
      (n : ℕ) (f : Frame) (s : S) (bytes : Str)
      → length f.readahead < n
      → length f.readahead + length bytes < 2 ^ 31
      → process on_packet (extend f bytes) s
        ≡ (process on_packet f s >>= λ (g, t). process on_packet (extend g bytes) t)
  unfolding process continue_with
  process-extend zero f s bytes k small = absurd (omega arith)
  process-extend (suc n) f s bytes k small =
      process_step (extend f bytes) s
      ∙ go (frame_step f) (frame_step-Shrinks f) (frame_step-Extended f bytes small)
          (λ g t l. process-extend n g t bytes (omega arith) (omega arith))
      ∙ sym (ap (λ r. r >>= rest) (process_step f s))
    where
      rest : Frame × S → Run (Frame × S)
      rest (g, t) = process on_packet (extend g bytes) t

      go :
          (r : Step)
          → Shrinks f r
          → Extended f bytes r
          → ((g : Frame) (t : S)
              → length g.readahead < length f.readahead
              → process on_packet (extend g bytes) t ≡ (process on_packet g t >>= rest))
          → continue_with on_packet (process on_packet) s (frame_step (extend f bytes))
            ≡ (continue_with on_packet (process on_packet) s r >>= rest)
      go no_size i e l = rw e
      go (waits g) i e l = rw e (sym (process_step (extend g bytes) s))
      go (packet x g) i e l =
          rw e (bind_cong (on_packet s x) _ _ (λ t. l g t i) ∙ sym (>>=_assoc (on_packet s x) _ _))

  -- While fewer than 2 GiB are buffered, two reads of bytes that arrive one after the other have
  -- together the result of one read of them all: the same packets are handled in the same order, the
  -- same frame is left, and the process dies in the same cases.
  pub receive-append :
      (f : Frame) (s : S) (a b : Str)
      → (is_empty a ≡ false)
      → length f.readahead + length a + length b < 2 ^ 31
      → receive on_packet f s (a ++ b)
        ≡ (receive on_packet f s a >>= λ (g, t). receive on_packet g t b)
  unfolding receive
  receive-append f s [] b h small = cc
  receive-append f s (x ∷ a) [] h small =
      rw append-nil (sym (bind_done (process on_packet (extend f (x ∷ a)) s)))
    where
      bind_done : (m : Run (Frame × S)) → (m >>= λ (g, t). done (g, t)) ≡ m
      bind_done (done (g, t)) = refl
      bind_done (dies d) = refl
      bind_done out_of_fuel = refl
  receive-append f s (x ∷ a) (y ∷ b) h small = rw (← append_assoc f.readahead (x ∷ a) (y ∷ b)) (
      process-extend _ (extend f (x ∷ a)) s (y ∷ b) (le_refl (suc (length (f.readahead ++ x ∷ a))))
        (omega (arith, length-append f.readahead (x ∷ a))))

  -- The loop always has fuel enough: it ends after finitely many packets, if handling one does.
  pub receive-Ends :
      ((s : S) (x : Str) → Ends (on_packet s x))
      → (f : Frame) (s : S) (bytes : Str) → Ends (receive on_packet f s bytes)
  unfolding receive process
  receive-Ends h f s [] = tt
  receive-Ends h f s (x ∷ bytes) =
      drain-Ends h _ (extend f (x ∷ bytes)) s (le_refl (suc (length (f.readahead ++ x ∷ bytes))))
