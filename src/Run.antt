-- ===== src/Run.antt =====
-- How a run of the bot's code ends: with a value, or by the death of the process. A loop on fuel
-- has a third end, which the theorems on the loops exclude.
use dazeus_core.Base.{◌≡◌, refl, Bool, true, false, if◌then◌else◌}

pub data Death : Type 0 where
  assert_failed uncaught_exception undefined_behaviour : Death

pub data Run {ℓ} (A : Type ℓ) : Type ℓ where
  done : A → Run A
  dies : Death → Run A
  out_of_fuel : Run A

infixl 5 ◌>>=◌
abbrev pub ◌>>=◌ {ℓ κ} : {A : Type ℓ} {B : Type κ} → Run A → (A → Run B) → Run B
done a >>= f = f a
dies d >>= f = dies d
out_of_fuel >>= f = out_of_fuel

pub >>=_assoc {ℓ κ μ} :
    {A : Type ℓ} {B : Type κ} {C : Type μ} (m : Run A) (f : A → Run B) (g : B → Run C)
    → ((m >>= f) >>= g) ≡ (m >>= λ a. f a >>= g)
>>=_assoc (done a) f g = refl
>>=_assoc (dies d) f g = refl
>>=_assoc out_of_fuel f g = refl

-- The loop had enough fuel.
abbrev pub Ends {ℓ} : {A : Type ℓ} → Run A → Type 0
Ends out_of_fuel = ⊥
Ends _ = Unit

-- there is none
pub data NoValue {κ} : Type κ where

-- A run that gives a value gives one with `P`, and it does not run out of fuel.
abbrev pub Yields {ℓ κ} : {A : Type ℓ} → (A → Type κ) → Run A → Type κ
Yields P (done a) = P a
Yields P (dies d) = Unit
Yields P out_of_fuel = NoValue

pub Yields-bind {ℓ κ μ ν} :
    {A : Type ℓ} {B : Type κ} (P : A → Type μ) (Q : B → Type ν) (m : Run A) (f : A → Run B)
    → Yields P m
    → ((a : A) → P a → Yields Q (f a))
    → Yields Q (m >>= f)
Yields-bind P Q (done a) f h k = k a h
Yields-bind P Q (dies d) f h k = tt
Yields-bind P Q out_of_fuel f h k = elim h [ ]

-- A run that gives a value, with `P`: it neither dies nor runs out of fuel.
pub data Gives {ℓ κ} {A : Type ℓ} (P : A → Type κ) : Run A → Type (ℓ ⊔ κ) where
  gives : {a : A} → P a → Gives P (done a)

pub Gives-bind {ℓ κ μ ν} :
    {A : Type ℓ} {B : Type κ} {P : A → Type μ} {Q : B → Type ν} {m : Run A} {f : A → Run B}
    → Gives P m
    → ((a : A) → P a → Gives Q (f a))
    → Gives Q (m >>= f)
Gives-bind (gives h) k = k _ h

pub Gives-if {ℓ κ} :
    {A : Type ℓ} {P : A → Type κ} {m n : Run A} (b : Bool)
    → (b ≡ true → Gives P m)
    → (b ≡ false → Gives P n)
    → Gives P (if b then m else n)
Gives-if true h k = h refl
Gives-if false h k = k refl

pub Gives-done {ℓ κ} : {A : Type ℓ} {P : A → Type κ} {a : A} → Gives P (done a) → P a
Gives-done (gives h) = h

pub Gives-mono {ℓ κ μ} :
    {A : Type ℓ} {P : A → Type κ} {Q : A → Type μ} {m : Run A}
    → Gives P m
    → ((a : A) → P a → Q a)
    → Gives Q m
Gives-mono (gives h) k = gives (k _ h)

pub Yields-Gives_bind {ℓ κ μ ν} :
    {A : Type ℓ} {B : Type κ} {P : A → Type μ} (Q : B → Type ν) {m : Run A} (f : A → Run B)
    → Gives P m
    → ((a : A) → P a → Yields Q (f a))
    → Yields Q (m >>= f)
Yields-Gives_bind Q f (gives h) k = k _ h

pub Yields-if {ℓ κ} :
    {A : Type ℓ} (P : A → Type κ) (b : Bool) (m n : Run A)
    → (b ≡ true → Yields P m)
    → (b ≡ false → Yields P n)
    → Yields P (if b then m else n)
Yields-if P true m n h k = h refl
Yields-if P false m n h k = k refl

pub Yields-mono {ℓ κ μ} :
    {A : Type ℓ} (P : A → Type κ) (Q : A → Type μ) (m : Run A)
    → Yields P m
    → ((a : A) → P a → Q a)
    → Yields Q m
Yields-mono P Q (done a) h k = k a h
Yields-mono P Q (dies d) h k = tt
Yields-mono P Q out_of_fuel h k = elim h [ ]

-- A run that ends, whatever it gives.
abbrev pub Stops {ℓ} : {A : Type ℓ} → Run A → Type 0
Stops m = Yields (λ a. Unit {0}) m

pub Stops-bind {ℓ κ} :
    {A : Type ℓ} {B : Type κ} (m : Run A) (f : A → Run B)
    → Stops m
    → ((a : A) → Stops (f a))
    → Stops (m >>= f)
Stops-bind m f h k = Yields-bind (λ a. Unit {0}) (λ b. Unit {0}) m f h (λ a _. k a)

pub Stops-Yields {ℓ κ} : {A : Type ℓ} (P : A → Type κ) (m : Run A) → Yields P m → Stops m
Stops-Yields P m h = Yields-mono P (λ a. Unit {0}) m h (λ a p. tt)

pub Stops-Ends {ℓ} : {A : Type ℓ} (m : Run A) → Stops m → Ends m
Stops-Ends (done a) h = tt
Stops-Ends (dies d) h = tt
Stops-Ends out_of_fuel h = elim h [ ]

pub Ends-Stops {ℓ} : {A : Type ℓ} (m : Run A) → Ends m → Stops m
Ends-Stops (done a) h = tt
Ends-Stops (dies d) h = tt
Ends-Stops out_of_fuel h = absurd h

-- A run that ends gives the value that it gives.
pub Stops-done {ℓ} : {A : Type ℓ} (m : Run A) → Stops m → Yields (λ a. m ≡ done a) m
Stops-done (done a) h = refl
Stops-done (dies d) h = tt
Stops-done out_of_fuel h = elim h [ ]

-- A run that ends with a value with `P`, or by a death with `Q`.
pub data EndsWith {ℓ κ μ} {A : Type ℓ} (P : A → Type κ) (Q : Death → Type μ)
    : Run A → Type (ℓ ⊔ κ ⊔ μ) where
  returned : {a : A} → P a → EndsWith P Q (done a)
  died : {d : Death} → Q d → EndsWith P Q (dies d)

pub EndsWith-bind {ℓ κ μ ν o} :
    {A : Type ℓ} {B : Type κ} {P : A → Type μ} {R : B → Type ν} {Q : Death → Type o} {m : Run A}
    {f : A → Run B}
    → EndsWith P Q m
    → ((a : A) → P a → EndsWith R Q (f a))
    → EndsWith R Q (m >>= f)
EndsWith-bind (returned h) k = k _ h
EndsWith-bind (died h) k = died h

pub EndsWith-if {ℓ κ μ} :
    {A : Type ℓ} {P : A → Type κ} {Q : Death → Type μ} {m n : Run A} (b : Bool)
    → (b ≡ true → EndsWith P Q m)
    → (b ≡ false → EndsWith P Q n)
    → EndsWith P Q (if b then m else n)
EndsWith-if true h k = h refl
EndsWith-if false h k = k refl

pub EndsWith-mono {ℓ κ μ ν o} :
    {A : Type ℓ} {P : A → Type κ} {R : A → Type μ} {Q : Death → Type ν} {S : Death → Type o}
    {m : Run A}
    → EndsWith P Q m
    → ((a : A) → P a → R a)
    → ((d : Death) → Q d → S d)
    → EndsWith R S m
EndsWith-mono (returned h) k l = returned (k _ h)
EndsWith-mono (died h) k l = died (l _ h)

pub EndsWith-Yields {ℓ κ μ} :
    {A : Type ℓ} {P : A → Type κ} {Q : Death → Type μ} {m : Run A} → EndsWith P Q m → Yields P m
EndsWith-Yields (returned h) = h
EndsWith-Yields (died h) = tt

-- A run that ends with a value gives the value that it gives.
pub EndsWith-self {ℓ κ μ} :
    {A : Type ℓ} {P : A → Type κ} {Q : Death → Type μ} {m : Run A}
    → EndsWith P Q m
    → EndsWith (λ a. m ≡ done a) Q m
EndsWith-self (returned h) = returned refl
EndsWith-self (died h) = died h

pub Ends-EndsWith {ℓ} :
    {A : Type ℓ} (m : Run A) → Ends m → EndsWith (λ a. m ≡ done a) (λ d. m ≡ dies d) m
Ends-EndsWith (done a) h = returned refl
Ends-EndsWith (dies d) h = died refl
Ends-EndsWith out_of_fuel h = absurd h

pub EndsWith-both {ℓ κ μ ν} :
    {A : Type ℓ} {P : A → Type κ} {R : A → Type μ} {Q : Death → Type ν} {m : Run A}
    → EndsWith P Q m
    → EndsWith R Q m
    → EndsWith (λ a. P a × R a) Q m
EndsWith-both (returned h) (returned k) = returned (h, k)
EndsWith-both (died h) k = died h
