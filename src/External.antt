-- ===== src/External.antt =====
-- What the bot calls and does not implement: the helpers of libdazeus-irc's utils.h, and the
-- answers of its `Network` objects. Both are arguments of the definitions that use them.
use dazeus_core.Base.{ℕ, ◌≡◌, Bool, false, not, ◌&&◌, ◌||◌, List, [], ◌∷◌, ◌++◌, arith, refl}
use dazeus_core.Text.{Str, str_eq, str_eq_iff, str_eq_self}

-- Strings in a `std::vector`, by `==`.
abbrev pub member : Str → List Str → Bool
member x [] = false
member x (y ∷ ys) = str_eq x y || member x ys

pub member-append :
    (x : Str) (xs ys : List Str) → member x (xs ++ ys) ≡ (member x xs || member x ys)
member-append x [] ys = refl
member-append x (z ∷ xs) ys = ground (arith, member-append x xs ys)

abbrev pub Distinct : List Str → Type 0
Distinct [] = Unit
Distinct (x ∷ xs) = (member x xs ≡ false) × Distinct xs

pub Distinct-concat :
    (xs : List Str) (x : Str) → Distinct xs → member x xs ≡ false → Distinct (xs ++ x ∷ [])
Distinct-concat [] x d h = (refl, tt)
Distinct-concat (y ∷ ys) x d h = (
  ground (arith, member-append y ys (x ∷ []), str_eq_iff x y, str_eq_iff y x),
  Distinct-concat ys x d.1 (ground arith),
)

pub Distinct-append : (x : Str) (xs ys : List Str) → Distinct (xs ++ x ∷ ys) → member x xs ≡ false
Distinct-append x [] ys d = refl
Distinct-append x (z ∷ xs) ys d = ground (
  arith,
  str_eq_iff x z,
  str_eq_iff z x,
  member-append z xs (x ∷ ys),
  str_eq_self x,
  Distinct-append x xs ys d.1,
)

-- contrib/libdazeus-irc/src/utils.h, a submodule
pub record Utils : Type 0 where
  pub trim : Str → Str
  pub str_to_upper : Str → Str
  pub str_to_lower : Str → Str
  pub starts_with : Str → Str → Bool → Bool
  pub contains : List Str → Str → Bool
  pub contains_ci : List Str → Str → Bool
  pub erase : List Str → Str → List Str

-- What the subscriptions rely on: `contains` is membership; `erase` takes a value that stands once
-- out of a vector and leaves the other values.
pub record UtilsLaws (u : Utils) : Type 0 where
  pub contains_lem : (xs : List Str) (x : Str) → u.contains xs x ≡ member x xs
  pub member-erase :
      (xs : List Str) (x y : Str)
      → Distinct xs
      → member y (u.erase xs x) ≡ (not (str_eq y x) && member y xs)
  pub erase-Distinct : (xs : List Str) (x : Str) → Distinct xs → Distinct (u.erase xs x)

-- What the `Network` objects answer while one event is handled. A network is known by its address.
pub record Networks : Type 0 where
  pub network_name : ℕ → Str
  pub nick : ℕ → Str
  pub is_identified : ℕ → Str → Bool
  pub joined_channels : ℕ → List Str

-- The calls that the bot makes on a `Network`.
pub data NetworkCall : Type 0 where
  send_whois join_channel leave_channel names : ℕ → Str → NetworkCall
  say notice action ctcp ctcp_reply : ℕ → Str → Str → NetworkCall
