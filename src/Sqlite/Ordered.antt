-- ===== src/Sqlite/Ordered.antt =====
-- The greatest row of an order that looks at one property of the rows first.
use dazeus_core.Base.{
  ◌≡◌, refl, ◌∙◌, Bool, true, false, not, ◌&&◌, ◌||◌, List, [], ◌∷◌, Option, none, some, All, arith,
  if◌then◌else◌, Bool-cases, inl, inr,
}
use dazeus_core.Sqlite.Rows.{keep, greatest}

abbrev pub or_else {ℓ} : {A : Type ℓ} → Option A → Option A → Option A
or_else none o = o
or_else (some a) o = some a

module _ {A : Type 0} where
  abbrev pub Holds : (A → Bool) → A → Type 0
  Holds p x = p x ≡ true

  pub keep-Holds : (p : A → Bool) (xs : List A) → All (Holds p) (keep p xs)
  unfolding keep
  keep-Holds p [] = tt
  keep-Holds p (x ∷ xs) = elim (Bool-cases (p x)) [
    | inl in_it ↦ rw in_it (in_it, keep-Holds p xs)
    | inr out ↦ rw out (keep-Holds p xs)
  ]

  pub keep-All : (P : A → Type 0) (p : A → Bool) (xs : List A) → All P xs → All P (keep p xs)
  unfolding keep
  keep-All P p [] h = tt
  keep-All P p (x ∷ xs) h = elim (Bool-cases (p x)) [
    | inl in_it ↦ rw in_it (h.0, keep-All P p xs h.1)
    | inr out ↦ rw out (keep-All P p xs h.1)
  ]

  -- what the rows share, the greatest one has
  AllOf : (A → Type 0) → Option A → Type 0
  AllOf P none = Unit
  AllOf P (some x) = P x

  greatest-All :
      (P : A → Type 0) (lt : A → A → Bool) (xs : List A) → All P xs → AllOf P (greatest lt xs)
  unfolding greatest AllOf
  greatest-All P lt [] h = tt
  greatest-All P lt (x ∷ xs) h = pick (greatest lt xs) (greatest-All P lt xs h.1)
    where
      pick :
          (o : Option A)
          → AllOf P o
          → AllOf P (elim o [ none ↦ some x | some y ↦ some (if lt x y then y else x) ])
      pick none k = h.0
      pick (some y) k = elim (Bool-cases (lt x y)) [ inl less ↦ rw less k | inr more ↦ rw more h.0 ]

  -- the greatest of a row and what is the greatest of two groups
  pick_of_two :
      (P : A → Type 0) (x : A) (b lt inner : A → Bool) (o q : Option A) (bx : Bool)
      → AllOf P o
      → AllOf P q
      → AllOf (Holds b) o
      → AllOf (Holds (λ y. not (b y))) q
      → ((y : A) → P y → lt y ≡ (if bx then b y && inner y else b y || inner y))
      → elim (or_else o q) [ none ↦ some x | some y ↦ some (if lt y then y else x) ]
        ≡ or_else
            (if bx then elim o [ none ↦ some x | some y ↦ some (if inner y then y else x) ] else o)
            (if bx then q else elim q [ none ↦ some x | some y ↦ some (if inner y then y else x) ])
  unfolding AllOf
  pick_of_two P x b lt inner none none true po pq ho hq e = refl
  pick_of_two P x b lt inner none none false po pq ho hq e = refl
  pick_of_two P x b lt inner (some y) q true po pq ho hq e = ground (arith, e y po)
  pick_of_two P x b lt inner (some y) q false po pq ho hq e = ground (arith, e y po)
  pick_of_two P x b lt inner none (some y) true po pq ho hq e = ground (arith, e y pq)
  pick_of_two P x b lt inner none (some y) false po pq ho hq e = ground (arith, e y pq)

  join_groups :
      (lt : A → A → Bool) (x : A) (us vs : List A) (c : Bool)
      → or_else
          (if c
            then elim (greatest lt us) [ none ↦ some x | some y ↦ some (if lt x y then y else x) ]
            else greatest lt us)
          (if c
            then greatest lt vs
            else elim (greatest lt vs) [ none ↦ some x | some y ↦ some (if lt x y then y else x) ])
        ≡ or_else
            (greatest lt (if c then x ∷ us else us))
            (greatest lt (if not c then x ∷ vs else vs))
  unfolding greatest
  join_groups lt x us vs true = refl
  join_groups lt x us vs false = refl

  keep-cons :
      (p : A → Bool) (x : A) (xs : List A)
      → keep p (x ∷ xs) ≡ (if p x then x ∷ keep p xs else keep p xs)
  unfolding keep
  keep-cons p x xs = refl

  -- If the order looks at `b` first, and at `inner` where that does not decide, the greatest row is
  -- the greatest of those with `b`, or, if there is none, of the others.
  pub greatest-split :
      (P : A → Type 0) (b : A → Bool) (lt inner : A → A → Bool)
      → ((x y : A) → P x → P y → lt x y ≡ (if b x then b y && inner x y else b y || inner x y))
      → (xs : List A) → All P xs
      → greatest lt xs
        ≡ or_else (greatest inner (keep b xs)) (greatest inner (keep (λ y. not (b y)) xs))
  unfolding greatest
  greatest-split P b lt inner e [] h = unfold keep in refl
  greatest-split P b lt inner e (x ∷ xs) h =
      let o = greatest inner (keep b xs) in
      let q = greatest inner (keep (λ y. not (b y)) xs) in
      rw (greatest-split P b lt inner e xs h.1, keep-cons b x xs, keep-cons (λ y. not (b y)) x xs)
        (pick_of_two P x b (lt x) (inner x) o q (b x) (greatest-All P inner _ (keep-All P b xs h.1))
            (greatest-All P inner _ (keep-All P (λ y. not (b y)) xs h.1))
            (greatest-All (Holds b) inner _ (keep-Holds b xs))
            (greatest-All (Holds (λ y. not (b y))) inner _ (keep-Holds (λ y. not (b y)) xs))
            (λ y p. e x y h.0 p)
          ∙ join_groups inner x (keep b xs) (keep (λ y. not (b y)) xs) (b x))

  -- orders that agree on the rows have the same greatest one
  pub greatest-agree :
      (P : A → Type 0) (lt lt' : A → A → Bool)
      → ((x y : A) → P x → P y → lt x y ≡ lt' x y)
      → (xs : List A) → All P xs
      → greatest lt xs ≡ greatest lt' xs
  unfolding greatest
  greatest-agree P lt lt' e [] h = refl
  greatest-agree P lt lt' e (x ∷ xs) h =
      rw (greatest-agree P lt lt' e xs h.1) (pick (greatest lt' xs) (greatest-All P lt' xs h.1))
    where
      pick :
          (o : Option A)
          → AllOf P o
          → elim o [ none ↦ some x | some y ↦ some (if lt x y then y else x) ]
            ≡ elim o [ none ↦ some x | some y ↦ some (if lt' x y then y else x) ]
      pick none k = refl
      pick (some y) k = rw (e x y h.0 (unfold AllOf in k)) refl

  -- the first row with a property
  unfoldable pub first : (A → Bool) → List A → Option A
  first p [] = none
  first p (x ∷ xs) = if p x then some x else first p xs

  pub keep-keep : (p q : A → Bool) (xs : List A) → keep p (keep q xs) ≡ keep (λ x. q x && p x) xs
  unfolding keep
  keep-keep p q [] = refl
  keep-keep p q (x ∷ xs) = elim (Bool-cases (q x)) [
    | inl t ↦ rw t (rw (keep-cons p x (keep q xs), keep-keep p q xs) refl)
    | inr f ↦ rw f (keep-keep p q xs)
  ]

  -- where the order does not decide, the first row is taken
  pub greatest-first :
      (p : A → Bool) (xs : List A) → greatest (λ x y. false) (keep p xs) ≡ first p xs
  unfolding greatest keep first
  greatest-first p [] = refl
  greatest-first p (x ∷ xs) = elim (Bool-cases (p x)) [
    | inl t ↦ rw t (alone (greatest (λ x y. false) (keep p xs)))
    | inr f ↦ rw f (greatest-first p xs)
  ]
    where
      alone : (o : Option A) → elim o [ none ↦ some x | some y ↦ some x ] ≡ some x
      alone none = refl
      alone (some y) = refl

  pub first-false : (xs : List A) → first (λ x. false) xs ≡ none
  unfolding first
  first-false [] = refl
  first-false (x ∷ xs) = first-false xs
