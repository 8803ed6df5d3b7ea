-- ===== src/Engine/Invariant/Outcomes.antt =====
-- What a step promises of the outcome that it gives (engine.py), and the sizes of orders that no fill
-- fails on.
use power_bridge.Base.{
  ℕ, ◌<◌, ◌≡◌, refl, Bool, true, false, ◌&&◌, arith, Bool-cases, inl, inr, if◌then◌else◌, List, [],
  ◌∷◌, ℤ, pos, negsuc, ltb, leb, filterb, All, Option, none, some,
}
use power_bridge.Float.{Float, ◌≼◌}
use power_bridge.Engine.State.{
  Action, buy, sellshort, sell, buytocover, other, Size, zero_size, truncates_to, not_finite, Order,
  OnClose, FillEngine,
}
use power_bridge.Engine.Position.{divides_by_zero}
use power_bridge.Engine.Stops.{Bar}
use power_bridge.Engine.Outcomes.{Outcome, done, unverified, failed, ◌>>=◌, int_or}
use power_bridge.Engine.Orders.{
  insert_by, sort_by, reached, candidate, candidates, waits_for_low, is_next, is_conditional,
  order_price, Candidate,
}
use power_bridge.Engine.Invariant.Fills.{IsSound}

-- A claim about the engine that a step leaves, if it is not stopped by an unverified exit.
abbrev pub Ensures : {A : Type 0} → (A → Type 0) → Outcome A → Type 0
Ensures P (done a) = P a
Ensures P (unverified v n) = Unit
Ensures P (failed x) = Unit

pub Ensures-bind :
    {A B : Type 0} (P : A → Type 0) (Q : B → Type 0) (m : Outcome A) (f : A → Outcome B)
    → Ensures P m
    → ((a : A) → P a → Ensures Q (f a))
    → Ensures Q (m >>= f)
Ensures-bind P Q (done a) f h k = k a h
Ensures-bind P Q (unverified v n) f h k = tt
Ensures-bind P Q (failed x) f h k = tt

-- The same, and no size fails.
abbrev pub Yields : {A : Type 0} → (A → Type 0) → Outcome A → Type 0
Yields P (done a) = P a
Yields P (unverified v n) = Unit
Yields P (failed x) = ⊥

pub Yields-bind :
    {A B : Type 0} (P : A → Type 0) (Q : B → Type 0) (m : Outcome A) (f : A → Outcome B)
    → Yields P m
    → ((a : A) → P a → Yields Q (f a))
    → Yields Q (m >>= f)
Yields-bind P Q (done a) f h k = k a h
Yields-bind P Q (unverified v n) f h k = tt
Yields-bind P Q (failed x) f h k = elim h [ ]

-- The same, and no exit stops it: it is done.
abbrev pub Returns : {A : Type 0} → (A → Type 0) → Outcome A → Type 0
Returns P (done a) = P a
Returns P (unverified v n) = ⊥
Returns P (failed x) = ⊥

pub Returns-bind :
    {A B : Type 0} (P : A → Type 0) (Q : B → Type 0) (m : Outcome A) (f : A → Outcome B)
    → Returns P m
    → ((a : A) → P a → Returns Q (f a))
    → Returns Q (m >>= f)
Returns-bind P Q (done a) f h k = k a h
Returns-bind P Q (unverified v n) f h k = elim h [ ]
Returns-bind P Q (failed x) f h k = elim h [ ]

-- A size that fills at least one contract, or none, which the engine makes at least one.
abbrev pub is_sized : Size → Bool
is_sized zero_size = true
is_sized (truncates_to (pos n)) = ltb 0 n
is_sized (truncates_to (negsuc n)) = false
is_sized not_finite = false

abbrev pub IsPositive : ℤ → Type 0
IsPositive (pos n) = 0 < n
IsPositive (negsuc n) = ⊥

pub int_or-IsPositive :
    (unsized : ℕ) (s : Size)
    → 0 < unsized
    → is_sized s ≡ true
    → Yields IsPositive (int_or unsized s)
int_or-IsPositive unsized zero_size h e = h
int_or-IsPositive unsized (truncates_to (pos n)) h e = ground arith
int_or-IsPositive unsized (truncates_to (negsuc n)) h e = cc
int_or-IsPositive unsized not_finite h e = cc

pub divides_by_zero-sized :
    {W : Type 0} (a : Action) (qty : ℕ) (e : FillEngine W)
    → 0 < qty
    → divides_by_zero a qty e ≡ false
divides_by_zero-sized sellshort qty e h = ground arith
divides_by_zero-sized buy qty e h = refl
divides_by_zero-sized sell qty e h = refl
divides_by_zero-sized buytocover qty e h = refl
divides_by_zero-sized other qty e h = refl

pub filterb-All :
    {A : Type 0} (P : A → Type 0) (p : A → Bool) (xs : List A) → All P xs → All P (filterb p xs)
filterb-All P p [] h = tt
filterb-All P p (x ∷ xs) (h, more) = elim (Bool-cases (p x)) [
  | inl kept ↦ simp kept (h, filterb-All P p xs more)
  | inr dropped ↦ simp dropped (filterb-All P p xs more)
]

insert_by-All :
    {A : Type 0} (P : A → Type 0) (key : A → ℕ) (x : A) (xs : List A)
    → P x
    → All P xs
    → All P (insert_by key x xs)
insert_by-All P key x [] p h = (p, tt)
insert_by-All P key x (y ∷ ys) p (q, more) = elim (Bool-cases (leb (key x) (key y))) [
  | inl first ↦ simp first (p, (q, more))
  | inr later ↦ simp later (q, insert_by-All P key x ys p more)
]

pub sort_by-All :
    {A : Type 0} (P : A → Type 0) (key : A → ℕ) (xs : List A) → All P xs → All P (sort_by key xs)
sort_by-All P key [] h = tt
sort_by-All P key (x ∷ xs) (p, more) = insert_by-All P key x _ p (sort_by-All P key xs more)

module _ {W : Type 0} where
  -- An order with such a size.
  abbrev pub IsSized : Order W → Type 0
  IsSized o = is_sized o.qty ≡ true

  abbrev pub IsSizedClose : OnClose W → Type 0
  IsSizedClose c = IsSized c.order

module _ {W : Type 0} ⦃fl : Float W⦄ where
  -- A sound engine whose queued orders have such sizes.
  pub record IsReady (e : FillEngine W) : Type 0 where
    pub sound : IsSound e
    pub queued : All IsSized e.pending_orders
    pub closing : All IsSizedClose e.onclose_pending

  abbrev IsSizedChoice : Option (Candidate W) → Type 0
  IsSizedChoice none = Unit
  IsSizedChoice (some c) = IsSized c.order

  if-IsSizedChoice :
      (b : Bool) (x : Option (Candidate W))
      → IsSizedChoice x
      → IsSizedChoice (if b then x else none)
  if-IsSizedChoice true x h = h
  if-IsSizedChoice false x h = tt

  reached-IsSized :
      (b : Bar W) (o : Order W) (price : W) → IsSized o → IsSizedChoice (reached b o price)
  unfolding reached
  reached-IsSized b o price sized = elim (Bool-cases (waits_for_low o.otype o.action)) [
    | inl low ↦ rw low (if-IsSizedChoice (b.low ≼ price) _ sized)
    | inr high ↦ rw high (if-IsSizedChoice (price ≼ b.high) _ sized)
  ]

  candidate-IsSized : (b : Bar W) (o : Order W) → IsSized o → IsSizedChoice (candidate b o)
  candidate-IsSized b o sized =
      if-IsSizedChoice (is_next o.timing && is_conditional o.otype) _ (priced (order_price o))
    where
      priced :
          (p : Option W) → IsSizedChoice (elim p [ none ↦ none | some price ↦ reached b o price ])
      priced none = tt
      priced (some price) = reached-IsSized b o price sized

  cons_choice :
      (x : Option (Candidate W)) (cs : List (Candidate W))
      → IsSizedChoice x
      → All (λ c. IsSized c.order) cs
      → All (λ c. IsSized c.order) (elim x [ none ↦ cs | some c ↦ c ∷ cs ])
  cons_choice none cs h more = more
  cons_choice (some c) cs h more = (h, more)

  pub candidates-IsSized :
      (b : Bar W) (os : List (Order W))
      → All IsSized os
      → All (λ c. IsSized c.order) (candidates b os)
  unfolding candidates
  candidates-IsSized b [] h = tt
  candidates-IsSized b (o ∷ os) (sized, more) =
      cons_choice (candidate b o) (candidates b os) (candidate-IsSized b o sized)
        (candidates-IsSized b os more)
