-- ===== src/Engine/Position/Shape.antt =====
-- The well-formedness of the open position, and that every fill preserves it (engine.py, `_fill`).
use Prim.Native.Nat.{min}
use power_bridge.Base.{
  ℕ, ◌+◌, ◌-◌, ◌≤◌, ◌<◌, ◌≡◌, refl, ◌⊎◌, true, false, List, [], ◌∷◌, arith, ltb, ◌==◌, Bool-cases,
  inl, inr, length, replicate, total, All, All-append, length-append, length-replicate, length-drop,
  total-append,
}
use mathlib.Core.Bool.{true≢false}
use power_bridge.Float.{Float}
use power_bridge.Engine.State.{
  MarketPosition, flat, long, short, Action, buy, sellshort, sell, buytocover, other, Position,
  FillEngine, is_flat,
}
use power_bridge.Engine.Trades.{FillContext}
use power_bridge.Engine.Position.{
  enter, reset_flat, reduce, with_average, open_or_add_long, open_or_add_short, close_long_fifo,
  close_short, fill,
}
use power_bridge.Engine.Position.Fifo.{consume_entry_qtys-IsLeft}

module _ {W : Type 0} where
  -- An open position: a price for each contract, entries that add up to the contracts, a label for
  -- each, and maxima that are not below the present size.
  pub record IsOpen (p : Position W) : Type 0 where
    pub some_contracts : 0 < p.contracts
    pub prices : length p.entry_prices ≡ p.contracts
    pub sizes : total p.entry_qtys ≡ p.contracts
    pub named : length p.entry_labels ≡ length p.entry_qtys
    pub positive : All (λ q. 0 < q) p.entry_qtys
    pub peak : p.contracts ≤ p.max_contracts
    pub counted : length p.entry_qtys ≤ p.entries

  abbrev pub Shape : MarketPosition → Position W → Type 0
  Shape flat p = (p.contracts ≡ 0) × (p.entry_prices ≡ [])
  Shape long p = IsOpen p
  Shape short p = IsOpen p

  -- Flat with no contracts, or open.
  abbrev pub IsConsistent : Position W → Type 0
  IsConsistent p = Shape p.market_position p

module _ {W : Type 0} ⦃fl : Float W⦄ where
  pub reset_flat-IsConsistent : (p : Position W) → IsConsistent (reset_flat p)
  unfolding reset_flat
  reset_flat-IsConsistent p = (refl, refl)

  -- What an entry may stand on: an open position of the same side, or none.
  abbrev Ready : Position W → Type 0
  Ready p = ((p.contracts ≡ 0) × (p.entry_prices ≡ [])) ⊎ IsOpen p

  enter-IsOpen :
      (side : MarketPosition) (qty : ℕ) (price average : W) (ctx : FillContext) (p : Position W)
      → 0 < qty
      → Ready p
      → IsOpen (enter side qty price average ctx p)
  unfolding enter
  enter-IsOpen side qty price average ctx p h (inl (none_held, no_prices)) =
      let first : ((p.contracts + qty) == qty) ≡ true = ground arith in
      rw first (record {
        some_contracts = omega arith;
        prices = rw no_prices (omega (arith, length-replicate qty price));
        sizes = omega arith;
        named = refl;
        positive = (h, tt);
        peak = omega arith;
        counted = omega arith;
      })
  enter-IsOpen side qty price average ctx p h (inr o) =
      let more : ((p.contracts + qty) == qty) ≡ false = ground (arith, o.some_contracts) in
      rw more (record {
        some_contracts = omega arith;
        prices = omega (
          arith,
          o.prices,
          length-append p.entry_prices (replicate qty price),
          length-replicate qty price,
        );
        sizes = omega (arith, o.sizes, total-append p.entry_qtys (qty ∷ []));
        named = omega (
          arith,
          o.named,
          length-append p.entry_labels (ctx.name ∷ []),
          length-append p.entry_qtys (qty ∷ []),
        );
        positive = All-append (λ q. 0 < q) p.entry_qtys (qty ∷ []) o.positive (h, tt);
        peak = omega arith;
        counted = omega (arith, o.counted, length-append p.entry_qtys (qty ∷ []));
      })

  with_average-IsOpen : (xs : List W) (p : Position W) → IsOpen p → IsOpen (with_average xs p)
  with_average-IsOpen [] p o = o
  with_average-IsOpen (x ∷ xs) p o = record {
    some_contracts = o.some_contracts;
    prices = o.prices;
    sizes = o.sizes;
    named = o.named;
    positive = o.positive;
    peak = o.peak;
    counted = o.counted;
  }

  pub market_position-with_average :
      (xs : List W) (p : Position W) → (with_average xs p).market_position ≡ p.market_position
  market_position-with_average [] p = refl
  market_position-with_average (x ∷ xs) p = refl

  pub contracts-with_average :
      (xs : List W) (p : Position W) → (with_average xs p).contracts ≡ p.contracts
  contracts-with_average [] p = refl
  contracts-with_average (x ∷ xs) p = refl

  -- An exit of part of a position leaves an open position.
  reduce-IsOpen :
      (closed : ℕ) (pnl : W) (p : Position W)
      → IsOpen p
      → closed < p.contracts
      → IsOpen (reduce closed pnl p)
  unfolding reduce
  reduce-IsOpen closed pnl p o h =
      let left = consume_entry_qtys-IsLeft closed p.entry_qtys p.entry_labels o.named o.positive in
      record {
        some_contracts = omega arith;
        prices = omega (arith, o.prices, length-drop closed p.entry_prices);
        sizes = omega (arith, o.sizes, left.size);
        named = left.named;
        positive = left.positive;
        peak = omega arith;
        counted = omega (arith, o.counted, left.fewer);
      }

  Shape-IsOpen : (m : MarketPosition) (p : Position W) → is_flat m ≡ false → IsOpen p → Shape m p
  Shape-IsOpen flat p e o = absurd (true≢false e)
  Shape-IsOpen long p e o = o
  Shape-IsOpen short p e o = o

  with_average-IsConsistent :
      (xs : List W) (p : Position W)
      → p.market_position ≡ long
      → IsOpen p
      → IsConsistent (with_average xs p)
  with_average-IsConsistent xs p is o =
      Shape-IsOpen (with_average xs p).market_position (with_average xs p)
        (rw (market_position-with_average xs p, is) refl) (with_average-IsOpen xs p o)

  close_long_fifo-IsConsistent :
      (qty : ℕ) (price : W) (ctx : FillContext) (e : FillEngine W)
      → (e.position).market_position ≡ long
      → IsOpen e.position
      → IsConsistent (close_long_fifo qty price ctx e).position
  unfolding close_long_fifo
  close_long_fifo-IsConsistent qty price ctx e is o =
      let p = e.position in
      elim (Bool-cases (ltb 0 (p.contracts - min qty p.contracts))) [
        | inl some_left ↦ rw some_left (
            with_average-IsConsistent _ _ is
              (reduce-IsOpen (min qty p.contracts) _ p o (ground arith)))
        | inr none_left ↦ rw none_left (refl, refl)
      ]

  close_short-IsConsistent :
      (price : W) (ctx : FillContext) (e : FillEngine W)
      → IsConsistent (close_short price ctx e).position
  unfolding close_short
  close_short-IsConsistent price ctx e = (refl, refl)

  pub market_position-enter :
      (side : MarketPosition) (qty : ℕ) (price average : W) (ctx : FillContext) (p : Position W)
      → (enter side qty price average ctx p).market_position ≡ side
  unfolding enter
  market_position-enter side qty price average ctx p =
      elim (Bool-cases ((p.contracts + qty) == qty)) [ inl e ↦ rw e | inr e ↦ rw e ]

  pub contracts-enter :
      (side : MarketPosition) (qty : ℕ) (price average : W) (ctx : FillContext) (p : Position W)
      → (enter side qty price average ctx p).contracts ≡ p.contracts + qty
  unfolding enter
  contracts-enter side qty price average ctx p = elim (Bool-cases ((p.contracts + qty) == qty)) [
    | inl e ↦ rw e
    | inr e ↦ rw e
  ]

  enter-IsConsistent :
      (side : MarketPosition) (qty : ℕ) (price average : W) (ctx : FillContext) (p : Position W)
      → is_flat side ≡ false
      → 0 < qty
      → Ready p
      → IsConsistent (enter side qty price average ctx p)
  enter-IsConsistent side qty price average ctx p some_side h r =
      Shape-IsOpen _ _ (rw (market_position-enter side qty price average ctx p) some_side)
        (enter-IsOpen side qty price average ctx p h r)

  open_or_add_long-IsConsistent :
      (qty : ℕ) (price : W) (ctx : FillContext) (e : FillEngine W)
      → 0 < qty
      → Ready e.position
      → IsConsistent (open_or_add_long qty price ctx e).position
  unfolding open_or_add_long
  open_or_add_long-IsConsistent qty price ctx e h r = enter-IsConsistent long qty _ _ ctx _ refl h r

  open_or_add_short-IsConsistent :
      (qty : ℕ) (price : W) (ctx : FillContext) (e : FillEngine W)
      → 0 < qty
      → Ready e.position
      → IsConsistent (open_or_add_short qty price ctx e).position
  unfolding open_or_add_short
  open_or_add_short-IsConsistent qty price ctx e h r =
      enter-IsConsistent short qty _ _ ctx _ refl h r

  -- Closing all of a long leaves no contract and no price.
  pub close_all_long :
      (qty : ℕ) (price : W) (ctx : FillContext) (e : FillEngine W)
      → (e.position).contracts ≤ qty
      → let p = (close_long_fifo qty price ctx e).position in
        (p.market_position ≡ flat) × (p.contracts ≡ 0) × (p.entry_prices ≡ [])
  unfolding close_long_fifo
  close_all_long qty price ctx e h =
      let p = e.position in
      let none_left : ltb 0 (p.contracts - min qty p.contracts) ≡ false = ground arith in
      rw none_left (refl, refl, refl)

  pub close_all_short :
      (price : W) (ctx : FillContext) (e : FillEngine W)
      → let p = (close_short price ctx e).position in
        (p.market_position ≡ flat) × (p.contracts ≡ 0) × (p.entry_prices ≡ [])
  unfolding close_short
  close_all_short price ctx e = (refl, refl, refl)

  pub Shape-cases :
      (p : Position W)
      → IsConsistent p
      → ((p.market_position ≡ flat) × (p.contracts ≡ 0) × (p.entry_prices ≡ []))
        ⊎ ((p.market_position ≡ long) × IsOpen p)
        ⊎ ((p.market_position ≡ short) × IsOpen p)
  Shape-cases p c = go p.market_position refl c
    where
      go :
          (m : MarketPosition)
          → p.market_position ≡ m
          → Shape m p
          → ((p.market_position ≡ flat) × (p.contracts ≡ 0) × (p.entry_prices ≡ []))
            ⊎ ((p.market_position ≡ long) × IsOpen p)
            ⊎ ((p.market_position ≡ short) × IsOpen p)
      go flat e (c, l) = inl (e, c, l)
      go long e o = inr (inl (e, o))
      go short e o = inr (inr (e, o))

  -- A fill of at least one contract leaves a well-formed position well formed, whatever the verb:
  -- flat with no contracts and no entry prices, or open with a price for each contract, entries that
  -- add up to the contracts, a label for each entry and no empty entry.
  pub fill-IsConsistent :
      (a : Action) (qty : ℕ) (price : W) (ctx : FillContext) (e : FillEngine W)
      → IsConsistent e.position
      → 0 < qty
      → IsConsistent (fill a qty price ctx e).position
  unfolding fill
  fill-IsConsistent buy qty price ctx e c h = elim (Shape-cases e.position c) [
    | inl (m, n, l) ↦ simp m (open_or_add_long-IsConsistent qty price ctx e h (inl (n, l)))
    | inr (inl (m, o)) ↦ simp m (open_or_add_long-IsConsistent qty price ctx e h (inr o))
    | inr (inr (m, o)) ↦
        let closed = close_all_short price ctx e in
        simp m (
          open_or_add_long-IsConsistent qty price ctx (close_short price ctx e) h
            (inl (closed.1, closed.2)))
  ]
  fill-IsConsistent sellshort qty price ctx e c h = elim (Shape-cases e.position c) [
    | inl (m, n, l) ↦ simp m (open_or_add_short-IsConsistent qty price ctx e h (inl (n, l)))
    | inr (inl (m, o)) ↦
        let closed = close_all_long (e.position).contracts price ctx e (omega arith) in
        simp m (
          open_or_add_short-IsConsistent qty price ctx
            (close_long_fifo (e.position).contracts price ctx e) h (inl (closed.1, closed.2)))
    | inr (inr (m, o)) ↦ simp m (open_or_add_short-IsConsistent qty price ctx e h (inr o))
  ]
  fill-IsConsistent sell qty price ctx e c h = elim (Shape-cases e.position c) [
    | inl (m, n, l) ↦ simp m (n, l)
    | inr (inl (m, o)) ↦ simp m (close_long_fifo-IsConsistent qty price ctx e m o)
    | inr (inr (m, o)) ↦ simp m o
  ]
  fill-IsConsistent buytocover qty price ctx e c h = elim (Shape-cases e.position c) [
    | inl (m, n, l) ↦ simp m (n, l)
    | inr (inl (m, o)) ↦ simp m o
    | inr (inr (m, o)) ↦ simp m (close_short-IsConsistent price ctx e)
  ]
  fill-IsConsistent other qty price ctx e c h = c
