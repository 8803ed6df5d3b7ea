-- ===== src/Engine/Orders.antt =====
-- engine.py: the queues of orders, and the fills that a bar makes of them.
pub mod Prices
pub mod Cap
use text.Mathlib.Text.{◌==◌ as str_eq}
use power_bridge.Base.{
  ℕ, ◌+◌, ◌*◌, ◌-◌, Bool, true, false, not, ◌&&◌, ◌||◌, Option, none, some, List, [], ◌∷◌, String,
  ltb, leb, ◌==◌, if◌then◌else◌, length, filterb, ℤ, pos, negsuc,
}
use power_bridge.Float.{Float, ◌≼◌, ◌≺◌, ◌⊖◌, max2, min2}
use power_bridge.Engine.State.{
  Action, buy, sellshort, sell, buytocover, OrderType, market, limit, stop, Timing, next, Extra,
  number, word, Size, zero_size, truncates_to, not_finite, Order, OnClose, Position, FillEngine,
  is_flat, is_long, is_short,
}
use power_bridge.Engine.Outcomes.{
  Failure, no_int, zero_division, negative_size, Outcome, done, unverified, failed, ◌>>=◌, int_or,
  verdict,
}
use power_bridge.Engine.Trades.{FillContext}
use power_bridge.Engine.Position.{fill, divides_by_zero, signed_position}
use power_bridge.Engine.FillLog.{record_fills}
use power_bridge.Engine.Stops.{Bar}

-- `list.sort(key=...)`, which is stable.
abbrev pub insert_by {ℓ} : {A : Type ℓ} → (A → ℕ) → A → List A → List A
insert_by key x [] = x ∷ []
insert_by key x (y ∷ ys) =
    let rest = insert_by key x ys in if leb (key x) (key y) then x ∷ y ∷ ys else y ∷ rest

abbrev pub sort_by {ℓ} : {A : Type ℓ} → (A → ℕ) → List A → List A
sort_by key [] = []
sort_by key (x ∷ xs) = insert_by key x (sort_by key xs)

abbrev pub is_closing : Action → Bool
is_closing sell = true
is_closing buytocover = true
is_closing _ = false

-- `action in ('buy', 'buytocover')`
abbrev pub is_buy : Action → Bool
is_buy buy = true
is_buy buytocover = true
is_buy _ = false

abbrev pub any_other : String → List String → Bool
any_other name [] = false
any_other name (l ∷ ls) = not (str_eq l name) || any_other name ls

-- A limit or stop order that the bar's range reaches: whether the low or the high triggers it,
-- whether the open already satisfies it, and its price.
pub record Candidate (W : Type 0) : Type 0 where
  pub low_side : Bool
  pub at_open : Bool
  pub order : Order W
  pub price : W

-- A buy limit and a sell stop wait for the low; a sell limit and a buy stop for the high.
abbrev pub waits_for_low : OrderType → Action → Bool
waits_for_low limit a = is_buy a
waits_for_low _ a = not (is_buy a)

abbrev pub is_next : Timing → Bool
is_next next = true
is_next _ = false

abbrev pub is_market : OrderType → Bool
is_market market = true
is_market _ = false

abbrev pub is_conditional : OrderType → Bool
is_conditional limit = true
is_conditional stop = true
is_conditional _ = false

-- `abs(self.contracts - prev_contracts)`
abbrev pub moved : ℕ → ℕ → ℕ
moved now prev = (now - prev) + (prev - now)

module _ {W : Type 0} where
  -- `extras` without a last 'total'.
  abbrev pub without_total : List (Extra W) → List (Extra W)
  without_total [] = []
  without_total (word s ∷ []) = if str_eq s "total" then [] else word s ∷ []
  without_total (number x ∷ []) = number x ∷ []
  without_total (x ∷ y ∷ xs) = x ∷ without_total (y ∷ xs)

  abbrev pub first_text : List (Extra W) → Option String
  first_text [] = none
  first_text (word s ∷ xs) = some s
  first_text (number x ∷ xs) = first_text xs

  -- The entry that a closing order names, `from entry("X")`.
  unfoldable pub named_entry : Order W → Option String
  named_entry o = if is_closing o.action then first_text (without_total o.extras) else none

  -- `order[5]`, if it is a number.
  unfoldable pub order_price : Order W → Option W
  order_price o = elim (o.extras) [
    | [] ↦ none
    | x ∷ xs ↦ elim x [ number p ↦ some p | word s ↦ none ]
  ]

  -- `open_entries_count`
  unfoldable pub open_entries_count : Position W → ℕ
  open_entries_count p = if is_flat p.market_position then 0 else length p.entry_qtys

  -- `_entry_refused`
  unfoldable pub entry_refused : Action → FillEngine W → Bool
  unfolding open_entries_count
  entry_refused action e =
      let cap = e.max_entries_per_direction in
      let m = (e.position).market_position in
      let same_dir : Bool = elim action [ buy ↦ is_long m | sellshort ↦ is_short m | _ ↦ false ] in
      if leb cap 0 then false else same_dir && leb cap (open_entries_count e.position)

  -- `_check_named_exit`: more than one entry is open on the exit's side, and not all have the name.
  unfoldable pub ambiguous_exit : Order W → FillEngine W → Option String
  unfolding named_entry open_entries_count
  ambiguous_exit o e = elim (named_entry o) [
    | none ↦ none
    | some name ↦
        let p = e.position in
        let on_side : Bool = elim (o.action) [
          | sell ↦ is_long p.market_position
          | _ ↦ is_short p.market_position
        ] in
        if on_side && (ltb 1 (open_entries_count p) && any_other name p.entry_labels)
        then some name
        else none
  ]

  unfoldable pub check_named_exit : Bool → Order W → FillEngine W → Outcome (FillEngine W)
  check_named_exit strict o e = verdict strict o.action (ambiguous_exit o e) e

module _ {W : Type 0} ⦃fl : Float W⦄ where
  open fl use {f32}

  -- The fill and its records, which `_fill_at` and `_fill_close_order` share: `v1_qty` makes
  -- the size for the old log of the number of contracts that moved.
  unfoldable pub fill_and_record :
      Order W → ℕ → W → ℕ → ℕ → ℕ → (ℕ → ℕ) → FillEngine W → FillEngine W
  fill_and_record o qty price bar date time v1_qty e =
      let ctx : FillContext = record {
        bar = bar;
        date = date;
        time = time;
        name = o.label;
        cat = 3;
      } in
      let filled = fill o.action qty price ctx e in
      let v1 = v1_qty (moved (filled.position).contracts (e.position).contracts) in
      record_fills (is_buy o.action) o.label date time price (signed_position e.position) v1 filled

  -- A fill of the size that `int()` gave.
  unfoldable pub fill_sized :
      Order W → ℤ → W → ℕ → ℕ → ℕ → (ℕ → ℕ → ℕ) → FillEngine W → Outcome (FillEngine W)
  fill_sized o (pos n) price bar date time v1_qty e =
      if divides_by_zero o.action n e
      then failed zero_division
      else done (fill_and_record o n price bar date time (v1_qty n) e)
  fill_sized o (negsuc k) price bar date time v1_qty e = failed negative_size

  -- What `_fill_at` and `_fill_close_order` share: the cap, the size, the named exit, the fill.
  unfoldable pub fill_order :
      Bool → Order W → ℕ → W → ℕ → ℕ → ℕ → (ℕ → ℕ → ℕ) → FillEngine W → Outcome (FillEngine W)
  fill_order strict o unsized price bar date time v1_qty e =
      if entry_refused o.action e
      then done e
      else (int_or unsized o.qty >>= λ k.
          check_named_exit strict o e >>= fill_sized o k price bar date time v1_qty)

  -- `_fill_close_order`
  unfoldable pub fill_close_order : Bool → OnClose W → FillEngine W → Outcome (FillEngine W)
  unfolding fill_order
  fill_close_order strict c =
      fill_order strict c.order 1 c.price c.bar c.date c.time (λ qty n. if n == 0 then qty else n)

  -- The size of an order that has none in `_fill_at`: an exit closes all, an entry is one contract.
  abbrev pub order_size : Order W → FillEngine W → ℕ
  order_size o e =
      if is_closing o.action
      then (if ltb 0 (e.position).contracts then (e.position).contracts else 1)
      else 1

  -- `_fill_at`
  unfoldable pub fill_at : Bool → Bar W → Order W → W → FillEngine W → Outcome (FillEngine W)
  unfolding fill_order
  fill_at strict b o price e =
      fill_order strict o (order_size o e) price b.number b.date b.time (λ qty n. n) e

  unfoldable pub fill_onclose : Bool → List (OnClose W) → FillEngine W → Outcome (FillEngine W)
  fill_onclose strict [] e = done e
  fill_onclose strict (c ∷ cs) e = fill_close_order strict c e >>= fill_onclose strict cs

  -- `_execute_onclose_pending`
  unfoldable pub execute_onclose_pending : Bool → FillEngine W → Outcome (FillEngine W)
  execute_onclose_pending strict e =
      fill_onclose strict e.onclose_pending e >>= λ e'. done (record e' { onclose_pending = [] })

  unfoldable pub reached : Bar W → Order W → W → Option (Candidate W)
  reached b o price =
      if waits_for_low o.otype o.action
      then (if b.low ≼ price
          then some (record {
            low_side = true;
            at_open = b.open_price ≼ price;
            order = o;
            price = f32 (min2 b.open_price price);
          })
          else none)
      else (if price ≼ b.high
          then some (record {
            low_side = false;
            at_open = price ≼ b.open_price;
            order = o;
            price = f32 (max2 b.open_price price);
          })
          else none)

  unfoldable pub market_orders : List (Order W) → List (Order W)
  market_orders = filterb (λ o. is_next o.timing && is_market o.otype)

  abbrev pub candidate : Bar W → Order W → Option (Candidate W)
  candidate b o =
      if is_next o.timing && is_conditional o.otype
      then (elim (order_price o) [ none ↦ none | some p ↦ reached b o p ])
      else none

  unfoldable pub candidates : Bar W → List (Order W) → List (Candidate W)
  unfolding reached order_price
  candidates b [] = []
  candidates b (o ∷ os) =
      let rest = candidates b os in elim (candidate b o) [ none ↦ rest | some c ↦ c ∷ rest ]

  -- `first == 'high'`: the high is strictly nearer to the open.
  abbrev pub high_first : Bar W → Bool
  high_first b = (b.high ⊖ b.open_price) ≺ (b.open_price ⊖ b.low)

  -- The sort key `(0 if at_open else 1, 0 if side == first else 1)` as one number.
  unfoldable pub path_rank : Bar W → Candidate W → ℕ
  path_rank b c =
      2 * (if c.at_open then 0 else 1)
      + (if high_first b then (if c.low_side then 1 else 0) else (if c.low_side then 0 else 1))

  unfoldable pub fill_market : Bool → Bar W → List (Order W) → FillEngine W → Outcome (FillEngine W)
  fill_market strict b [] e = done e
  fill_market strict b (o ∷ os) e = fill_at strict b o b.open_price e >>= fill_market strict b os

  unfoldable pub fill_candidates :
      Bool → Bar W → List (Candidate W) → FillEngine W → Outcome (FillEngine W)
  fill_candidates strict b [] e = done e
  fill_candidates strict b (c ∷ cs) e =
      fill_at strict b c.order c.price e >>= fill_candidates strict b cs

  -- `_execute_pending_fills`: market orders at the open, then the rest along the bar's path.
  unfoldable pub execute_pending_fills : Bool → Bar W → FillEngine W → Outcome (FillEngine W)
  execute_pending_fills strict b e =
      let orders = e.pending_orders in
      fill_market strict b (market_orders orders) e
      >>= fill_candidates strict b (sort_by (path_rank b) (candidates b orders))
      >>= λ e'. done (record e' { pending_orders = [] })
