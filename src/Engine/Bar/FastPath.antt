-- ===== src/Engine/Bar/FastPath.antt =====
-- The bars that the engine skips (engine.py, `no_work_state` and the first lines of `before_bar`):
-- running them in full would change nothing.
use power_bridge.Base.{
  ℕ, ◌≡◌, refl, sym, ap, ◌∙◌, Bool, true, false, not, ◌&&◌, ◌||◌, List, [], ◌∷◌, Bool-cases, inl,
  inr, ltb, ◌==◌, if◌then◌else◌, &&-both,
}
use mathlib.Core.Bool.{false≢true}
use power_bridge.Float.{Float, ◌⊖◌, ◌≺◌, max2}
use power_bridge.Engine.State.{Account, FillEngine, is_flat}
use power_bridge.Engine.Stops.{Bar, check_money_management_stops}
use power_bridge.Engine.Outcomes.{Outcome, done, ◌>>=◌, unverified, failed}
use power_bridge.Engine.Orders.{
  fill_onclose, fill_market, fill_candidates, market_orders, candidates, execute_onclose_pending,
  execute_pending_fills,
}
use power_bridge.Engine.Bar.{
  is_empty, compute_pnl, update_excursion, count_bars_since_entry, equities, fold_equity,
  fold_equities, update_drawdown, mark_bar, no_work_state, full_bar, before_bar,
}
use power_bridge.Engine.Invariant.{Ensures, Ensures-bind}

is_empty-eq : {A : Type 0} (xs : List A) → is_empty xs ≡ true → xs ≡ []
is_empty-eq [] h = refl
is_empty-eq (x ∷ xs) h = cc

module _ {W : Type 0} ⦃fl : Float W⦄ where
  open fl use {nought, neg, abs, f32}

  -- The drawdown after an equity of `eq`, with the peak already raised to it.
  abbrev depth : W → W → W → W
  depth peak eq worst = if abs worst ≺ (peak ⊖ eq) then f32 (neg (peak ⊖ eq)) else worst

  -- An account of a flat engine for which another bar at the same net profit is no news.
  pub record IsSettled (a : Account W) : Type 0 where
    pub no_open_profit : a.open_position_profit ≡ nought
    pub peak_reached : max2 a.peak_equity a.net_profit ≡ a.peak_equity
    pub depth_reached : depth a.peak_equity a.net_profit a.max_id_drawdown ≡ a.max_id_drawdown

  fold_equity-settled : (a : Account W) → IsSettled a → fold_equity a.net_profit a ≡ a
  unfolding fold_equity
  fold_equity-settled a s =
      λ i. record a { peak_equity = s.peak_reached i; max_id_drawdown = deep i }
    where
      deep :
          depth (max2 a.peak_equity a.net_profit) a.net_profit a.max_id_drawdown ≡ a.max_id_drawdown
      deep = ap (λ k. depth k a.net_profit a.max_id_drawdown) s.peak_reached ∙ s.depth_reached

  compute_pnl-settled :
      (price : W) (e : FillEngine W)
      → is_flat (e.position).market_position ≡ true
      → (e.account).open_position_profit ≡ nought
      → compute_pnl price e ≡ e
  unfolding compute_pnl
  compute_pnl-settled price e f z =
      let a = e.account in
      simp f (λ i. record e { account = record a { open_position_profit = sym z i } })

  update_excursion-flat :
      (high low : W) (e : FillEngine W)
      → is_flat (e.position).market_position ≡ true
      → update_excursion high low e ≡ e
  unfolding update_excursion
  update_excursion-flat high low e f = simp f refl

  count_bars_since_entry-flat :
      (n : ℕ) (e : FillEngine W)
      → is_flat (e.position).market_position ≡ true
      → count_bars_since_entry n e ≡ e
  unfolding count_bars_since_entry
  count_bars_since_entry-flat n e f = simp f refl

  equities-flat :
      (b : Bar W) (e : FillEngine W)
      → is_flat (e.position).market_position ≡ true
      → equities b e ≡ (e.account).net_profit ∷ []
  unfolding equities
  equities-flat b e f = simp f refl

  update_drawdown-settled :
      (b : Bar W) (e : FillEngine W)
      → is_flat (e.position).market_position ≡ true
      → IsSettled e.account
      → update_drawdown b e ≡ e
  unfolding update_drawdown fold_equities
  update_drawdown-settled b e f s =
      ap (λ eqs. record e { account = fold_equities eqs e.account }) (equities-flat b e f)
      ∙ (λ i. record e { account = fold_equity-settled e.account s i })

  stops-flat :
      (b : Bar W) (e : FillEngine W)
      → is_flat (e.position).market_position ≡ true
      → check_money_management_stops b e ≡ e
  unfolding check_money_management_stops
  stops-flat b e f = simp f refl

  mark_bar-settled :
      (b : Bar W) (e : FillEngine W)
      → is_flat (e.position).market_position ≡ true
      → IsSettled e.account
      → mark_bar b e ≡ e
  unfolding mark_bar
  mark_bar-settled b e f s = rw (
    compute_pnl-settled b.close_price e f s.no_open_profit,
    update_excursion-flat b.high b.low e f,
    count_bars_since_entry-flat b.number e f,
    update_drawdown-settled b e f s,
  )

  no_onclose :
      (strict : Bool) (e : FillEngine W)
      → e.onclose_pending ≡ []
      → execute_onclose_pending strict e ≡ done e
  unfolding execute_onclose_pending fill_onclose
  no_onclose strict e none_left =
      simp none_left (λ i. done (record e { onclose_pending = sym none_left i }))

  no_pending :
      (strict : Bool) (b : Bar W) (e : FillEngine W)
      → e.pending_orders ≡ []
      → execute_pending_fills strict b e ≡ done e
  unfolding execute_pending_fills fill_market fill_candidates market_orders candidates
  no_pending strict b e none_left =
      simp none_left (λ i. done (record e { pending_orders = sym none_left i }))

  -- Where `no_work_state` holds and the account is settled, the bar that the fast path skips would leave
  -- the engine exactly as it is.
  pub full_bar-idle :
      (strict : Bool) (b : Bar W) (e : FillEngine W)
      → no_work_state e ≡ true
      → IsSettled e.account
      → full_bar strict b e ≡ done e
  unfolding full_bar no_work_state
  full_bar-idle strict b e idle s =
      let (f, rest) = &&-both _ _ idle in
      let (p, rest') = &&-both _ _ rest in
      let (c, calm) = &&-both _ _ rest' in
      rw (
        no_onclose strict e (is_empty-eq _ c),
        ◌>>=◌,
        no_pending strict b e (is_empty-eq _ p),
        stops-flat b e f,
        mark_bar-settled b e f s,
      )

  -- How a bar leaves the account of an engine that ends it flat.
  abbrev pub SettlesWhenFlat : FillEngine W → Type 0
  SettlesWhenFlat e = is_flat (e.position).market_position ≡ true → IsSettled e.account

  module _ (lt_irrefl : (x : W) → (x ≺ x) ≡ false) where
    max2_again : (p n : W) → max2 (max2 p n) n ≡ max2 p n
    max2_again p n = elim (Bool-cases (p ≺ n)) [
      | inl lt ↦ simp (lt, lt_irrefl) refl
      | inr ge ↦ simp ge refl
    ]

    depth_again : (p n w : W) → depth p n (depth p n w) ≡ depth p n w
    depth_again p n w = elim (Bool-cases (abs w ≺ (p ⊖ n))) [
      | inl deeper ↦ elim (Bool-cases (abs (f32 (neg (p ⊖ n))) ≺ (p ⊖ n))) [
        | inl again ↦ simp (deeper, again) refl
        | inr enough ↦ simp (deeper, enough) refl
      ]
      | inr enough ↦ simp enough refl
    ]

    fold_equity-IsSettled :
        (a : Account W) → a.open_position_profit ≡ nought → IsSettled (fold_equity a.net_profit a)
    unfolding fold_equity
    fold_equity-IsSettled a z = record {
      no_open_profit = z;
      peak_reached = max2_again a.peak_equity a.net_profit;
      depth_reached = depth_again (max2 a.peak_equity a.net_profit) a.net_profit a.max_id_drawdown;
    }

    profit-compute_pnl :
        (price : W) (e : FillEngine W)
        → is_flat (e.position).market_position ≡ true
        → ((compute_pnl price e).account).open_position_profit ≡ nought
    unfolding compute_pnl
    profit-compute_pnl price e f = simp f refl

    side-update_excursion :
        (high low : W) (e : FillEngine W)
        → ((update_excursion high low e).position).market_position ≡ (e.position).market_position
    unfolding update_excursion
    side-update_excursion high low e =
        let p = e.position in
        elim (Bool-cases (is_flat p.market_position || p.contracts == 0)) [
          | inl t ↦ rw t
          | inr t ↦ rw t
        ]

    side-count_bars_since_entry :
        (n : ℕ) (e : FillEngine W)
        → ((count_bars_since_entry n e).position).market_position ≡ (e.position).market_position
    unfolding count_bars_since_entry
    side-count_bars_since_entry n e =
        let p = e.position in
        elim (Bool-cases (not (is_flat p.market_position) && ltb 0 p.entry_bar)) [
          | inl t ↦ rw t
          | inr t ↦ rw t
        ]

    same_side :
        (b : Bar W) (e : FillEngine W)
        → ((mark_bar b e).position).market_position ≡ (e.position).market_position
    unfolding mark_bar update_drawdown compute_pnl
    same_side b e =
        side-count_bars_since_entry b.number _
        ∙ side-update_excursion b.high b.low (compute_pnl b.close_price e)

    -- The fills, stops and marks of a full bar settle it if it ends flat.
    mark_bar-settles : (b : Bar W) (e : FillEngine W) → SettlesWhenFlat (mark_bar b e)
    unfolding mark_bar update_drawdown fold_equities compute_pnl
    mark_bar-settles b e = elim (Bool-cases (is_flat (e.position).market_position)) [
      | inl f ↦ λ _.
          rw
            (
              update_excursion-flat b.high b.low (compute_pnl b.close_price e) f,
              count_bars_since_entry-flat b.number (compute_pnl b.close_price e) f,
              equities-flat b (compute_pnl b.close_price e) f,
            )
            (fold_equity-IsSettled (compute_pnl b.close_price e).account
              (profit-compute_pnl b.close_price e f))
      | inr held ↦ λ f. absurd (false≢true (sym held ∙ ap is_flat (sym (same_side b e)) ∙ f))
    ]

    Ensures-any :
        {A B : Type 0} (Q : B → Type 0) (m : Outcome A) (f : A → Outcome B)
        → ((a : A) → Ensures Q (f a))
        → Ensures Q (m >>= f)
    Ensures-any Q m f k = Ensures-bind (λ _. Unit {0}) Q m f (go m) (λ a _. k a)
      where
        go : {A : Type 0} (m : Outcome A) → Ensures (λ _. Unit {0}) m
        go (done a) = tt
        go (unverified v n) = tt
        go (failed x) = tt

    pub full_bar-settles :
        (strict : Bool) (b : Bar W) (e : FillEngine W)
        → Ensures SettlesWhenFlat (full_bar strict b e)
    unfolding full_bar
    full_bar-settles strict b e =
        Ensures-any SettlesWhenFlat
          (execute_onclose_pending strict e >>= execute_pending_fills strict b)
          (λ e'. done (mark_bar b (check_money_management_stops b e')))
          (λ e'. mark_bar-settles b (check_money_management_stops b e'))

    -- Where `<` is irreflexive: if an engine is settled when it is flat, so is the engine that
    -- `before_bar` leaves, unless an exit that cannot be verified or a size stops it.
    pub before_bar-settles :
        (strict : Bool) (b : Bar W) (e : FillEngine W)
        → SettlesWhenFlat e
        → Ensures SettlesWhenFlat (before_bar strict b e)
    unfolding before_bar
    before_bar-settles strict b e s = elim (Bool-cases (no_work_state e)) [
      | inl idle ↦ rw idle s
      | inr busy ↦ rw busy (full_bar-settles strict b e)
    ]
