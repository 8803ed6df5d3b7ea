-- ===== src/Engine/FillLog.antt =====
-- engine.py: `_record_fills` and the trade list that `get_mc_trades` exports.
pub mod Net
use power_bridge.Base.{
  ℕ, suc, ◌+◌, Bool, true, false, List, [], ◌∷◌, ◌++◌, String, ℤ, ◌-ℤ◌, abs_ℤ, replicate,
  if◌then◌else◌,
}
use power_bridge.Engine.State.{FillRecord, FillEngine}
use power_bridge.Engine.Position.{signed_position}

module _ {W : Type 0} where
  -- One record for each contract that the signed position has moved since `prev_signed`.
  unfoldable pub record_fills : Bool → String → ℕ → ℕ → W → ℤ → ℕ → FillEngine W → FillEngine W
  record_fills buy_side signal date time price prev_signed v1_qty e =
      let rec : FillRecord W = record {
        buy_side = buy_side;
        signal = signal;
        date = date;
        time = time;
        price = price;
      } in
      let moved = abs_ℤ (signed_position e.position -ℤ prev_signed) in
      record e {
        fills = e.fills ++ replicate moved rec;
        fills_v1 = e.fills_v1 ++ replicate v1_qty rec;
      }

  -- `get_mc_trades`: each record with its number, from 1.
  pub number_from : ℕ → List (FillRecord W) → List (ℕ × FillRecord W)
  number_from i [] = []
  number_from i (f ∷ fs) = (i + 1, f) ∷ number_from (i + 1) fs

  unfoldable pub get_mc_trades : Bool → FillEngine W → List (ℕ × FillRecord W)
  unfolding number_from
  get_mc_trades v1 e = number_from 0 (if v1 then e.fills_v1 else e.fills)
