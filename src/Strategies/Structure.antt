-- ===== src/Strategies/Structure.antt =====
-- services/engine/src/nexocrypto_engine/strategy/fvg_ob.py: the return of the price into a fair value gap.
use nexocrypto.Prelude.{
  List, drop, if◌then◌else◌, length, ltb, map, take, ◌&&◌, ◌+◌, ◌>>=◌, none, some, [], ◌∷◌, ℕ,
  Option, String, Result, ok, ◌-◌, pos, negsuc,
}
use nexocrypto.Shared.{
  Datetime, Formatting, Hashing, Kline, MarketSnapshot, Side, Signal, Uuid, dedup_hash_of, isolated,
  long, short, side_value, text, number,
}
use nexocrypto.Strategies.Series.{at}
use nexocrypto.Decimal.{Decimal, add, div, gap, le, lt, max, min, mul, of_ℕ, sub}
use nexocrypto.Decimal.Order.{gaps}
use nexocrypto.Strategies.{Strategy}

-- `FvgObParams`
pub record StructureParams : Type 0 where
  pub lookback : ℕ
  pub min_gap_bps : Decimal
  pub min_impulse_bps : Decimal
  pub leverage : Decimal
  pub min_bars : ℕ
  pub timeframe : String

abbrev pub structure_defaults : StructureParams
structure_defaults = record {
  lookback = 40;
  min_gap_bps = of_ℕ 10;
  min_impulse_bps = of_ℕ 30;
  leverage = of_ℕ 8;
  min_bars = 60;
  timeframe = "5m";
}

-- A gap: the index of its third candle, and its low and high.
pub record Gap : Type 0 where
  pub idx3 : ℕ
  pub gap_low : Decimal
  pub gap_high : Decimal

-- The most recent gaps so far.
pub record Gaps : Type 0 where
  pub bullish : Option Gap
  pub bearish : Option Gap

-- `(high - low) / base * 10000`
in_bps : Decimal → Decimal → Decimal → Result Decimal
in_bps high low base = do ratio ← div (sub high low) base; ok (mul ratio (of_ℕ 10000))

-- The gap, if it and the impulse are large enough; else the one before.
large_gap :
    StructureParams → Result Decimal → Result Decimal → Gap → Option Gap → Result (Option Gap)
large_gap params gap_size impulse gap before = do
  gap_size_bps ← gap_size
  impulse_bps ← impulse
  ok (
      if le params.min_gap_bps gap_size_bps && le params.min_impulse_bps impulse_bps
      then some gap
      else before)

bullish_gap : StructureParams → ℕ → Kline → Kline → Option Gap → Result (Option Gap)
unfolding in_bps large_gap
bullish_gap params j b1 b3 before =
    let found =
      large_gap params (in_bps b3.low b1.high b1.high) (in_bps b3.close b1.close b1.close)
        (record { idx3 = j + 2; gap_low = b1.high; gap_high = b3.low }) before in
    if lt b1.high b3.low && lt b1.close b3.close then found else ok before

bearish_gap : StructureParams → ℕ → Kline → Kline → Option Gap → Result (Option Gap)
unfolding in_bps large_gap
bearish_gap params j b1 b3 before =
    let found =
      large_gap params (in_bps b1.low b3.high b3.high) (in_bps b1.close b3.close b1.close)
        (record { idx3 = j + 2; gap_low = b3.high; gap_high = b1.low }) before in
    if lt b3.high b1.low && lt b3.close b1.close then found else ok before

-- The loop over the candles from the index `j` on, the first two of them given.
scan_gaps : StructureParams → ℕ → Kline → Kline → List Kline → Gaps → Result Gaps
unfolding bullish_gap bearish_gap
scan_gaps params j b1 b2 [] gaps = ok gaps
scan_gaps params j b1 b2 (b3 ∷ rest) gaps = do
  up ← bullish_gap params j b1 b3 gaps.bullish
  down ← bearish_gap params j b1 b3 gaps.bearish
  scan_gaps params (j + 1) b2 b3 rest (record { bullish = up; bearish = down })

unfoldable pub gaps_from : StructureParams → ℕ → List Kline → Result Gaps
unfolding scan_gaps
gaps_from params start (b1 ∷ b2 ∷ rest) =
    scan_gaps params start b1 b2 rest (record { bullish = none; bearish = none })
gaps_from params start _ = ok (record { bullish = none; bearish = none })

best_from : (Decimal → Decimal → Decimal) → Decimal → List Decimal → Decimal
best_from better m [] = m
best_from better m (x ∷ xs) = best_from better (better m x) xs

-- `max(..., default=d)` and `min(..., default=d)`
unfoldable pub best_of : (Decimal → Decimal → Decimal) → Decimal → List Decimal → Decimal
unfolding best_from
best_of better d [] = d
best_of better d (x ∷ xs) = best_from better x xs

-- The three candles of a gap.
abbrev leg : Gap → List Kline → List Kline
leg gap klines = take 3 (drop (gap.idx3 - 2) klines)

-- The stop is 10 basis points beyond the gap.
abbrev buffer : Decimal
buffer = record { coeff = pos 1; exp = negsuc 2 }

-- The side, the stop and the target of a setup.
pub record Setup : Type 0 where
  pub side : Side
  pub sl : Decimal
  pub tp : Decimal

abbrev pub bullish_setup : Gap → Kline → List Kline → Option Setup
bullish_setup gap last klines =
    let sl = mul gap.gap_low (sub (of_ℕ 1) buffer) in
    let tp = best_of max last.high (map (λ (k : Kline). k.high) (leg gap klines)) in
    if (le last.low gap.gap_high && lt gap.gap_low last.close)
      && (lt last.close tp && lt sl last.close)
    then some (record { side = long; sl = sl; tp = tp })
    else none

abbrev pub bearish_setup : Gap → Kline → List Kline → Option Setup
bearish_setup gap last klines =
    let sl = mul gap.gap_high (add (of_ℕ 1) buffer) in
    let tp = best_of min last.low (map (λ (k : Kline). k.low) (leg gap klines)) in
    if (le gap.gap_low last.high && lt last.close gap.gap_high)
      && (lt last.close sl && lt tp last.close)
    then some (record { side = short; sl = sl; tp = tp })
    else none

unfoldable pub when_some : Option Gap → (Gap → Option Setup) → Option Setup
when_some none f = none
when_some (some gap) f = f gap

abbrev pub first_setup : Option Setup → Option Setup → Option Setup
first_setup (some setup) other = some setup
first_setup none other = other

-- The bullish setup, or else the bearish one.
unfoldable pub setup_of : Gaps → Kline → List Kline → Option Setup
unfolding when_some best_of
setup_of gaps last klines =
    first_setup (when_some gaps.bullish (λ gap. bullish_setup gap last klines))
      (when_some gaps.bearish (λ gap. bearish_setup gap last klines))

module _ (hashing : Hashing) (formatting : Formatting) where
  abbrev tags : Side → List String
  tags long = "bullish_fvg" ∷ "gap_filled" ∷ []
  tags short = "bearish_fvg" ∷ "gap_filled" ∷ []

  -- `_build`
  unfoldable pub structure_signal :
      StructureParams → Uuid → MarketSnapshot → Datetime → Decimal → Setup → Signal
  structure_signal params id snapshot now entry setup = record {
    id = id;
    pair = snapshot.pair;
    side = setup.side;
    strategy = "fvg_ob";
    entry = entry;
    stop_loss = setup.sl;
    take_profits = setup.tp ∷ [];
    leverage = params.leverage;
    margin_type = isolated;
    timeframe = params.timeframe;
    thesis_tags = tags setup.side;
    source = "scanner";
    dedup_hash = dedup_hash_of hashing formatting (
        text "fvg_ob"
        ∷ text snapshot.pair
        ∷ text (side_value setup.side)
        ∷ number entry
        ∷ text (formatting.isoformat now)
        ∷ []);
    created_at = now;
  }

  unfoldable pub structure_rule :
      StructureParams → Uuid → MarketSnapshot → Datetime → Kline → Option Setup → Option Signal
  unfolding structure_signal
  structure_rule params id snapshot now last none = none
  structure_rule params id snapshot now last (some setup) =
      some (structure_signal params id snapshot now last.close setup)

  unfoldable pub evaluate_structure :
      StructureParams → Uuid → MarketSnapshot → Datetime → Result (Option Signal)
  unfolding setup_of structure_rule gaps_from
  evaluate_structure params id snapshot now =
      let klines = snapshot.klines in
      let start = length klines - params.lookback - 3 in
      if ltb (length klines) params.min_bars then ok none else (do
        last ← at klines (length klines - 1)
        gaps ← gaps_from params start (drop start klines)
        ok (structure_rule params id snapshot now last (setup_of gaps last klines)))

  abbrev pub structure_strategy : StructureParams → Strategy
  structure_strategy params = record { key = "fvg_ob"; evaluate = evaluate_structure params }
