-- ===== src/Backtest/Metrics/Summary.antt =====
-- The summary of a backtest raises nothing, and its figures fit together.
use nexocrypto.Backtest.Metrics.{
  BacktestMetrics, curve, curve_at, no_trades, summarize, summarize_some, worse, Curve, all_bps,
  curve_step, drawdown_bps, fee_drag, losses, mean_bps, ratio_above_0, wins,
}
use nexocrypto.Decimal.Sign.{mul-IsNonneg, quotient-IsNonneg, IsNonneg, div_const, div_of_pos}
use nexocrypto.Decimal.{mul, neg, quotient, sub, Decimal, add, le, lt, max, of_ℕ}
use nexocrypto.Backtest.Fills.{SimulatedTrade, entry_notional, net_pnl, net_pnl_bps_of_notional}
use nexocrypto.Strategies.Series.{sum}
use nexocrypto.Decimal.Order.{le-max_right, le_refl, le_total, lt-eq-not-le}
use nexocrypto.Decimal.Bounds.{sub-IsNonneg}
use nexocrypto.Prelude.{
  ℕ, ◌&&◌, Bool-cases, List, Returns, arith, length, map, value_of_Returns, ◌+◌, ◌≡◌, [], ◌∷◌, ok,
  inl, inr, refl, true,
}

-- Every trade is a win or a loss, and none is both.
wins-and-losses :
    (trades : List SimulatedTrade) → length (wins trades) + length (losses trades) ≡ length trades
unfolding wins losses
wins-and-losses [] = refl
wins-and-losses (t ∷ ts) = ground (arith, wins-and-losses ts, lt-eq-not-le (of_ℕ 0) (net_pnl t))

net_pnl_bps_total : (t : SimulatedTrade) → Returns (net_pnl_bps_of_notional t)
unfolding net_pnl_bps_of_notional
net_pnl_bps_total t = elim (Bool-cases (lt (of_ℕ 0) (entry_notional t))) [
  | inl above ↦ rw (above, div_of_pos (net_pnl t) (entry_notional t) above) tt
  | inr below ↦ rw below tt
]

all_bps_total : (ts : List SimulatedTrade) → Returns (all_bps ts)
unfolding all_bps
all_bps_total [] = tt
all_bps_total (t ∷ ts) =
    let (d, e) = value_of_Returns (net_pnl_bps_of_notional t) (net_pnl_bps_total t) in
    let (ds, es) = value_of_Returns (all_bps ts) (all_bps_total ts) in rw (e, es) tt

mean_bps_total : (sign : Decimal → Decimal) (ts : List SimulatedTrade) → Returns (mean_bps sign ts)
unfolding mean_bps
mean_bps_total sign [] = tt
mean_bps_total sign (t ∷ ts) =
    let (ds, es) = value_of_Returns (all_bps (t ∷ ts)) (all_bps_total (t ∷ ts)) in
    rw (es, div_const (sign (sum ds)) (length (t ∷ ts)) (ground arith)) tt

ratio_total : (a b : Decimal) → Returns (ratio_above_0 a b)
unfolding ratio_above_0
ratio_total a b = elim (Bool-cases (lt (of_ℕ 0) b)) [
  | inl above ↦ rw (above, div_of_pos a b above) tt
  | inr below ↦ rw below tt
]

fee_drag_total : (ts : List SimulatedTrade) → Returns (fee_drag ts)
unfolding fee_drag
fee_drag_total ts = elim (Bool-cases (lt (of_ℕ 0) (sum (map entry_notional ts)))) [
  | inl above ↦ rw (above, div_of_pos _ (sum (map entry_notional ts)) above) tt
  | inr below ↦ rw below tt
]

-- An equity curve that is not above its peak, with a drawdown that is not negative.
record IsCurve (c : Curve) : Type 0 where
  below : le c.eq c.peak ≡ true
  drawdown : IsNonneg c.max_dd_bps

IsNonneg-of_pos : (d : Decimal) → lt (of_ℕ 0) d ≡ true → IsNonneg d
IsNonneg-of_pos d h = ground (arith, lt-eq-not-le (of_ℕ 0) d, le_total (of_ℕ 0) d)

le_of_ℕ : (n : ℕ) → IsNonneg (of_ℕ n)
unfolding le
le_of_ℕ n = ground arith

worse-IsNonneg : (a b : Decimal) → IsNonneg a → IsNonneg b → IsNonneg (worse a b)
worse-IsNonneg a b h k = elim (Bool-cases (lt a b)) [ inl e ↦ rw e k | inr e ↦ rw e h ]

curve_at_lem :
    (eq peak max_dd : Decimal)
    → le eq peak ≡ true
    → IsNonneg max_dd
    → (c : Curve) × (curve_at eq peak max_dd ≡ ok c) × IsCurve c
unfolding curve_at drawdown_bps
curve_at_lem eq peak max_dd below nonneg = elim (Bool-cases (lt (of_ℕ 0) peak && lt eq peak)) [
  | inr flat ↦ rw flat (_, refl, record { below = below; drawdown = nonneg })
  | inl sunk ↦
      let positive : lt (of_ℕ 0) peak ≡ true = ground arith in
      let dd = mul (quotient (sub peak eq) peak) (of_ℕ 10000) in
      rw (sunk, div_of_pos (sub peak eq) peak positive)
        (
          record { eq = eq; peak = peak; max_dd_bps = worse max_dd dd },
          refl,
          record {
            below = below;
            drawdown = worse-IsNonneg max_dd dd nonneg (
                mul-IsNonneg (quotient (sub peak eq) peak) (of_ℕ 10000)
                  (quotient-IsNonneg (sub peak eq) peak (sub-IsNonneg peak eq below)
                    (IsNonneg-of_pos peak positive))
                  (le_of_ℕ 10000));
          },
        )
]

curve_lem :
    (c : Curve) (ts : List SimulatedTrade)
    → IsCurve c
    → (c' : Curve) × (curve c ts ≡ ok c') × IsCurve c'
unfolding curve curve_step
curve_lem c [] h = (c, refl, h)
curve_lem c (t ∷ ts) h =
    let eq = add c.eq (net_pnl t) in
    let (c', e, k) =
      curve_at_lem eq (max c.peak eq) c.max_dd_bps (le-max_right c.peak eq) h.drawdown in
    rw e (curve_lem c' ts k)

-- What a summary says of some trades.
pub record IsSummary (trades : List SimulatedTrade) (m : BacktestMetrics) : Type 0 where
  pub counted : m.sample_size ≡ length trades
  pub split : length (wins trades) + length (losses trades) ≡ m.sample_size
  pub drawdown : IsNonneg m.max_drawdown_bps
  pub labelled : m.optimistic ≡ true

summarize_some_lem :
    (t : SimulatedTrade) (ts : List SimulatedTrade) (equity : Decimal)
    → (m : BacktestMetrics) × (summarize_some (t ∷ ts) equity ≡ ok m) × IsSummary (t ∷ ts) m
unfolding summarize_some
summarize_some_lem t ts equity =
    let trades = t ∷ ts in
    let (win, ew) =
      value_of_Returns (mean_bps (λ d. d) (wins trades)) (mean_bps_total (λ d. d) (wins trades)) in
    let (loss, el) =
      value_of_Returns (mean_bps neg (losses trades)) (mean_bps_total neg (losses trades)) in
    let gross = sum (map net_pnl (wins trades)) in
    let lost = neg (sum (map net_pnl (losses trades))) in
    let (factor, ef) = value_of_Returns (ratio_above_0 gross lost) (ratio_total gross lost) in
    let (rr, er) = value_of_Returns (ratio_above_0 win loss) (ratio_total win loss) in
    let start : Curve = record { eq = equity; peak = equity; max_dd_bps = of_ℕ 0 } in
    let (c, ec, is_curve) =
      curve_lem start trades (record { below = le_refl equity; drawdown = le_refl (of_ℕ 0) }) in
    let (drag, ed) = value_of_Returns (fee_drag trades) (fee_drag_total trades) in
    rw
      (
        div_const (of_ℕ (length (wins trades))) (length trades) (ground arith),
        ew,
        el,
        ef,
        er,
        ec,
        ed,
      )
      (
        _,
        refl,
        record {
          counted = refl;
          split = wins-and-losses trades;
          drawdown = is_curve.drawdown;
          labelled = refl;
        },
      )

-- The summary of any trades returns: no division in it is by 0. It counts every trade, once as a win or as a loss;
-- the drawdown is not negative; and it is labelled as optimistic.
pub summarize-IsSummary :
    (trades : List SimulatedTrade) (starting_equity : Decimal)
    → (m : BacktestMetrics) × (summarize trades starting_equity ≡ ok m) × IsSummary trades m
unfolding summarize
summarize-IsSummary [] starting_equity = (
  no_trades,
  refl,
  record {
    counted = refl;
    split = wins-and-losses [];
    drawdown = le_refl (of_ℕ 0);
    labelled = refl;
  },
)
summarize-IsSummary (t ∷ ts) starting_equity = summarize_some_lem t ts starting_equity
