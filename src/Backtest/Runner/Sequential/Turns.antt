-- ===== src/Backtest/Runner/Sequential/Turns.antt =====
-- One turn of the backtest's loop: the trade that it opens and the index at which the loop goes on.
use nexocrypto.Decimal.{abs, div, le, mul, of_ℕ, sub, Decimal}
use nexocrypto.Backtest.Runner.Exits.{IsExitOf, IsFirst, find_exit-IsExitOf}
use nexocrypto.Backtest.Runner.{
  Backtester, after_signal, enter, simulate, snapshot_at, step, Exit, exit_or_close, find_exit,
}
use nexocrypto.Strategies.Series.{at}
use mathlib.Core.Path.{subst}
use nexocrypto.Shared.{Signal, Uuid, Kline, Side}
use nexocrypto.Backtest.Fills.{
  SimulatedTrade, funding_paid_for_hold, simulate_entry_fill, simulate_exit_fill,
}
use nexocrypto.Execution.{stop}
use nexocrypto.Prelude.{
  Bool-cases, Result, String, head?, none, refl, some, ◌+◌, >>=-eq-ok, List, Option, Option-cases,
  ap, arith, drop, length, length-append, length-drop, ok_injective, ℕ, ◌-◌, ◌<◌, ◌∙◌, ◌≡◌, ◌≤◌,
  ◌∷◌, ok, inl, inr,
}

-- Where the exit is, of a position that is opened at the index `j`.
exit_bounds :
    (side : Side) (tp : Option Decimal) (sl : Decimal) (j : ℕ) (klines : List Kline) (e : Exit)
    → j < length klines
    → exit_or_close klines (find_exit side tp sl j (drop j klines)) ≡ ok e
    → (j ≤ e.exit_idx) × (e.exit_idx < length klines)
unfolding exit_or_close
exit_bounds side tp sl j klines e inside h =
    let found = find_exit-IsExitOf side tp sl j (drop j klines) in
    elim (Option-cases (find_exit side tp sl j (drop j klines))) [
      | inl none_found ↦
          let (bar, is_bar, last) =
            >>=-eq-ok (at klines (length klines - 1)) _ (rw none_found at h) in
          let same = ap (λ (x : Exit). x.exit_idx) (ok_injective last) in
          (omega (arith, same, inside), omega (arith, same, inside))
      | inr (x, is_found) ↦
          let first : IsFirst side tp sl j (drop j klines) x =
            subst (IsExitOf side tp sl j (drop j klines)) is_found found in
          let same = ap (λ (y : Exit). y.exit_idx) (ok_injective (rw is_found at h)) in
          let len = ap length first.split ∙ length-append first.before (first.bar ∷ first.after) in
          (
            omega (arith, same, first.index),
            omega (arith, same, first.index, len, length-drop j klines),
          )
    ]

module _ (b : Backtester) (pair : String) (exchange : String) (ids : ℕ → Uuid)
    (klines : List Kline) where
  -- A trade on the signal that the strategy gave at the candle `i`, of which it saw the candles up to this one. The
  -- trade is opened at the candle after, on the signal's side, and closed at the candle `last`, where the exit
  -- for the signal's stop and its first target is.
  pub record IsHeld (i : ℕ) (t : SimulatedTrade) (last : ℕ) : Type 0 where
    pub signalled_at : Kline
    pub is_signalled_at : at klines i ≡ ok signalled_at
    pub sig : Signal
    pub signalled :
        b.strategy.evaluate
          (ids i)
          (snapshot_at b pair exchange ids klines i signalled_at)
          signalled_at.close_time
        ≡ ok (some sig)
    pub on_side : t.side ≡ sig.side
    pub opening : Kline
    pub is_opening : at klines (i + 1) ≡ ok opening
    pub opened : t.opened_at ≡ opening.open_time
    pub exit : Exit
    pub is_exit :
        exit_or_close klines
          (find_exit sig.side (head? sig.take_profits) sig.stop_loss (i + 1) (drop (i + 1) klines))
        ≡ ok exit
    pub exits_last : exit.exit_idx ≡ last
    pub because : t.exit_reason ≡ exit.exit_reason
    pub closing : Kline
    pub is_closing : at klines last ≡ ok closing
    pub closed : t.closed_at ≡ closing.close_time
    pub ordered : i < last

  -- What one turn at the index `i` gives: the next index is that after the turn's candle, or that after the exit of
  -- the trade which the turn has opened.
  abbrev pub TurnsTo : ℕ → Option SimulatedTrade × ℕ → Type 0
  TurnsTo i (none, next) = next ≡ i + 1
  TurnsTo i (some t, next) = (last : ℕ) × (next ≡ last + 1) × IsHeld i t last

  -- The strategy's word at the candle `i`, which it is asked when it closes.
  record Says (i : ℕ) (o : Option Signal) : Type 0 where
    candle : Kline
    is_candle : at klines i ≡ ok candle
    said :
        b.strategy.evaluate
          (ids i)
          (snapshot_at b pair exchange ids klines i candle)
          candle.close_time
        ≡ ok o

  simulate_turns :
      (i : ℕ) (sig : Signal) (qty : Decimal) (r : Option SimulatedTrade × ℕ)
      → Says i (some sig)
      → i + 1 < length klines
      → simulate b pair exchange ids klines i sig qty ≡ ok r
      → TurnsTo i r
  unfolding simulate
  simulate_turns i sig qty r says inside h =
      let (entry_bar, e1, r1) = >>=-eq-ok (at klines (i + 1)) _ h in
      let ((eff_entry, entry_fee, slip), e2, r2) =
        >>=-eq-ok (simulate_entry_fill sig.side qty entry_bar b.fill_model) _ r1 in
      let found =
        find_exit sig.side (head? sig.take_profits) sig.stop_loss (i + 1) (drop (i + 1) klines) in
      let (e, e3, r3) = >>=-eq-ok (exit_or_close klines found) _ r2 in
      let (funding, e4, r4) =
        >>=-eq-ok
          (funding_paid_for_hold (mul eff_entry qty)
            (mul b.bar_hours (of_ℕ (e.exit_idx - (i + 1) + 1))) b.fill_model)
          _ r3 in
      let ((eff_exit, exit_fee), e5, r5) =
        >>=-eq-ok (simulate_exit_fill sig.side qty e.exit_ref b.fill_model) _ r4 in
      let (exit_bar, e6, r6) = >>=-eq-ok (at klines e.exit_idx) _ r5 in
      let bounds =
        exit_bounds sig.side (head? sig.take_profits) sig.stop_loss (i + 1) klines e inside e3 in
      subst (TurnsTo i) (ok_injective r6) (
        e.exit_idx,
        refl,
        record {
          signalled_at = says.candle;
          is_signalled_at = says.is_candle;
          sig = sig;
          signalled = says.said;
          on_side = refl;
          opening = entry_bar;
          is_opening = e1;
          opened = refl;
          exit = e;
          is_exit = e3;
          exits_last = refl;
          because = refl;
          closing = exit_bar;
          is_closing = e6;
          closed = refl;
          ordered = omega (arith, bounds.0);
        },
      )

  -- A turn without a trade.
  skipped :
      (i : ℕ) (r : Option SimulatedTrade × ℕ)
      → Path (Result (Option SimulatedTrade × ℕ)) (ok (none, i + 1)) (ok r)
      → TurnsTo i r
  skipped i r h = subst (TurnsTo i) (ok_injective h) refl

  enter_turns :
      (i : ℕ) (sig : Signal) (r : Option SimulatedTrade × ℕ)
      → Says i (some sig)
      → i + 1 < length klines
      → enter b pair exchange ids klines i sig ≡ ok r
      → TurnsTo i r
  unfolding enter
  enter_turns i sig r says inside h =
      let stop_dist = abs (sub sig.entry sig.stop_loss) in
      elim (Bool-cases (le stop_dist (of_ℕ 0))) [
        | inl no_stop ↦ skipped i r (rw no_stop at h)
        | inr stop ↦
            let (share, e1, r1) =
              >>=-eq-ok (div b.risk_per_trade_bps (of_ℕ 10000)) _ (rw stop at h) in
            let (qty, e2, r2) = >>=-eq-ok (div (mul b.starting_equity share) stop_dist) _ r1 in
            elim (Bool-cases (le qty (of_ℕ 0))) [
              | inl no_qty ↦ skipped i r (rw no_qty at r2)
              | inr positive ↦ simulate_turns i sig qty r says inside (rw positive at r2)
            ]
      ]

  after_signal_turns :
      (i : ℕ) (o : Option Signal) (r : Option SimulatedTrade × ℕ)
      → Says i o
      → i + 1 < length klines
      → after_signal b pair exchange ids klines i o ≡ ok r
      → TurnsTo i r
  unfolding after_signal
  after_signal_turns i none r says inside h = skipped i r h
  after_signal_turns i (some sig) r says inside h = enter_turns i sig r says inside h

  pub step_turns :
      (i : ℕ) (r : Option SimulatedTrade × ℕ)
      → i + 1 < length klines
      → step b pair exchange ids klines i ≡ ok r
      → TurnsTo i r
  unfolding step
  step_turns i r inside h =
      let (bar, e1, r1) = >>=-eq-ok (at klines i) _ h in
      let (o, e2, r2) =
        >>=-eq-ok
          (b.strategy.evaluate (ids i) (snapshot_at b pair exchange ids klines i bar)
            bar.close_time)
          _ r1 in
      after_signal_turns i o r (record { candle = bar; is_candle = e1; said = e2 }) inside r2

  pub next_ahead : (i : ℕ) (r : Option SimulatedTrade × ℕ) → TurnsTo i r → i < r.1
  next_ahead i (none, next) h = omega (arith, h)
  next_ahead i (some t, next) (last, e, held) = omega (arith, e, held.ordered)
