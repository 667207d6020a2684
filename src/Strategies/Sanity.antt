-- ===== src/Strategies/Sanity.antt =====
-- What the signals of the strategies have in common, and the brackets of the structure strategy.
pub mod Setups
use nexocrypto.Prelude.{
  map_option, drop, value_of_Gives, ◌>>=◌, Gives, Gives-bind, Bool-cases, inl, inr, refl, List,
  Option, [], arith, false, length, ltb, true, ℕ, ◌-◌, ◌∷◌, ◌≡◌, ok, some, none,
}
use nexocrypto.Shared.{
  Formatting, Hashing, Datetime, Kline, MarketSnapshot, Side, Signal, Uuid, long, short,
}
use nexocrypto.Strategies.Structure.{
  gaps_from, first_setup, Gaps, StructureParams, bearish_setup, evaluate_structure, setup_of,
  structure_rule, structure_signal, when_some, Gap, Setup, bullish_setup,
}
use nexocrypto.Decimal.{Decimal, gap, lt}
use nexocrypto.Strategies.Trend.{
  TrendParams, TrendReading, evaluate_trend, trend_rule, trend_side, trend_signal,
}
use nexocrypto.Strategies.MeanReversion.{
  MeanReversionParams, VwapReading, evaluate_mean_reversion, reversion_rule, reversion_side,
  reversion_signal,
}
use nexocrypto.Strategies.Series.{at}
use nexocrypto.Strategies.Sanity.Setups.{IsBracketed, Brackets, SetupBrackets, setup_of_lem}

-- A signal made of a snapshot: of its pair, dated now, entered at the last close, with one target; and
-- there were enough candles.
pub record IsFrom (id : Uuid) (snapshot : MarketSnapshot) (now : Datetime) (min_bars : ℕ)
    (sig : Signal) : Type 0 where
  pub enough : ltb (length snapshot.klines) min_bars ≡ false
  pub last : Kline
  pub is_last : at snapshot.klines (length snapshot.klines - 1) ≡ ok last
  pub at_close : sig.entry ≡ last.close
  pub of_pair : sig.pair ≡ snapshot.pair
  pub dated : sig.created_at ≡ now
  pub own_id : sig.id ≡ id
  pub target : Decimal
  pub one_target : sig.take_profits ≡ target ∷ []

-- What holds of the signal, if there is one.
abbrev pub IfFired : (Signal → Type 0) → Option Signal → Type 0
IfFired P none = Unit
IfFired P (some sig) = P sig

IfFired-map :
    {A : Type 0} (P : Signal → Type 0) (f : A → Signal)
    → ((a : A) → P (f a))
    → (o : Option A) → IfFired P (map_option f o)
IfFired-map P f h none = tt
IfFired-map P f h (some a) = h a

module _ (hashing : Hashing) (formatting : Formatting) (id : Uuid) (snapshot : MarketSnapshot)
    (now : Datetime) where
  abbrev IsSane : ℕ → Signal → Type 0
  IsSane min_bars sig = IsFrom id snapshot now min_bars sig × IsBracketed sig

  structure_rule_lem :
      (params : StructureParams) (last : Kline) (o : Option Setup)
      → ltb (length snapshot.klines) params.min_bars ≡ false
      → at snapshot.klines (length snapshot.klines - 1) ≡ ok last
      → SetupBrackets last o
      → IfFired
          (IsSane params.min_bars)
          (structure_rule hashing formatting params id snapshot now last o)
  unfolding structure_rule structure_signal SetupBrackets
  structure_rule_lem params last none enough is_last h = tt
  structure_rule_lem params last (some setup) enough is_last h = (
    record {
      enough = enough;
      last = last;
      is_last = is_last;
      at_close = refl;
      of_pair = refl;
      dated = refl;
      own_id = refl;
      target = setup.tp;
      one_target = refl;
    },
    (setup.tp, refl, h),
  )

  structure-Gives :
      (params : StructureParams)
      → Gives
          (IfFired (IsSane params.min_bars))
          (evaluate_structure hashing formatting params id snapshot now)
  unfolding evaluate_structure
  structure-Gives params =
      let start = length snapshot.klines - params.lookback - 3 in
      let P = IfFired (IsSane params.min_bars) in
      elim (Bool-cases (ltb (length snapshot.klines) params.min_bars)) [
        | inl few ↦ rw few tt
        | inr enough ↦ rw enough (
            Gives-bind P _ _ (λ last is_last.
              Gives-bind P (gaps_from params start (drop start snapshot.klines))
                (λ gs. ok (
                  structure_rule hashing formatting params id snapshot now last
                    (setup_of gs last snapshot.klines)))
                (λ gs is_gaps.
                  structure_rule_lem params last (setup_of gs last snapshot.klines) enough is_last
                    (setup_of_lem gs last snapshot.klines))))
      ]

  trend_rule_lem :
      (params : TrendParams) (last prev : Kline) (o : Option TrendReading)
      → ltb (length snapshot.klines) params.min_bars ≡ false
      → at snapshot.klines (length snapshot.klines - 1) ≡ ok last
      → IfFired
          (IsFrom id snapshot now params.min_bars)
          (trend_rule hashing formatting params id snapshot now prev.close last.close o)
  unfolding trend_rule trend_signal
  trend_rule_lem params last prev none enough is_last = tt
  trend_rule_lem params last prev (some r) enough is_last =
      IfFired-map (IsFrom id snapshot now params.min_bars) _
        (λ side. record {
          enough = enough;
          last = last;
          is_last = is_last;
          at_close = refl;
          of_pair = refl;
          dated = refl;
          own_id = refl;
          target = _;
          one_target = refl;
        })
        (trend_side params r prev.close last.close)

  pub trend-Gives :
      (params : TrendParams)
      → Gives
          (IfFired (IsFrom id snapshot now params.min_bars))
          (evaluate_trend hashing formatting params id snapshot now)
  unfolding evaluate_trend
  trend-Gives params =
      let klines = snapshot.klines in
      let i = length klines - 1 in
      let P = IfFired (IsFrom id snapshot now params.min_bars) in
      let rule = λ (reading : Option TrendReading) (last prev : Kline).
        trend_rule hashing formatting params id snapshot now prev.close last.close reading in
      elim (Bool-cases (ltb (length klines) params.min_bars)) [
        | inl few ↦ rw few tt
        | inr enough ↦ rw enough (
            Gives-bind P _ _ (λ reading is_reading.
              Gives-bind P (at klines i)
                (λ last. at klines (i - 1) >>= (λ prev. ok (rule reading last prev)))
                (λ last is_last.
                  Gives-bind P (at klines (i - 1)) (λ prev. ok (rule reading last prev))
                    (λ prev is_prev. trend_rule_lem params last prev reading enough is_last))))
      ]

  reversion_rule_lem :
      (params : MeanReversionParams) (last : Kline) (o : Option VwapReading)
      → ltb (length snapshot.klines) params.min_bars ≡ false
      → at snapshot.klines (length snapshot.klines - 1) ≡ ok last
      → IfFired
          (IsFrom id snapshot now params.min_bars)
          (reversion_rule hashing formatting params id snapshot now last.close o)
  unfolding reversion_rule reversion_signal
  reversion_rule_lem params last none enough is_last = tt
  reversion_rule_lem params last (some r) enough is_last =
      IfFired-map (IsFrom id snapshot now params.min_bars) _
        (λ side. record {
          enough = enough;
          last = last;
          is_last = is_last;
          at_close = refl;
          of_pair = refl;
          dated = refl;
          own_id = refl;
          target = r.vwap_now;
          one_target = refl;
        })
        (reversion_side params r last.close)

  pub reversion-Gives :
      (params : MeanReversionParams)
      → Gives
          (IfFired (IsFrom id snapshot now params.min_bars))
          (evaluate_mean_reversion hashing formatting params id snapshot now)
  unfolding evaluate_mean_reversion
  reversion-Gives params =
      let klines = snapshot.klines in
      let i = length klines - 1 in
      let P = IfFired (IsFrom id snapshot now params.min_bars) in
      elim (Bool-cases (ltb (length klines) params.min_bars)) [
        | inl few ↦ rw few tt
        | inr enough ↦ rw enough (
            Gives-bind P _ _ (λ reading is_reading.
              Gives-bind P (at klines i)
                (λ last.
                  ok (reversion_rule hashing formatting params id snapshot now last.close reading))
                (λ last is_last. reversion_rule_lem params last reading enough is_last)))
      ]

-- A signal of the structure strategy is made of the snapshot that it was given, with the snapshot's last
-- close as its entry, and the entry stands strictly between the stop and the target.
pub evaluate_structure-IsBracketed :
    (hashing : Hashing) (formatting : Formatting) (params : StructureParams) (id : Uuid)
    (snapshot : MarketSnapshot) (now : Datetime) (sig : Signal)
    → evaluate_structure hashing formatting params id snapshot now ≡ ok (some sig)
    → IsFrom id snapshot now params.min_bars sig × IsBracketed sig
evaluate_structure-IsBracketed hashing formatting params id snapshot now sig e =
    value_of_Gives (IfFired (λ s. IsFrom id snapshot now params.min_bars s × IsBracketed s)) _
      (structure-Gives hashing formatting id snapshot now params) e
