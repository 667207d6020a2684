-- ===== src/Backtest/Runner/Exits.antt =====
-- The exit of a simulated position is the first candle that touches the stop or the target, the stop first.
use nexocrypto.Shared.{Kline, Side}
use nexocrypto.Backtest.Runner.{Exit, exit_at, find_exit, hit_sl, hit_tp, or_later}
use nexocrypto.Decimal.{Decimal}
use nexocrypto.Risk.Idempotency.{clear}
use nexocrypto.Prelude.{
  Bool-cases, List, Option, Option-cases, ap, arith, length, ℕ, ◌++◌, ◌+◌, ◌≡◌, ◌⊎◌, none, some, [],
  ◌∷◌, inl, inr, refl, true, false,
}

abbrev pub AllMiss : Side → Option Decimal → Decimal → List Kline → Type 0
AllMiss side tp sl [] = Unit
AllMiss side tp sl (bar ∷ rest) =
    (hit_sl side sl bar ≡ false) × (hit_tp side tp bar ≡ none) × AllMiss side tp sl rest

-- An exit at the candle `bar`: at the stop if it touches the stop, and else at the target.
abbrev pub TakesStopFirst : Side → Option Decimal → Decimal → Kline → Exit → Type 0
TakesStopFirst side tp sl bar e =
    ((hit_sl side sl bar ≡ true) × (e.exit_ref ≡ sl) × (e.exit_reason ≡ "sl"))
    ⊎ ((hit_sl side sl bar ≡ false)
        × (hit_tp side tp bar ≡ some e.exit_ref)
        × (e.exit_reason ≡ "tp"))

-- The first candle that touches one of the two prices, among those from the index `j` on.
pub record IsFirst (side : Side) (tp : Option Decimal) (sl : Decimal) (j : ℕ) (bars : List Kline)
    (e : Exit) : Type 0 where
  pub before : List Kline
  pub bar : Kline
  pub after : List Kline
  pub split : bars ≡ before ++ bar ∷ after
  pub missed : AllMiss side tp sl before
  pub index : e.exit_idx ≡ j + length before
  pub taken : TakesStopFirst side tp sl bar e

abbrev pub IsExitOf : Side → Option Decimal → Decimal → ℕ → List Kline → Option Exit → Type 0
IsExitOf side tp sl j bars none = AllMiss side tp sl bars
IsExitOf side tp sl j bars (some e) = IsFirst side tp sl j bars e

-- What one candle gives.
abbrev AtBar : Side → Option Decimal → Decimal → ℕ → Kline → Option Exit → Type 0
AtBar side tp sl j bar none = (hit_sl side sl bar ≡ false) × (hit_tp side tp bar ≡ none)
AtBar side tp sl j bar (some e) = (e.exit_idx ≡ j) × TakesStopFirst side tp sl bar e

exit_at_lem :
    (side : Side) (tp : Option Decimal) (sl : Decimal) (j : ℕ) (bar : Kline)
    → AtBar side tp sl j bar (exit_at side tp sl j bar)
unfolding exit_at
exit_at_lem side tp sl j bar = elim (Bool-cases (hit_sl side sl bar)) [
  | inl stopped ↦ rw stopped (refl, inl (stopped, refl, refl))
  | inr clear ↦ elim (Option-cases (hit_tp side tp bar)) [
    | inl missed ↦ rw (clear, missed) (clear, missed)
    | inr (ref, reached) ↦ rw (clear, reached) (refl, inr (clear, reached, refl))
  ]
]

module _ (side : Side) (tp : Option Decimal) (sl : Decimal) where
  or_later_lem :
      (j : ℕ) (bar : Kline) (rest : List Kline) (now later : Option Exit)
      → AtBar side tp sl j bar now
      → IsExitOf side tp sl (j + 1) rest later
      → IsExitOf side tp sl j (bar ∷ rest) (or_later now later)
  or_later_lem j bar rest (some e) later h k = record {
    before = [];
    bar = bar;
    after = rest;
    split = refl;
    missed = tt;
    index = omega (arith, h.0);
    taken = h.1;
  }
  or_later_lem j bar rest none none h k = (h.0, h.1, k)
  or_later_lem j bar rest none (some e) h k = record {
    before = bar ∷ k.before;
    bar = k.bar;
    after = k.after;
    split = ap (λ (xs : List Kline). bar ∷ xs) k.split;
    missed = (h.0, h.1, k.missed);
    index = omega (arith, k.index);
    taken = k.taken;
  }

-- The exit of a position is at the first candle that touches the stop or the target, and at the stop if that
-- candle touches both; without an exit, no candle touches either.
pub find_exit-IsExitOf :
    (side : Side) (tp : Option Decimal) (sl : Decimal) (j : ℕ) (bars : List Kline)
    → IsExitOf side tp sl j bars (find_exit side tp sl j bars)
unfolding find_exit
find_exit-IsExitOf side tp sl j [] = tt
find_exit-IsExitOf side tp sl j (bar ∷ rest) =
    or_later_lem side tp sl j bar rest (exit_at side tp sl j bar)
      (find_exit side tp sl (j + 1) rest) (exit_at_lem side tp sl j bar)
      (find_exit-IsExitOf side tp sl (j + 1) rest)
