-- ===== src/Strategies/Sanity/Setups.antt =====
-- The setups that strategy/fvg_ob.py finds, and the prices around them.
use nexocrypto.Prelude.{List, Option, [], arith, true, ◌∷◌, ◌≡◌, some, none}
use nexocrypto.Shared.{Kline, Side, Signal, long, short}
use nexocrypto.Strategies.Structure.{
  first_setup, Gaps, bearish_setup, setup_of, when_some, Gap, Setup, bullish_setup,
}
use nexocrypto.Decimal.{Decimal, gap, lt}

-- The entry stands strictly between the stop and the target, on the side's way round.
abbrev pub Brackets : Side → Decimal → Decimal → Decimal → Type 0
Brackets long sl entry tp = (lt sl entry ≡ true) × (lt entry tp ≡ true)
Brackets short sl entry tp = (lt entry sl ≡ true) × (lt tp entry ≡ true)

abbrev pub IsBracketed : Signal → Type 0
IsBracketed sig =
    (tp : Decimal) × (sig.take_profits ≡ tp ∷ []) × Brackets sig.side sig.stop_loss sig.entry tp

unfoldable pub SetupBrackets : Kline → Option Setup → Type 0
SetupBrackets last none = Unit
SetupBrackets last (some setup) = Brackets setup.side setup.sl last.close setup.tp

bullish_setup_lem :
    (gap : Gap) (last : Kline) (klines : List Kline)
    → SetupBrackets last (bullish_setup gap last klines)
unfolding SetupBrackets
bullish_setup_lem gap last klines = ground arith

bearish_setup_lem :
    (gap : Gap) (last : Kline) (klines : List Kline)
    → SetupBrackets last (bearish_setup gap last klines)
unfolding SetupBrackets
bearish_setup_lem gap last klines = ground arith

when_some_lem :
    (last : Kline) (o : Option Gap) (f : Gap → Option Setup)
    → ((gap : Gap) → SetupBrackets last (f gap))
    → SetupBrackets last (when_some o f)
unfolding when_some SetupBrackets
when_some_lem last none f h = tt
when_some_lem last (some gap) f h = h gap

first_setup_lem :
    (last : Kline) (a b : Option Setup)
    → SetupBrackets last a
    → SetupBrackets last b
    → SetupBrackets last (first_setup a b)
first_setup_lem last (some setup) b h k = h
first_setup_lem last none b h k = k

pub setup_of_lem :
    (gs : Gaps) (last : Kline) (klines : List Kline) → SetupBrackets last (setup_of gs last klines)
unfolding setup_of
setup_of_lem gs last klines =
    first_setup_lem last _ _
      (when_some_lem last gs.bullish _ (λ gap. bullish_setup_lem gap last klines))
      (when_some_lem last gs.bearish _ (λ gap. bearish_setup_lem gap last klines))
