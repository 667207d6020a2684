-- ===== src/Risk/Ev/Gate.antt =====
-- The gate of risk/ev.py: what it demands in live modes, what funding it counts, and when it raises.
use nexocrypto.Prelude.{◌≡◌, true, false, Option, none, some, arith, ltb, ok, Returns}
use nexocrypto.Decimal.{Decimal, le, is_zero, of_ℤ, div}
use nexocrypto.Shared.{Mode, is_live}
use nexocrypto.Risk.Types.{is_ok, StrategyStats, RejectReason}
use nexocrypto.Risk.Ev.{EvVerdict, EvInputs, expected_funding_bps, ev_net_bps, ev_passes}

-- The interval of a venue is not 0.
abbrev pub HasInterval : EvInputs → Type 0
HasInterval i = is_zero (of_ℤ i.funding_interval_hours) ≡ false

expected_funding_total : (i : EvInputs) → HasInterval i → Returns (expected_funding_bps i)
unfolding expected_funding_bps div
expected_funding_total i h = ground arith

ev_net_total : (st : StrategyStats) (i : EvInputs) → HasInterval i → Returns (ev_net_bps st i)
unfolding ev_net_bps
ev_net_total st i h = ground (arith, expected_funding_total i h)

-- The expected value gate raises nothing, if the funding interval of its venue is not 0.
pub ev_passes_total :
    (st : Option StrategyStats) (i : EvInputs) (m : Mode) (min_bps : Decimal)
    → HasInterval i
    → Returns (ev_passes st i m min_bps)
unfolding ev_passes
ev_passes_total none i m min_bps h = tt
ev_passes_total (some st) i m min_bps h = ground (arith, ev_net_total st i h)

-- What the gate has seen when it lets an entry through.
abbrev pub EvAccepts : Option StrategyStats → EvInputs → Mode → Decimal → Option Decimal → Type 0
EvAccepts none i m min_bps ev = (is_live m ≡ false) × (ev ≡ none)
EvAccepts (some st) i m min_bps none =
    (is_live m ≡ false) × (ltb st.sample_size st.min_sample_for_live ≡ true)
EvAccepts (some st) i m min_bps (some ev) =
    (ltb st.sample_size st.min_sample_for_live ≡ false)
    × (ev_net_bps st i ≡ ok ev)
    × (le ev min_bps ≡ false)

-- If the expected value gate passes, then either the mode is not live and there is no figure, since the
-- strategy has no statistics or too few samples, or there are samples enough and the figure is the
-- strategy's net expected value, above the minimum.
pub ev_passes-EvAccepts :
    (st : Option StrategyStats) (i : EvInputs) (m : Mode) (min_bps : Decimal)
    (reason : RejectReason) (ev : Option Decimal)
    → ev_passes st i m min_bps ≡ ok (true, reason, ev)
    → EvAccepts st i m min_bps ev
unfolding ev_passes
ev_passes-EvAccepts none i m min_bps r ev e = ground arith
ev_passes-EvAccepts (some st) i m min_bps r none e = ground arith
ev_passes-EvAccepts (some st) i m min_bps r (some ev) e = ground arith

-- A refusal carries a reason other than `reason_ok`.
pub ev_refusal :
    (st : Option StrategyStats) (i : EvInputs) (m : Mode) (min_bps : Decimal) (v : EvVerdict)
    → ev_passes st i m min_bps ≡ ok v
    → v.0 ≡ false
    → is_ok v.1 ≡ false
unfolding ev_passes
ev_refusal none i m min_bps (b, r, ev) e h = ground arith
ev_refusal (some st) i m min_bps (b, r, ev) e h = ground arith
