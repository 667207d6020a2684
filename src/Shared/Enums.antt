-- ===== src/Shared/Enums.antt =====
-- packages/shared/src/nexocrypto_shared/enums.py
use nexocrypto.Prelude.{Bool, true, false, String}

pub data Mode : Type 0 where
  backtest paper semi_auto full_auto breakeven_protection manual_override : Mode

pub data Side : Type 0 where
  long short : Side

pub data MarginType : Type 0 where
  isolated cross : MarginType

pub data OrderType : Type 0 where
  market limit stop_market stop_limit reduce_only_market reduce_only_limit : OrderType

-- `mode in (Mode.SEMI_AUTO, Mode.FULL_AUTO)`
abbrev pub is_live : Mode → Bool
is_live semi_auto = true
is_live full_auto = true
is_live _ = false

abbrev pub is_semi_auto : Mode → Bool
is_semi_auto semi_auto = true
is_semi_auto _ = false

abbrev pub is_full_auto : Mode → Bool
is_full_auto full_auto = true
is_full_auto _ = false

-- `mode.value`
abbrev pub mode_value : Mode → String
mode_value backtest = "backtest"
mode_value paper = "paper"
mode_value semi_auto = "semi_auto"
mode_value full_auto = "full_auto"
mode_value breakeven_protection = "breakeven_protection"
mode_value manual_override = "manual_override"

-- `side.value`
abbrev pub side_value : Side → String
side_value long = "long"
side_value short = "short"
