-- ===== src/Paper/Tick.antt =====
-- When a paper tick opens a position.
use nexocrypto.Paper.{
  PaperTick, PaperTickResult, fill_decision, fill_qty, no_fill, paper_request, paper_tick,
  no_signal_decision, open_trade,
}
use nexocrypto.Prelude.{
  ap, ◌∙◌, Option, value_of_Returns, Bool-cases, false, inl, inr, none, ok, refl, some, true, ◌≡◌,
  ◌⊎◌,
}
use nexocrypto.Shared.{Hashing, Signal, TradeDecision}
use nexocrypto.Risk.Engine.{authorize_new_entry}
use nexocrypto.Backtest.Fills.{ConservativeFillModel, SimulatedTrade}
use nexocrypto.Risk.Idempotency.{IdempotencyStore}
use nexocrypto.Decimal.{Decimal}
use nexocrypto.Risk.Engine.Approval.{IsAuthorized, authorize-IsAuthorized}
use nexocrypto.Risk.Ev.Gate.{HasInterval}
use nexocrypto.Risk.Engine.Refusal.{authorize-IsRefused, authorize_total}
use nexocrypto.Backtest.Fills.Costs.{entry_fill, simulate_entry_fill_lem}

module _ (hashing : Hashing) (store : IdempotencyStore) (model : ConservativeFillModel) where
  open store use {State}

  -- A position of the decision's quantity, for the signal's pair and side.
  pub record IsFilled (tick : PaperTick) (sig : Signal) (s : State) (x : PaperTickResult)
      (s' : State) : Type 0 where
    pub trade : SimulatedTrade
    pub fill : x.entry_fill ≡ some trade
    pub authorized : IsAuthorized hashing store (paper_request tick sig) s x.decision s'
    pub qty : x.decision.intended_qty ≡ some trade.qty
    pub pair : trade.pair ≡ sig.pair
    pub side : trade.side ≡ sig.side
    pub no_profit_yet : trade.exit_price ≡ trade.entry_price

  -- No position, and a decision that approves nothing.
  abbrev pub IsIdle : State → PaperTickResult → State → Type 0
  IsIdle s x s' = (x.entry_fill ≡ none) × (x.decision.approved ≡ false) × (s' ≡ s)

  abbrev opened : PaperTick → Signal → Decimal → SimulatedTrade
  opened tick sig qty =
      open_trade sig qty tick.next_bar (entry_fill sig.side qty tick.next_bar model)

  fill_qty_approved :
      (tick : PaperTick) (sig : Signal) (d : TradeDecision) (qty : Decimal)
      → d.approved ≡ true
      → fill_qty hashing store model tick sig d (some qty)
        ≡ ok (record { decision = d; taken = some sig; entry_fill = some (opened tick sig qty) })
  unfolding fill_qty
  fill_qty_approved tick sig d qty h =
      rw (h, (simulate_entry_fill_lem sig.side qty tick.next_bar model).0) refl

  fill_qty_idle :
      (tick : PaperTick) (sig : Signal) (d : TradeDecision) (qty : Option Decimal)
      → d.approved ≡ false
      → fill_qty hashing store model tick sig d qty ≡ ok (no_fill d (some sig))
  unfolding fill_qty
  fill_qty_idle tick sig d none h = refl
  fill_qty_idle tick sig d (some qty) h = rw h refl

  paper_tick_goes :
      (tick : PaperTick) (sig : Signal) (s : State) (d : TradeDecision) (s' : State)
      (x : PaperTickResult)
      → authorize_new_entry hashing store (paper_request tick sig) s ≡ ok (d, s')
      → fill_qty hashing store model tick sig d d.intended_qty ≡ ok x
      → paper_tick hashing store model tick (some sig) s ≡ ok (x, s')
  unfolding paper_tick fill_decision
  paper_tick_goes tick sig s d s' x e f = rw (e, f) refl

  paper_tick_lem :
      (tick : PaperTick) (sig : Signal) (s : State) (d : TradeDecision) (s' : State)
      → authorize_new_entry hashing store (paper_request tick sig) s ≡ ok (d, s')
      → (x : PaperTickResult) × (paper_tick hashing store model tick (some sig) s ≡ ok (x, s'))
        × (IsFilled tick sig s x s' ⊎ IsIdle s x s')
  unfolding open_trade
  paper_tick_lem tick sig s d s' e = elim (Bool-cases d.approved) [
    | inl yes_ok ↦
        let auth = authorize-IsAuthorized hashing store (paper_request tick sig) s d s' e yes_ok in
        let t = opened tick sig auth.size.qty in
        (
          record { decision = d; taken = some sig; entry_fill = some t },
          paper_tick_goes tick sig s d s' _ e (
              ap (fill_qty hashing store model tick sig d) auth.qty
              ∙ fill_qty_approved tick sig d auth.size.qty yes_ok),
          inl (record {
            trade = t;
            fill = refl;
            authorized = auth;
            qty = auth.qty;
            pair = refl;
            side = refl;
            no_profit_yet = refl;
          }),
        )
    | inr not_ok ↦ (
      no_fill d (some sig),
      paper_tick_goes tick sig s d s' _ e (fill_qty_idle tick sig d d.intended_qty not_ok),
      inr (
        refl,
        not_ok,
        elim (authorize-IsRefused hashing store (paper_request tick sig) s d s' e) [
          | inl yes_ok ↦ cc (yes_ok, not_ok)
          | inr refusal ↦ refusal.store_kept
        ],
      ),
    )
  ]

  -- What one tick does, with or without a signal.
  abbrev pub IsTicked : PaperTick → Option Signal → State → PaperTickResult → State → Type 0
  IsTicked tick none s x s' = IsIdle s x s'
  IsTicked tick (some sig) s x s' = IsFilled tick sig s x s' ⊎ IsIdle s x s'

  -- If the funding interval of the venue is not 0, a tick returns. Either it opens a position, of the
  -- quantity of a decision that the risk engine has authorized for the signal in paper mode, or it
  -- opens none, approves nothing and leaves the store as it was; without a signal, the latter.
  pub paper_tick_opens :
      (tick : PaperTick) (o : Option Signal) (s : State)
      → HasInterval tick.ev_inputs
      → (x : PaperTickResult) × (s' : State) × (paper_tick hashing store model tick o s
          ≡ ok (x, s'))
        × IsTicked tick o s x s'
  unfolding paper_tick no_signal_decision
  paper_tick_opens tick none s h =
      (no_fill (no_signal_decision hashing tick) none, s, refl, (refl, refl, refl))
  paper_tick_opens tick (some sig) s h =
      let ((d, s'), e) =
        value_of_Returns _ (authorize_total hashing store (paper_request tick sig) s h) in
      let (x, goes, is_ticked) = paper_tick_lem tick sig s d s' e in (x, s', goes, is_ticked)
