-- ===== src/Risk/Protected/Ratchet.antt =====
-- The protected floor of risk/protected.py only moves up, on one update and along any run of them.
use nexocrypto.Prelude.{
  List, [], ◌∷◌, Result, ◌>>=◌, >>=-eq-ok, Returns, ◌↔◌, ◌≡◌, true, false, Option, none, some,
  arith, ok,
}
use nexocrypto.Decimal.{Decimal, le, lt, max, of_ℕ, sub, mul}
use nexocrypto.Decimal.Order.{lt-eq-not-le, le_refl, le_trans, le-max_left, le-max_right}
use nexocrypto.Risk.Protected.{
  should_trigger_protected_exit, ProtectedProfitState, raise_floor, advance_protected_floor,
}

-- The floor is at least the prior one, if there was one.
abbrev pub AboveFloor : Option Decimal → Decimal → Type 0
AboveFloor none floor = Unit
AboveFloor (some prior) floor = le prior floor ≡ true

-- One update: the peak and the floor are not lowered, the peak covers the present profit, and the
-- floor covers the share of the peak that may not be given back.
pub record IsRaised (pnl peak : Decimal) (floor : Option Decimal) (giveback : Decimal)
    (s : ProtectedProfitState) : Type 0 where
  pub peak_kept : le peak s.peak_gain_net ≡ true
  pub peak_covers : le pnl s.peak_gain_net ≡ true
  pub floor_kept : AboveFloor floor s.protected_floor_net
  pub floor_covers : le (mul s.peak_gain_net (sub (of_ℕ 1) giveback)) s.protected_floor_net ≡ true

raise_floor_kept :
    (floor : Option Decimal) (candidate : Decimal) → AboveFloor floor (raise_floor floor candidate)
unfolding raise_floor
raise_floor_kept none candidate = tt
raise_floor_kept (some floor) candidate = le-max_left floor candidate

raise_floor_covers :
    (floor : Option Decimal) (candidate : Decimal)
    → le candidate (raise_floor floor candidate) ≡ true
unfolding raise_floor
raise_floor_covers none candidate = le_refl candidate
raise_floor_covers (some floor) candidate = le-max_right floor candidate

-- An update that returns lowers neither the peak nor the floor, and both cover the present profit's due.
pub advance-IsRaised :
    (pnl peak : Decimal) (floor : Option Decimal) (giveback : Decimal) (s : ProtectedProfitState)
    → advance_protected_floor pnl peak floor giveback ≡ ok s
    → IsRaised pnl peak floor giveback s
unfolding advance_protected_floor
advance-IsRaised pnl peak floor giveback s e =
    let candidate = mul (max peak pnl) (sub (of_ℕ 1) giveback) in
    ground (
      arith,
      le-max_left peak pnl,
      le-max_right peak pnl,
      raise_floor_kept floor candidate,
      raise_floor_covers floor candidate,
    )

-- The updates of one position along a run of net profits, each from the state before it.
unfoldable pub advance_all :
    Decimal → List Decimal → ProtectedProfitState → Result ProtectedProfitState
advance_all giveback [] s = ok s
advance_all giveback (pnl ∷ pnls) s =
    advance_protected_floor pnl s.peak_gain_net (some s.protected_floor_net) giveback
    >>= advance_all giveback pnls

abbrev pub AllBelow : Decimal → List Decimal → Type 0
AllBelow peak [] = Unit
AllBelow peak (pnl ∷ pnls) = (le pnl peak ≡ true) × AllBelow peak pnls

-- What a run keeps: neither the floor nor the peak has fallen, and the peak covers every profit.
pub record IsRatcheted (pnls : List Decimal) (s t : ProtectedProfitState) : Type 0 where
  pub floor_kept : le s.protected_floor_net t.protected_floor_net ≡ true
  pub peak_kept : le s.peak_gain_net t.peak_gain_net ≡ true
  pub peak_covers : AllBelow t.peak_gain_net pnls

-- Along any run of updates that returns, neither the protected floor nor the peak falls, and the peak
-- covers every profit of the run.
pub advance_all-IsRatcheted :
    (giveback : Decimal) (pnls : List Decimal) (s t : ProtectedProfitState)
    → advance_all giveback pnls s ≡ ok t
    → IsRatcheted pnls s t
unfolding advance_all
advance_all-IsRatcheted giveback [] s t e = record {
  floor_kept = ground (arith, le_refl s.protected_floor_net);
  peak_kept = ground (arith, le_refl s.peak_gain_net);
  peak_covers = tt;
}
advance_all-IsRatcheted giveback (pnl ∷ pnls) s t e =
    let (u, first, rest) =
      >>=-eq-ok (advance_protected_floor pnl s.peak_gain_net (some s.protected_floor_net) giveback)
        (advance_all giveback pnls) e in
    let up = advance-IsRaised pnl s.peak_gain_net (some s.protected_floor_net) giveback u first in
    let more = advance_all-IsRatcheted giveback pnls u t rest in
    record {
      floor_kept =
          le_trans s.protected_floor_net u.protected_floor_net t.protected_floor_net up.floor_kept
            more.floor_kept;
      peak_kept =
          le_trans s.peak_gain_net u.peak_gain_net t.peak_gain_net up.peak_kept more.peak_kept;
      peak_covers = (
        le_trans pnl u.peak_gain_net t.peak_gain_net up.peak_covers more.peak_kept,
        more.peak_covers,
      );
    }

-- A giveback above 0 and at most 1 is accepted along every run.
pub advance_all_total :
    (giveback : Decimal) (pnls : List Decimal) (s : ProtectedProfitState)
    → le giveback (of_ℕ 0) ≡ false
    → lt (of_ℕ 1) giveback ≡ false
    → Returns (advance_all giveback pnls s)
unfolding advance_all advance_protected_floor
advance_all_total giveback [] s lo hi = tt
advance_all_total giveback (pnl ∷ pnls) s lo hi =
    rw (lo, hi) (advance_all_total giveback pnls _ lo hi)

-- A floor above 0 that the profit has fallen to.
abbrev pub HasFallen : Decimal → Option Decimal → Type 0
HasFallen pnl none = ⊥
HasFallen pnl (some floor) = (lt (of_ℕ 0) floor ≡ true) × (le pnl floor ≡ true)

-- The protected exit triggers exactly if there is a floor above 0 and the profit is at or below it.
pub should_trigger_iff :
    (pnl : Decimal) (floor : Option Decimal)
    → (should_trigger_protected_exit pnl floor ≡ true) ↔ HasFallen pnl floor
unfolding should_trigger_protected_exit
should_trigger_iff pnl none = ground arith
should_trigger_iff pnl (some floor) = ground (arith, lt-eq-not-le (of_ℕ 0) floor)
