-- ===== src/Api/State.antt =====
-- services/api/src/nexocrypto_api/store.py: the state of `InMemoryStore`. A dict from users to lists is a
-- function of the user. `uuid4` takes the next of a supply of numbers, so ids do not collide. A decimal
-- that the source keeps as its text is kept as the number: `Decimal(str(d))` is `d`.
use nexocrypto.Prelude.{
  Bool, Dict, List, Option, String, [], if◌then◌else◌, none, ℕ, ◌++◌, ◌==◌, ◌∷◌,
}
use nexocrypto.Decimal.{Decimal}
use nexocrypto.Shared.{Datetime, FeeSchedule, Mode, RiskProfile, Side, Signal, Uuid}

-- A row of `_signals`: a parsed candidate, or the verdict on one.
pub data SignalRow : Type 0 where
  parsed : Uuid → Uuid → Signal → Option String → SignalRow
  validated : Uuid → Uuid → Uuid → Bool → Option String → Option Decimal → SignalRow

pub record Approval : Type 0 where
  pub id : Uuid
  pub user_id : Uuid
  pub status : String
  pub resolution_reason : Option String
  pub signal_id : Uuid
  pub pair : String
  pub side : Side
  pub entry : Decimal
  pub stop_loss : Decimal
  pub take_profits : List Decimal
  pub leverage : Option Decimal
  pub qty : Option Decimal
  pub ev_net_bps : Option Decimal
  pub idempotency_key : String

-- The trade and the order that the coordinator records.
pub record Trade : Type 0 where
  pub id : Uuid
  pub exchange : String
  pub pair : String
  pub side : Side
  pub strategy : Option String
  pub mode : Mode
  pub entry_price : Option Decimal
  pub qty : Decimal
  pub leverage : Option Decimal
  pub status : String

pub record Order : Type 0 where
  pub id : Uuid
  pub trade_id : Uuid
  pub exchange_order_id : Option String
  pub order_type : String
  pub side : Side
  pub price : Option Decimal
  pub qty : Decimal
  pub reduce_only : Bool
  pub status : String
  pub idempotency_key : String

-- A value among the details of an audit row: the text of an id, or a text that may be `None`.
pub data Detail : Type 0 where
  uuid_text : Uuid → Detail
  text : Option String → Detail

pub record AuditLog : Type 0 where
  pub id : Uuid
  pub actor : String
  pub action : String
  pub reason : String
  pub details : Dict Detail

pub record ModeState : Type 0 where
  pub mode : Mode
  pub paper_trades_count : ℕ
  pub live_unlocked : Bool
  pub account_protection_lock : Bool

pub record Tenant : Type 0 where
  pub id : Uuid
  pub external_user_id : String
  pub email : String
  pub display_name : Option String
  pub tier : String
  pub status : String
  pub api_token : String

-- A stored connection, with the encrypted key and secret.
pub record Connection : Type 0 where
  pub id : Uuid
  pub user_id : Uuid
  pub exchange : String
  pub api_key_enc : String
  pub api_secret_enc : String
  pub ip_allowlist : Option (List String)
  pub status : String
  pub last_tested_at : Option Datetime

-- What a client sees of a connection: no secrets.
pub record ConnectionView : Type 0 where
  pub id : Uuid
  pub user_id : Uuid
  pub exchange : String
  pub status : String
  pub ip_allowlist : Option (List String)
  pub last_tested_at : Option Datetime

pub record Store : Type 0 where
  pub signals : List SignalRow
  pub approvals : List Approval
  pub trades : Uuid → List Trade
  pub orders : Uuid → List Order
  pub audit : Uuid → List AuditLog
  pub modes : Uuid → Option ModeState
  pub risk_profiles : Uuid → Option RiskProfile
  pub fee_schedules : List FeeSchedule
  pub connections : List Connection
  pub tenants : List Tenant
  pub next_uuid : Uuid

-- `InMemoryStore()`
abbrev pub empty_store : Store
empty_store = record {
  signals = [];
  approvals = [];
  trades = λ _. [];
  orders = λ _. [];
  audit = λ _. [];
  modes = λ _. none;
  risk_profiles = λ _. none;
  fee_schedules = [];
  connections = [];
  tenants = [];
  next_uuid = 0;
}

-- `d[user] = v`
abbrev pub update {ℓ} : {V : Type ℓ} → (Uuid → V) → Uuid → V → Uuid → V
update f user v other = if other == user then v else f other

-- `d.setdefault(user, []).append(v)`
abbrev pub append {ℓ} : {V : Type ℓ} → (Uuid → List V) → Uuid → V → Uuid → List V
append f user v = update f user (f user ++ v ∷ [])
