-- ===== src/Telegram/Control.antt =====
-- services/telegram_control/src/nexocrypto_telegram_control/bot.py: the data of a button, its parsing, and the
-- dispatch to the handlers that are registered. `UUID.hex` and `UUID(hex=...)` are an argument.
pub mod RoundTrip
use nexocrypto.Shared.{Uuid}
use nexocrypto.Telegram.Texts.{partition_colon, with_colon}
use nexocrypto.Prelude.{
  Bool, Dict, List, Option, Result, String, if◌then◌else◌, insert, lookup, map_option, str_eq, ◌++◌,
  ◌==◌, ◌≡◌, none, some, [], ◌∷◌, ℕ, false, true,
}

-- `Action`
pub data Action : Type 0 where
  approve reject continue close breakeven protect pause : Action

-- `action.value`
abbrev pub action_value : Action → String
action_value approve = "approve"
action_value reject = "reject"
action_value continue = "continue"
action_value close = "close"
action_value breakeven = "breakeven"
action_value protect = "protect"
action_value pause = "pause"

abbrev pub actions : List Action
actions = approve ∷ reject ∷ continue ∷ close ∷ breakeven ∷ protect ∷ pause ∷ []

-- `Action(value)`: the member with this value.
pub find_action : List Action → String → Option Action
find_action [] s = none
find_action (a ∷ rest) s = if str_eq (action_value a) s then some a else find_action rest s

-- What the library does with the text of a UUID.
pub record UuidText : Type 0 where
  pub hex : Uuid → String
  pub of_hex : String → Option Uuid
  pub of_hex-hex : (id : Uuid) → of_hex (hex id) ≡ some id

pub record ApprovalCallback : Type 0 where
  pub action : Action
  pub target_id : Uuid
  pub raw : String

-- `CallbackHandlerResult`
pub record HandlerResult : Type 0 where
  pub ok : Bool
  pub user_visible_text : Option String
  pub edit_message : Bool

-- A handler's answer to a click, which may be an exception.
abbrev pub Handler : Type 0
Handler = Uuid → Result HandlerResult

-- `ControlBot`: the handlers, keyed by the action's value.
pub record ControlBot : Type 0 where
  pub handlers : Dict Handler

unfoldable pub register : Action → Handler → ControlBot → ControlBot
register action handler bot = record {
  handlers = insert (action_value action) handler bot.handlers;
}

module _ (u : UuidText) where
  -- `_cb`
  abbrev pub cb : Action → Uuid → String
  cb action target_id = with_colon (action_value action) (u.hex target_id)

  -- The data of the buttons, row by row; their labels are left out.
  unfoldable pub build_approval_keyboard : Uuid → List (List String)
  build_approval_keyboard id = (cb approve id ∷ cb reject id ∷ []) ∷ []

  unfoldable pub build_position_keyboard : Uuid → List (List String)
  build_position_keyboard id =
      (cb continue id ∷ cb close id ∷ [])
      ∷ (cb breakeven id ∷ cb protect id ∷ [])
      ∷ (cb pause id ∷ [])
      ∷ []

  pub callback_of : String → Option Action → Option Uuid → Option ApprovalCallback
  callback_of raw (some action) (some id) =
      some (record { action = action; target_id = id; raw = raw })
  callback_of raw _ _ = none

  pub callback_of_parts : String → Option (String × String) → Option ApprovalCallback
  unfolding callback_of find_action
  callback_of_parts raw none = none
  callback_of_parts raw (some (action_s, uid_s)) =
      callback_of raw (find_action actions action_s) (u.of_hex uid_s)

  unfoldable pub parse_callback_data : String → Option ApprovalCallback
  unfolding callback_of_parts
  parse_callback_data raw = callback_of_parts raw (partition_colon raw)

  -- The handler of a parsed callback, applied: `none` where there is none.
  pub handle : ControlBot → Option ApprovalCallback → Option (Result HandlerResult)
  handle bot none = none
  handle bot (some c) =
      map_option (λ (h : Handler). h c.target_id) (lookup (action_value c.action) bot.handlers)

  unfoldable pub dispatch_callback : ControlBot → String → Option (Result HandlerResult)
  unfolding handle
  dispatch_callback bot raw = handle bot (parse_callback_data raw)
