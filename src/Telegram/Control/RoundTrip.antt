-- ===== src/Telegram/Control/RoundTrip.antt =====
-- The data of a button is parsed back, and reaches the handler of its action.
use nexocrypto.Prelude.{
  Bool, Option, ap, lookup, map_option, ◌∙◌, if◌then◌else◌, lookup-insert, str_eq, ◌≡◌, some, false,
  true, refl,
}
use nexocrypto.Telegram.Texts.{NoColon, partition_colon-with_colon}
use nexocrypto.Shared.{Uuid}
use nexocrypto.Telegram.Control.{
  callback_of_parts, callback_of, ControlBot, Handler, UuidText, cb, dispatch_callback, handle,
  parse_callback_data, register, Action, action_value, approve, reject, continue, close, breakeven,
  protect, pause, actions, find_action,
}

action_value-NoColon : (a : Action) → NoColon (action_value a)
unfolding NoColon
action_value-NoColon approve = (refl, (refl, (refl, (refl, (refl, (refl, (refl, tt)))))))
action_value-NoColon reject = (refl, (refl, (refl, (refl, (refl, (refl, tt))))))
action_value-NoColon continue = (refl, (refl, (refl, (refl, (refl, (refl, (refl, (refl, tt))))))))
action_value-NoColon close = (refl, (refl, (refl, (refl, (refl, tt)))))
action_value-NoColon breakeven =
    (refl, (refl, (refl, (refl, (refl, (refl, (refl, (refl, (refl, tt)))))))))
action_value-NoColon protect = (refl, (refl, (refl, (refl, (refl, (refl, (refl, tt)))))))
action_value-NoColon pause = (refl, (refl, (refl, (refl, (refl, tt)))))

find_action-action_value : (a : Action) → find_action actions (action_value a) ≡ some a
unfolding find_action
find_action-action_value approve = refl
find_action-action_value reject = refl
find_action-action_value continue = refl
find_action-action_value close = refl
find_action-action_value breakeven = refl
find_action-action_value protect = refl
find_action-action_value pause = refl

parse_callback_data-cb :
    (u : UuidText) (a : Action) (id : Uuid)
    → parse_callback_data u (cb u a id)
      ≡ some (record { action = a; target_id = id; raw = cb u a id })
unfolding parse_callback_data callback_of_parts callback_of
parse_callback_data-cb u a id =
    ap (callback_of_parts u (cb u a id))
      (partition_colon-with_colon (action_value a) (u.hex id) (action_value-NoColon a))
    ∙ rw (find_action-action_value a, u.of_hex-hex id) refl

-- A function behind a test.
if-map :
    {A B : Type 0} (f : A → B) (b : Bool) (a : A) (o : Option A)
    → map_option f (if b then some a else o) ≡ (if b then some (f a) else map_option f o)
if-map f true a o = refl
if-map f false a o = refl

-- What a click on a button does, after a handler has been registered.
pub record IsRouted (u : UuidText) (bot : ControlBot) (registered clicked : Action)
    (handler : Handler) (id : Uuid) : Type 0 where
  pub parsed :
      parse_callback_data u (cb u clicked id)
      ≡ some (record { action = clicked; target_id = id; raw = cb u clicked id })
  pub routed : dispatch_callback u (register registered handler bot) (cb u clicked id) ≡ (
      if str_eq (action_value registered) (action_value clicked)
      then some (handler id)
      else dispatch_callback u bot (cb u clicked id))

-- The data of a button is parsed back into its action and its id, for every action. After a handler has been
-- registered for an action, a click on a button of this action is answered by that handler, applied to the
-- button's id, and a click on any other is answered as before.
pub dispatch_callback-IsRouted :
    (u : UuidText) (bot : ControlBot) (registered clicked : Action) (handler : Handler) (id : Uuid)
    → IsRouted u bot registered clicked handler id
unfolding dispatch_callback register handle
dispatch_callback-IsRouted u bot registered clicked handler id = record {
  parsed = parse_callback_data-cb u clicked id;
  routed =
      rw
        (
          parse_callback_data-cb u clicked id,
          lookup-insert (action_value registered) (action_value clicked) handler bot.handlers,
        )
        (if-map (λ (h : Handler). h id) (str_eq (action_value registered) (action_value clicked))
          handler (lookup (action_value clicked) bot.handlers));
}
