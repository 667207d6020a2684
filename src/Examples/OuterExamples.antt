-- ===== src/Examples/OuterExamples.antt =====
-- Examples for the buttons of the control bot and for the subscriptions of the venue's stream.
use nexocrypto.Prelude.{
  List, length, replicate, ◌≡◌, ◌≤◌, none, some, [], ◌∷◌, ok, raised, refl, false, true,
  runtime_error,
}
use nexocrypto.Telegram.Control.{ControlBot, Handler, approve, reject}
use nexocrypto.Venue.Socket.{
  Channel, Socket, aclose, connect, is_in, keep, max_channels, new_socket, subscribe, unsubscribe,
}
use nexocrypto.Venue.Socket.Cap.{
  SocketCall, do_call, IsTracked, closing, connecting, do_calls, do_calls-IsCapped, subscribing,
  unsubscribing,
}
use nexocrypto.Telegram.Control.RoundTrip.{IsRouted, dispatch_callback-IsRouted}
use nexocrypto.Examples.Strokes.{stroke_text}

abbrev quiet : Handler
quiet id = ok (record { ok = true; user_visible_text = none; edit_message = false })

abbrev empty_bot : ControlBot
empty_bot = record { handlers = [] }

dispatch_callback-IsRouted_example : IsRouted stroke_text empty_bot approve reject quiet 3
dispatch_callback-IsRouted_example =
    dispatch_callback-IsRouted stroke_text empty_bot approve reject quiet 3

abbrev book : Channel
book = record { ch = "depth_books"; symbol = some "BTCUSDT" }

abbrev ticker : Channel
ticker = record { ch = "tickers"; symbol = some "BTCUSDT" }

-- Connect, subscribe to two channels, leave one, close and connect again.
abbrev calls : List SocketCall
calls =
    connecting (ok tt)
    ∷ subscribing (ok tt) (book ∷ ticker ∷ [])
    ∷ unsubscribing (ok tt) (book ∷ [])
    ∷ closing
    ∷ connecting (ok tt)
    ∷ []

do_calls-IsCapped_example :
    (length (do_calls calls new_socket).active ≤ max_channels)
    × IsTracked (do_calls calls new_socket)
do_calls-IsCapped_example = do_calls-IsCapped calls

-- The connection is new and the venue has no subscription on it, but one is still recorded.
still_recorded :
    (length (do_calls calls new_socket).active ≡ 0)
    × (length (do_calls calls new_socket).subscribed ≡ 1)
unfolding do_calls do_call connect aclose subscribe unsubscribe keep is_in
still_recorded = (refl, refl)

-- With 300 recorded of a closed connection, a new connection is refused its first subscription.
abbrev full : Socket
full = record { connected = true; subscribed = replicate 300 book; active = [] }

refused_first : (subscribe (ok tt) (ticker ∷ []) full).0 ≡ raised runtime_error
unfolding subscribe
refused_first = refl
