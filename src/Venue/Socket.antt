-- ===== src/Venue/Socket.antt =====
-- connectors/src/nexocrypto_connectors/bitunix/ws.py: the connection and the subscriptions of `BitunixPublicWS`. What
-- the network makes of a call, to connect or to send, is an argument of it: it succeeds or raises. The venue's
-- side is its documented protocol: a connection starts without subscriptions, and each envelope that is sent adds
-- its channels or removes them; a send that raises has not reached it.
pub mod Cap
use nexocrypto.Prelude.{
  Bool, List, Option, Result, String, if◌then◌else◌, length, ltb, str_eq, ◌&&◌, ◌++◌, ◌+◌, ◌||◌,
  none, some, [], ◌∷◌, ok, raised, ℕ, false, true, runtime_error,
}

pub record Channel : Type 0 where
  pub ch : String
  pub symbol : Option String

same_symbol : Option String → Option String → Bool
same_symbol none none = true
same_symbol (some s) (some t) = str_eq s t
same_symbol _ _ = false

-- `==` of the dataclass.
same_channel : Channel → Channel → Bool
unfolding same_symbol
same_channel a b = str_eq a.ch b.ch && same_symbol a.symbol b.symbol

-- `c in channels`
unfoldable pub is_in : Channel → List Channel → Bool
unfolding same_channel
is_in c [] = false
is_in c (d ∷ ds) = same_channel c d || is_in c ds

-- `[c for c in subscribed if c not in channels]`
unfoldable pub keep : List Channel → List Channel → List Channel
keep channels [] = []
keep channels (c ∷ cs) = let rest = keep channels cs in if is_in c channels then rest else c ∷ rest

-- `_MAX_CHANNELS_PER_CONNECTION`
abbrev pub max_channels : ℕ
max_channels = 300

-- `connected` is `self._ws is not None`; `active` is what the venue has for the present connection.
pub record Socket : Type 0 where
  pub connected : Bool
  pub subscribed : List Channel
  pub active : List Channel

-- `BitunixPublicWS()`
abbrev pub new_socket : Socket
new_socket = record { connected = false; subscribed = []; active = [] }

-- What the network makes of a call.
abbrev pub Network : Type 0
Network = Result {0} Unit

-- `_send`: without a connection it raises.
abbrev pub send : Network → Socket → Network
send reply s = if s.connected then reply else raised runtime_error

-- A call that raises changes nothing.
abbrev pub if_sent : Network → Socket → Socket → Network × Socket
if_sent (raised e) before after = (raised e, before)
if_sent (ok done) before after = (ok done, after)

unfoldable pub connect : Network → Socket → Network × Socket
connect reply s =
    if s.connected then (ok tt, s) else if_sent reply s (record s { connected = true; active = [] })

-- `aclose` raises nothing; the recorded subscriptions stay.
unfoldable pub aclose : Socket → Network × Socket
aclose s = (ok tt, record s { connected = false; active = [] })

unfoldable pub subscribe : Network → List Channel → Socket → Network × Socket
subscribe reply [] s = (ok tt, s)
subscribe reply (c ∷ cs) s =
    if ltb max_channels (length s.subscribed + length (c ∷ cs))
    then (raised runtime_error, s)
    else if_sent (send reply s) s
        (record s { subscribed = s.subscribed ++ c ∷ cs; active = s.active ++ c ∷ cs })

unfoldable pub unsubscribe : Network → List Channel → Socket → Network × Socket
unsubscribe reply [] s = (ok tt, s)
unsubscribe reply (c ∷ cs) s =
    if_sent (send reply s) s
      (record s { subscribed = keep (c ∷ cs) s.subscribed; active = keep (c ∷ cs) s.active })
