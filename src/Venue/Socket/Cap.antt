-- ===== src/Venue/Socket/Cap.antt =====
-- The venue has at most 300 subscriptions on a connection, whatever is called and whatever fails.
use nexocrypto.Prelude.{
  if◌then◌else◌, Bool, Bool-cases, List, ap, append_nil, arith, inl, inr, length, length-append,
  ltb, ◌++◌, ◌+◌, ◌≡◌, ◌≤◌, [], ◌∷◌, ok, raised, false, true, refl,
}
use mathlib.Core.List.{append_assoc}
use nexocrypto.Venue.Socket.{
  is_in, max_channels, new_socket, Channel, Socket, Network, subscribe, unsubscribe, connect,
  aclose, keep, if_sent, send,
}

-- The calls of a client, each with what the network makes of it.
pub data SocketCall : Type 0 where
  connecting : Network → SocketCall
  closing : SocketCall
  subscribing : Network → List Channel → SocketCall
  unsubscribing : Network → List Channel → SocketCall

unfoldable pub do_call : SocketCall → Socket → Network × Socket
do_call (connecting reply) s = connect reply s
do_call closing s = aclose s
do_call (subscribing reply channels) s = subscribe reply channels s
do_call (unsubscribing reply channels) s = unsubscribe reply channels s

-- A run of calls; one that raises does not end it.
unfoldable pub do_calls : List SocketCall → Socket → Socket
do_calls [] s = s
do_calls (c ∷ cs) s = do_calls cs (do_call c s).1

-- The recorded subscriptions are at most 300, and those of the venue are the last of them.
pub record IsTracked (s : Socket) : Type 0 where
  pub stale : List Channel
  pub split : s.subscribed ≡ stale ++ s.active
  pub capped : length s.subscribed ≤ max_channels

keep-append :
    (channels xs ys : List Channel)
    → keep channels (xs ++ ys) ≡ keep channels xs ++ keep channels ys
unfolding keep
keep-append channels [] ys = refl
keep-append channels (x ∷ xs) ys = elim (Bool-cases (is_in x channels)) [
  | inl gone ↦ rw gone (keep-append channels xs ys)
  | inr kept ↦ rw kept (ap (λ (zs : List Channel). x ∷ zs) (keep-append channels xs ys))
]

length-keep : (channels xs : List Channel) → length (keep channels xs) ≤ length xs
unfolding keep
length-keep channels [] = omega arith
length-keep channels (x ∷ xs) = elim (Bool-cases (is_in x channels)) [
  | inl gone ↦ rw gone (omega (arith, length-keep channels xs))
  | inr kept ↦ rw kept (omega (arith, length-keep channels xs))
]

if_sent-IsTracked :
    (reply : Network) (s t : Socket) → IsTracked s → IsTracked t → IsTracked (if_sent reply s t).1
if_sent-IsTracked (raised e) s t h k = h
if_sent-IsTracked (ok done) s t h k = k

if-IsTracked :
    (b : Bool) (x y : Network × Socket)
    → IsTracked x.1
    → IsTracked y.1
    → IsTracked (if b then x else y).1
if-IsTracked true x y h k = h
if-IsTracked false x y h k = k

reset : (s : Socket) (b : Bool) → IsTracked s → IsTracked (record s { connected = b; active = [] })
reset s b h = record { stale = s.subscribed; split = append_nil s.subscribed; capped = h.capped }

do_call-IsTracked : (c : SocketCall) (s : Socket) → IsTracked s → IsTracked (do_call c s).1
unfolding do_call connect aclose subscribe unsubscribe
do_call-IsTracked (connecting reply) s h =
    if-IsTracked s.connected (ok tt, s) _ h (if_sent-IsTracked reply s _ h (reset s true h))
do_call-IsTracked closing s h = reset s false h
do_call-IsTracked (subscribing reply []) s h = h
do_call-IsTracked (subscribing reply (c ∷ cs)) s h =
    elim (Bool-cases (ltb max_channels (length s.subscribed + length (c ∷ cs)))) [
      | inl over ↦ rw over h
      | inr within ↦ rw within (
          if_sent-IsTracked (send reply s) s _ h (record {
            stale = h.stale;
            split = rw h.split (append_assoc h.stale s.active (c ∷ cs));
            capped = ground (arith, within, length-append s.subscribed (c ∷ cs));
          }))
    ]
do_call-IsTracked (unsubscribing reply []) s h = h
do_call-IsTracked (unsubscribing reply (c ∷ cs)) s h =
    if_sent-IsTracked (send reply s) s _ h (record {
      stale = keep (c ∷ cs) h.stale;
      split = rw h.split (keep-append (c ∷ cs) h.stale s.active);
      capped = omega (arith, h.capped, length-keep (c ∷ cs) s.subscribed);
    })

do_calls-IsTracked : (cs : List SocketCall) (s : Socket) → IsTracked s → IsTracked (do_calls cs s)
unfolding do_calls
do_calls-IsTracked [] s h = h
do_calls-IsTracked (c ∷ cs) s h = do_calls-IsTracked cs (do_call c s).1 (do_call-IsTracked c s h)

-- After any calls on a new socket, to connect, close, subscribe and unsubscribe in any order, of which any may fail,
-- the venue has at most 300 subscriptions on the connection, and each of them is recorded: they are the last of
-- the recorded ones.
pub do_calls-IsCapped :
    (cs : List SocketCall)
    → (length (do_calls cs new_socket).active ≤ max_channels) × IsTracked (do_calls cs new_socket)
do_calls-IsCapped cs =
    let h =
      do_calls-IsTracked cs new_socket
        (record { stale = []; split = refl; capped = omega arith }) in
    let s = do_calls cs new_socket in
    (omega (arith, h.capped, ap length h.split, length-append h.stale s.active), h)
