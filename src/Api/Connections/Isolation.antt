-- ===== src/Api/Connections/Isolation.antt =====
-- Who sees a stored connection.
use nexocrypto.Prelude.{
  Bool-cases, none, some, str_eq, ◌&&◌, List, Option, String, [], if◌then◌else◌, inl, inr, refl,
  ◌++◌, ◌==◌, ◌∷◌, ◌≡◌,
}
use nexocrypto.Shared.{Uuid}
use nexocrypto.Api.State.{Connection, ConnectionView, Store}
use nexocrypto.Api.Connections.{
  view, find_connection, get_exchange_connection_enc, connections_of, add_exchange_connection,
  list_exchange_connections,
}

connections_of-append :
    (user : Uuid) (cs ds : List Connection)
    → connections_of user (cs ++ ds) ≡ connections_of user cs ++ connections_of user ds
unfolding connections_of
connections_of-append user [] ds = refl
connections_of-append user (c ∷ cs) ds = elim (Bool-cases (c.user_id == user)) [
  | inl own ↦ rw (own, connections_of-append user cs ds) refl
  | inr other ↦ rw (other, connections_of-append user cs ds) refl
]

-- The first of two connections, if there is one.
abbrev pub or_later : Option Connection → Option Connection → Option Connection
or_later (some c) later = some c
or_later none later = later

find_connection-append :
    (user : Uuid) (exchange : String) (cs ds : List Connection)
    → find_connection user exchange (cs ++ ds)
      ≡ or_later (find_connection user exchange cs) (find_connection user exchange ds)
unfolding find_connection
find_connection-append user exchange [] ds = refl
find_connection-append user exchange (c ∷ cs) ds =
    elim (Bool-cases (c.user_id == user && str_eq c.exchange exchange)) [
      | inl own ↦ rw own refl
      | inr other ↦ rw (other, find_connection-append user exchange cs ds) refl
    ]

-- What a store has after a connection of `user` to `exchange`, as `c` with the given secrets: every user's list and
-- every lookup of the executor are those of before, but that the owner's list has the view of `c` at its end,
-- and that the executor gets `c` for the owner and the exchange if it had nothing to get before.
pub record IsConnected (user : Uuid) (exchange key secret : String) (st : Store)
    (x : ConnectionView × Store) : Type 0 where
  pub c : Connection
  pub shown : view c ≡ x.0
  pub secrets : (c.api_key_enc ≡ key) × (c.api_secret_enc ≡ secret)
  pub untested : (c.status ≡ "untested") × (c.last_tested_at ≡ none)
  pub listed :
      (other : Uuid)
      → list_exchange_connections other x.1
        ≡ list_exchange_connections other st ++ (if user == other then view c ∷ [] else [])
  pub found :
      (other : Uuid) (venue : String)
      → get_exchange_connection_enc other venue x.1
        ≡ or_later
            (get_exchange_connection_enc other venue st)
            (if user == other && str_eq exchange venue then some c else none)

-- A new connection is shown untested at the end of its owner's list, without its key and secret, and to no other
-- user. For the execution of orders it is found with both, by its owner and exchange alone, and only if the owner had
-- no connection to this exchange: an earlier one stays in use.
pub add_exchange_connection-IsConnected :
    (user : Uuid) (exchange key secret : String) (allowlist : Option (List String)) (st : Store)
    → IsConnected user exchange key secret st
        (add_exchange_connection user exchange key secret allowlist st)
unfolding list_exchange_connections add_exchange_connection get_exchange_connection_enc
    connections_of find_connection
add_exchange_connection-IsConnected user exchange key secret allowlist st = record {
  c = _;
  shown = refl;
  secrets = (refl, refl);
  untested = (refl, refl);
  listed = λ other. connections_of-append other st.connections _;
  found = λ other venue. find_connection-append other venue st.connections _;
}
