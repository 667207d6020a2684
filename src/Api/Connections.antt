-- ===== src/Api/Connections.antt =====
-- store.py: the exchange connections, encrypted at rest. A client gets a view with no secrets.
pub mod Isolation
use nexocrypto.Shared.{Uuid}
use nexocrypto.Api.State.{Connection, ConnectionView, Store}
use nexocrypto.Prelude.{
  List, Option, String, [], if◌then◌else◌, none, some, str_eq, ◌&&◌, ◌++◌, ◌+◌, ◌==◌, ◌∷◌,
}

abbrev pub view : Connection → ConnectionView
view c = record {
  id = c.id;
  user_id = c.user_id;
  exchange = c.exchange;
  status = c.status;
  ip_allowlist = c.ip_allowlist;
  last_tested_at = c.last_tested_at;
}

-- `list(ip_allowlist) if ip_allowlist else None`
abbrev pub unless_empty : Option (List String) → Option (List String)
unless_empty none = none
unless_empty (some []) = none
unless_empty (some (x ∷ xs)) = some (x ∷ xs)

unfoldable pub add_exchange_connection :
    Uuid → String → String → String → Option (List String) → Store → ConnectionView × Store
add_exchange_connection user exchange key secret allowlist st =
    let row : Connection = record {
      id = st.next_uuid;
      user_id = user;
      exchange = exchange;
      api_key_enc = key;
      api_secret_enc = secret;
      ip_allowlist = unless_empty allowlist;
      status = "untested";
      last_tested_at = none;
    } in
    (view row, record st { connections = st.connections ++ row ∷ []; next_uuid = st.next_uuid + 1 })

unfoldable pub connections_of : Uuid → List Connection → List ConnectionView
connections_of user [] = []
connections_of user (c ∷ cs) =
    let rest = connections_of user cs in if c.user_id == user then view c ∷ rest else rest

unfoldable pub list_exchange_connections : Uuid → Store → List ConnectionView
list_exchange_connections user st = connections_of user st.connections

unfoldable pub find_connection : Uuid → String → List Connection → Option Connection
find_connection user exchange [] = none
find_connection user exchange (c ∷ cs) =
    if c.user_id == user && str_eq c.exchange exchange
    then some c
    else find_connection user exchange cs

-- Internal: the row with the encrypted key and secret.
unfoldable pub get_exchange_connection_enc : Uuid → String → Store → Option Connection
get_exchange_connection_enc user exchange st = find_connection user exchange st.connections
