-- ===== src/Api/Signals.antt =====
-- store.py: the list of parsed candidates and of verdicts.
use nexocrypto.Prelude.{
  Bool, List, Option, String, [], if◌then◌else◌, none, some, str_eq, true, ◌&&◌, ◌++◌, ◌+◌, ◌==◌,
  ◌∷◌,
}
use nexocrypto.Api.State.{SignalRow, Store, parsed, validated}
use nexocrypto.Shared.{Signal, TradeDecision, Uuid}

abbrev pub row_user : SignalRow → Uuid
row_user (parsed id user _ raw) = user
row_user (validated id user _ _ _ _) = user

-- `s["status"]`
abbrev pub row_status : SignalRow → String
row_status (parsed id user _ raw) = "parsed"
row_status (validated id user signal_id verdict reason ev) =
    if verdict then "validated" else "rejected"

unfoldable pub add_parsed_signal : Uuid → Signal → Option String → Store → SignalRow × Store
add_parsed_signal user signal raw_text st =
    let row = parsed st.next_uuid user signal raw_text in
    (row, record st { signals = st.signals ++ row ∷ []; next_uuid = st.next_uuid + 1 })

unfoldable pub add_validated_signal : Uuid → TradeDecision → Store → SignalRow × Store
add_validated_signal user d st =
    let reason = if d.approved then none else some d.reason in
    let row = validated st.next_uuid user d.signal_id d.approved reason d.ev_net_bps in
    (row, record st { signals = st.signals ++ row ∷ []; next_uuid = st.next_uuid + 1 })

-- Whether a row passes the status filter.
abbrev pub matches_status : Option String → SignalRow → Bool
matches_status none row = true
matches_status (some status) row = str_eq (row_status row) status

rows_of : Uuid → Option String → List SignalRow → List SignalRow
rows_of user status [] = []
rows_of user status (row ∷ rows) =
    let rest = rows_of user status rows in
    if row_user row == user && matches_status status row then row ∷ rest else rest

unfoldable pub list_signals : Uuid → Option String → Store → List SignalRow
unfolding rows_of
list_signals user status st = rows_of user status st.signals
