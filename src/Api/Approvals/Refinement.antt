-- ===== src/Api/Approvals/Refinement.antt =====
-- The queue of approvals refines a map from users and ids to rows, in which an approval is put at a fresh id and a
-- resolution changes one entry.
use nexocrypto.Prelude.{
  Bool-cases, List, Option, String, arith, if◌then◌else◌, map_option, str_eq, ◌&&◌, ◌++◌, ◌+◌, ◌<◌,
  ◌==◌, ◌≡◌, none, some, [], ◌∷◌, inl, inr, refl, true, false,
}
use nexocrypto.Api.Approvals.{
  add_approval, resolve_approval, find_approval, get_approval, is_approval, resolve_rows, resolved,
}
use nexocrypto.Shared.{Signal, TradeDecision, Uuid}
use nexocrypto.Api.State.{Approval, Store}
use nexocrypto.Api.Approvals.Resolution.{find_approval-resolve_rows, is_approval-resolved}
use mathlib.Core.Path.{fun_ext}

-- The abstract state, and what a store shows of it.
abbrev pub ApprovalMap : Type 0
ApprovalMap = Uuid → Uuid → Option Approval

abbrev pub shown : Store → ApprovalMap
shown st user id = get_approval user id st

-- The abstract operations.
abbrev pub put_at : Uuid → Uuid → Approval → ApprovalMap → ApprovalMap
put_at user id a m u i = if u == user && i == id then some a else m u i

abbrev pub resolve_at : Uuid → Uuid → String → Option String → ApprovalMap → ApprovalMap
resolve_at user id action reason m u i =
    if u == user && i == id then map_option (resolved action reason) (m u i) else m u i

-- Every row has an id that the store has given out.
abbrev pub AllBelow : Uuid → List Approval → Type 0
AllBelow n [] = Unit
AllBelow n (a ∷ rest) = (a.id < n) × AllBelow n rest

abbrev pub IsNumbered : Store → Type 0
IsNumbered st = AllBelow st.next_uuid st.approvals

AllBelow-append :
    (n : Uuid) (rows : List Approval) (a : Approval)
    → a.id ≡ n
    → AllBelow n rows
    → AllBelow (n + 1) (rows ++ a ∷ [])
AllBelow-append n [] a e h = (omega (arith, e), tt)
AllBelow-append n (b ∷ rest) a e (h, hs) = (omega (arith, h), AllBelow-append n rest a e hs)

resolved_id :
    (action : String) (reason : Option String) (a : Approval) → (resolved action reason a).id ≡ a.id
resolved_id action none a = refl
resolved_id action (some reason) a = elim (Bool-cases (str_eq reason "")) [
  | inl e ↦ rw e refl
  | inr e ↦ rw e refl
]

AllBelow-resolve_rows :
    (n user id : Uuid) (action : String) (reason : Option String) (rows : List Approval)
    → AllBelow n rows
    → AllBelow n (resolve_rows user id action reason rows)
unfolding resolve_rows
AllBelow-resolve_rows n user id action reason [] h = tt
AllBelow-resolve_rows n user id action reason (a ∷ rest) (h, hs) =
    elim (Bool-cases (is_approval user id a)) [
      | inl hit ↦ rw hit (omega (arith, h, resolved_id action reason a), hs)
      | inr miss ↦ rw miss (h, AllBelow-resolve_rows n user id action reason rest hs)
    ]

-- An id that has not been given out is no row's.
fresh_miss : (n user : Uuid) (a : Approval) → a.id < n → is_approval user n a ≡ false
fresh_miss n user a h = ground arith

find_approval_fresh :
    (n user : Uuid) (rows : List Approval) → AllBelow n rows → find_approval user n rows ≡ none
unfolding find_approval
find_approval_fresh n user [] h = refl
find_approval_fresh n user (a ∷ rest) (h, hs) =
    rw (fresh_miss n user a h) (find_approval_fresh n user rest hs)

find_approval-append :
    (user n u i : Uuid) (rows : List Approval) (a : Approval)
    → a.id ≡ n
    → a.user_id ≡ user
    → AllBelow n rows
    → find_approval u i (rows ++ a ∷ [])
      ≡ (if u == user && i == n then some a else find_approval u i rows)
unfolding find_approval
find_approval-append user n u i [] a e f h = ground (arith, e, f)
find_approval-append user n u i (b ∷ rest) a e f (h, hs) =
    ground (arith, e, f, h, find_approval-append user n u i rest a e f hs)

other_row :
    (user id u i : Uuid) (a : Approval)
    → (u == user && i == id) ≡ false
    → is_approval user id a ≡ true
    → is_approval u i a ≡ false
other_row user id u i a h hit = ground arith

find_approval_other :
    (user id u i : Uuid) (action : String) (reason : Option String) (rows : List Approval)
    → (u == user && i == id) ≡ false
    → find_approval u i (resolve_rows user id action reason rows) ≡ find_approval u i rows
unfolding find_approval resolve_rows
find_approval_other user id u i action reason [] h = refl
find_approval_other user id u i action reason (a ∷ rest) h =
    elim (Bool-cases (is_approval user id a)) [
      | inl hit ↦
          let other = other_row user id u i a h hit in
          rw (hit, is_approval-resolved u i action reason a, other) refl
      | inr miss ↦ elim (Bool-cases (is_approval u i a)) [
        | inl own ↦ rw (miss, own) refl
        | inr another ↦ rw (miss, another) (find_approval_other user id u i action reason rest h)
      ]
    ]

shown-resolve_approval :
    (user id : Uuid) (action : String) (reason : Option String) (st : Store)
    → shown (resolve_approval user id action reason st).1
      ≡ resolve_at user id action reason (shown st)
unfolding get_approval resolve_approval
shown-resolve_approval user id action reason st = fun_ext (λ u. fun_ext (λ i.
    elim (Bool-cases (u == user && i == id)) [
      | inl own ↦
          let same_u : u ≡ user = ground (arith, own) in
          let same_i : i ≡ id = ground (arith, own) in
          rw own
            (rw (same_u, same_i) (find_approval-resolve_rows user id action reason st.approvals))
      | inr other ↦ rw other (find_approval_other user id u i action reason st.approvals other)
    ]))

shown-add_approval :
    (user : Uuid) (signal : Signal) (d : TradeDecision) (st : Store)
    → IsNumbered st
    → shown (add_approval user signal d st).1
      ≡ put_at user st.next_uuid (add_approval user signal d st).0 (shown st)
unfolding get_approval add_approval
shown-add_approval user signal d st h =
    fun_ext
      (λ u. fun_ext (λ i. find_approval-append user st.next_uuid u i st.approvals _ refl refl h))

own_entry :
    (user id : Uuid) (action : String) (reason : Option String) (st : Store)
    → (resolve_approval user id action reason st).0
      ≡ resolve_at user id action reason (shown st) user id
unfolding get_approval resolve_approval
own_entry user id action reason st =
    let own : (user == user && id == id) ≡ true = ground arith in rw own refl

-- What a store that numbers its rows owes to the map that it shows.
pub record IsRefinement (st : Store) (user : Uuid) (signal : Signal) (d : TradeDecision) (id : Uuid)
    (action : String) (reason : Option String) : Type 0 where
  pub fresh : shown st user st.next_uuid ≡ none
  pub adds :
      shown (add_approval user signal d st).1
      ≡ put_at user st.next_uuid (add_approval user signal d st).0 (shown st)
  pub add_numbers : IsNumbered (add_approval user signal d st).1
  pub resolves :
      shown (resolve_approval user id action reason st).1
      ≡ resolve_at user id action reason (shown st)
  pub replies :
      (resolve_approval user id action reason st).0
      ≡ resolve_at user id action reason (shown st) user id
  pub resolve_numbers : IsNumbered (resolve_approval user id action reason st).1

-- On a store whose rows have ids that it has given out, the queue of approvals is a map from users and ids to
-- rows: a new approval is put at an id that was free and changes no other entry; a resolution changes the entry
-- of its user and id alone, and returns it as it then stands; and both keep the ids in order.
pub shown-IsRefinement :
    (st : Store) (user : Uuid) (signal : Signal) (d : TradeDecision) (id : Uuid) (action : String)
    (reason : Option String)
    → IsNumbered st
    → IsRefinement st user signal d id action reason
unfolding get_approval resolve_approval add_approval
shown-IsRefinement st user signal d id action reason h = record {
  fresh = find_approval_fresh st.next_uuid user st.approvals h;
  adds = shown-add_approval user signal d st h;
  add_numbers = AllBelow-append st.next_uuid st.approvals _ refl h;
  resolves = shown-resolve_approval user id action reason st;
  replies = own_entry user id action reason st;
  resolve_numbers = AllBelow-resolve_rows st.next_uuid user id action reason st.approvals h;
}
