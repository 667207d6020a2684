-- ===== src/Api/Approvals/Resolution.antt =====
-- What the resolution of an approval changes.
use nexocrypto.Prelude.{
  map_option, false, sym, ℕ, ◌==◌, ◌∙◌, Bool-cases, List, Option, String, [], arith, inl, inr, none,
  refl, some, str_eq, true, ◌∷◌, ◌≡◌, ◌≢◌,
}
use nexocrypto.Api.State.{Approval, Store}
use nexocrypto.Shared.{Uuid}
use nexocrypto.Api.Approvals.{
  find_approval, is_approval, list_approvals, pending_of, resolve_approval, resolve_rows, resolved,
}

approval_ids :
    (user id : Uuid) (a : Approval)
    → is_approval user id a ≡ true
    → (a.id ≡ id) × (a.user_id ≡ user)
approval_ids user id a h = ground arith

find_approval_hit :
    (user id : Uuid) (a : Approval) (rest : List Approval)
    → is_approval user id a ≡ true
    → find_approval user id (a ∷ rest) ≡ some a
unfolding find_approval
find_approval_hit user id a rest hit = rw hit refl

find_approval_miss :
    (user id : Uuid) (a : Approval) (rest : List Approval)
    → is_approval user id a ≡ false
    → find_approval user id (a ∷ rest) ≡ find_approval user id rest
unfolding find_approval
find_approval_miss user id a rest miss = rw miss refl

not_same : (m n : ℕ) → n ≢ m → (m == n) ≡ false
not_same m n h = ground arith

pub find_approval_ids :
    (user id : Uuid) (rows : List Approval) (a : Approval)
    → find_approval user id rows ≡ some a
    → (a.id ≡ id) × (a.user_id ≡ user)
unfolding find_approval
find_approval_ids user id [] a h = cc
find_approval_ids user id (b ∷ rest) a h = elim (Bool-cases (is_approval user id b)) [
  | inl hit ↦
      approval_ids user id a
        (let found = find_approval_hit user id b rest hit in cc (found, h, hit))
  | inr miss ↦ find_approval_ids user id rest a (sym (find_approval_miss user id b rest miss) ∙ h)
]

pub is_approval-resolved :
    (user id : Uuid) (action : String) (reason : Option String) (a : Approval)
    → is_approval user id (resolved action reason a) ≡ is_approval user id a
is_approval-resolved user id action none a = refl
is_approval-resolved user id action (some reason) a = elim (Bool-cases (str_eq reason "")) [
  | inl e ↦ rw e refl
  | inr e ↦ rw e refl
]

pub find_approval-resolve_rows :
    (user id : Uuid) (action : String) (reason : Option String) (rows : List Approval)
    → find_approval user id (resolve_rows user id action reason rows)
      ≡ map_option (resolved action reason) (find_approval user id rows)
unfolding find_approval resolve_rows
find_approval-resolve_rows user id action reason [] = refl
find_approval-resolve_rows user id action reason (a ∷ rest) =
    elim (Bool-cases (is_approval user id a)) [
      | inl hit ↦ rw (hit, is_approval-resolved user id action reason a, hit) refl
      | inr miss ↦ rw (miss, miss) (find_approval-resolve_rows user id action reason rest)
    ]

resolved_user :
    (action : String) (reason : Option String) (a : Approval)
    → (resolved action reason a).user_id ≡ a.user_id
resolved_user action none a = refl
resolved_user action (some reason) a = elim (Bool-cases (str_eq reason "")) [
  | inl e ↦ rw e refl
  | inr e ↦ rw e refl
]

pending_of-resolve_rows :
    (user id other : Uuid) (action : String) (reason : Option String) (rows : List Approval)
    → other ≢ user
    → pending_of other (resolve_rows user id action reason rows) ≡ pending_of other rows
unfolding pending_of resolve_rows
pending_of-resolve_rows user id other action reason [] different = refl
pending_of-resolve_rows user id other action reason (a ∷ rest) different =
    elim (Bool-cases (is_approval user id a)) [
      | inl hit ↦
          let row = resolved_user action reason a ∙ (approval_ids user id a hit).1 in
          rw (hit, row, (approval_ids user id a hit).1, not_same user other different) refl
      | inr miss ↦
          rw (miss, pending_of-resolve_rows user id other action reason rest different) refl
    ]

-- The resolution of one user's approval leaves the list of every other user as it was.
pub list_approvals-resolve_approval :
    (user id other : Uuid) (action : String) (reason : Option String) (st : Store)
    → other ≢ user
    → list_approvals other (resolve_approval user id action reason st).1 ≡ list_approvals other st
unfolding list_approvals resolve_approval
list_approvals-resolve_approval user id other action reason st different =
    pending_of-resolve_rows user id other action reason st.approvals different
