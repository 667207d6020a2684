-- ===== src/Api/Modes/Gate.antt =====
-- The gate in front of live trading.
use nexocrypto.Shared.{Mode, Uuid, is_full_auto, is_live}
use nexocrypto.Api.State.{update, Store, empty_store}
use nexocrypto.Prelude.{
  Bool, Bool-cases, inl, inr, not, some, ◌&&◌, ◌==◌, ◌⊎◌, false, refl, true, ◌≡◌,
}
use nexocrypto.Api.Routes.{put_mode}
use nexocrypto.Api.Modes.{get_mode, set_mode}

-- No user is in full_auto mode, and none is in semi_auto mode while live trading is locked.
abbrev pub IsGated : Store → Type 0
IsGated st =
    (user : Uuid)
    → (is_full_auto (get_mode user st).mode ≡ false)
      × (is_live (get_mode user st).mode ≡ true → (get_mode user st).live_unlocked ≡ true)

not_shut : (live unlocked : Bool) → (live && not unlocked) ≡ false → live ≡ true → unlocked ≡ true
not_shut live true h l = refl
not_shut true false h l = cc
not_shut false false h l = cc

pub empty_store-IsGated : IsGated empty_store
unfolding get_mode
empty_store-IsGated user = (refl, λ h. cc h)

-- The store after a change of the mode: as it was, or with the new mode, for which the gate is open.
abbrev ModeChange : Uuid → Mode → Store → Store → Type 0
ModeChange user mode st after =
    (after ≡ st)
    ⊎ ((is_full_auto mode ≡ false)
        × (is_live mode ≡ true → (get_mode user st).live_unlocked ≡ true)
        × (after ≡ record st {
          modes = update st.modes user (some (record (get_mode user st) { mode = mode }));
        }))

put_mode_change :
    (user : Uuid) (mode : Mode) (st : Store) → ModeChange user mode st (put_mode user mode st).1
unfolding put_mode set_mode
put_mode_change user mode st =
    let open_gate = (get_mode user st).live_unlocked in
    elim (Bool-cases (is_live mode && not open_gate)) [
      | inl shut ↦ rw shut (inl refl)
      | inr opened ↦ elim (Bool-cases (is_full_auto mode)) [
        | inl full ↦ rw (opened, full) (inl refl)
        | inr other ↦
            rw (opened, other) (inr (refl, not_shut (is_live mode) open_gate opened, refl))
      ]
    ]

-- A change of the mode keeps every user behind the gate, whatever mode is asked for and whether it is
-- granted or refused.
pub put_mode-IsGated :
    (user : Uuid) (mode : Mode) (st : Store) → IsGated st → IsGated (put_mode user mode st).1
unfolding get_mode
put_mode-IsGated user mode st gated other = elim (put_mode_change user mode st) [
  | inl same ↦ rw same (gated other)
  | inr (not_full, unlocked, changed) ↦ rw changed (elim (Bool-cases (other == user)) [
    | inl hit ↦ rw hit (not_full, unlocked)
    | inr miss ↦ rw miss (gated other)
  ])
]
