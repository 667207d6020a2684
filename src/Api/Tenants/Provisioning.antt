-- ===== src/Api/Tenants/Provisioning.antt =====
-- Repeated provisioning of one external user.
use nexocrypto.Prelude.{
  Option-cases, eq_iff, sym, ◌∙◌, ◌≢◌, Bool-cases, List, Option, String, [], false, inl, inr, none,
  refl, some, str_eq, true, ◌++◌, ◌∷◌, ◌≡◌,
}
use nexocrypto.Api.State.{Store, Tenant}
use nexocrypto.Api.Tenants.{new_tenant, find_external, provision_tenant}

find_external_hit :
    (external : String) (t : Tenant) (ts : List Tenant)
    → str_eq t.external_user_id external ≡ true
    → find_external external (t ∷ ts) ≡ some t
unfolding find_external
find_external_hit external t ts hit = rw hit refl

find_external_miss :
    (external : String) (t : Tenant) (ts : List Tenant)
    → str_eq t.external_user_id external ≡ false
    → find_external external (t ∷ ts) ≡ find_external external ts
unfolding find_external
find_external_miss external t ts miss = rw miss refl

none-not-some : {t : Tenant} → none ≢ some t
none-not-some h = cc

-- The tenant with the given external id is the one that the store finds.
find_external_snoc :
    (external : String) (t : Tenant) (ts : List Tenant)
    → str_eq t.external_user_id external ≡ true
    → find_external external ts ≡ none
    → find_external external (ts ++ t ∷ []) ≡ some t
unfolding find_external
find_external_snoc external t [] same h = rw same refl
find_external_snoc external t (u ∷ ts) same h =
    elim (Bool-cases (str_eq u.external_user_id external)) [
      | inl hit ↦ absurd (none-not-some (sym h ∙ find_external_hit external u ts hit))
      | inr miss ↦
          find_external_miss external u (ts ++ t ∷ []) miss
          ∙ find_external_snoc external t ts same (sym (find_external_miss external u ts miss) ∙ h)
    ]

provision_found :
    (external email : String) (name : Option String) (tier token : String) (st : Store) (t : Tenant)
    → find_external external st.tenants ≡ some t
    → provision_tenant external email name tier token st ≡ ((t, false), st)
unfolding provision_tenant
provision_found external email name tier token st t h = rw h refl

-- A second provisioning of an external user, with whatever details, returns the tenant of the first,
-- is not new, and changes nothing.
pub provision_tenant_twice :
    (external email email' : String) (name name' : Option String) (tier tier' token token' : String)
    (st : Store)
    → let first = provision_tenant external email name tier token st in
      provision_tenant external email' name' tier' token' first.1 ≡ ((first.0.0, false), first.1)
unfolding provision_tenant
provision_tenant_twice external email email' name name' tier tier' token token' st =
    elim (Option-cases (find_external external st.tenants)) [
      | inr (t, found) ↦ rw (found, found) refl
      | inl missing ↦ rw missing (
          rw
            (find_external_snoc external (new_tenant external email name tier token st) st.tenants
              ((eq_iff external external).1 refl) missing)
            refl)
    ]
