-- ===== src/Api/Tenants.antt =====
-- store.py: the tenants of the Nexo AI integration. `token` is what `secrets.token_urlsafe` gave.
pub mod Provisioning
use nexocrypto.Shared.{Uuid}
use nexocrypto.Api.State.{Store, Tenant}
use nexocrypto.Prelude.{
  Bool, List, Option, String, [], false, if◌then◌else◌, none, some, str_eq, true, ◌++◌, ◌+◌, ◌==◌,
  ◌∷◌,
}

unfoldable pub find_external : String → List Tenant → Option Tenant
find_external external [] = none
find_external external (t ∷ ts) =
    if str_eq t.external_user_id external then some t else find_external external ts

-- The tenant that is there, or the fresh one, which is added.
abbrev pub found_or_added : Option Tenant → Tenant → Store → (Tenant × Bool) × Store
found_or_added (some t) fresh st = ((t, false), st)
found_or_added none fresh st =
    ((fresh, true), record st { tenants = st.tenants ++ fresh ∷ []; next_uuid = st.next_uuid + 1 })

-- The row that is written for a new tenant.
abbrev pub new_tenant : String → String → Option String → String → String → Store → Tenant
new_tenant external email name tier token st = record {
  id = st.next_uuid;
  external_user_id = external;
  email = email;
  display_name = name;
  tier = tier;
  status = "active";
  api_token = token;
}

-- The tenant, and whether it is new.
unfoldable pub provision_tenant :
    String → String → Option String → String → String → Store → (Tenant × Bool) × Store
provision_tenant external email name tier token st =
    found_or_added (find_external external st.tenants)
      (new_tenant external email name tier token st) st

unfoldable pub find_tenant : Uuid → List Tenant → Option Tenant
find_tenant id [] = none
find_tenant id (t ∷ ts) = if t.id == id then some t else find_tenant id ts

unfoldable pub get_tenant_by_id : Uuid → Store → Option Tenant
get_tenant_by_id id st = find_tenant id st.tenants

unfoldable pub set_status : Uuid → String → List Tenant → List Tenant
set_status id status [] = []
set_status id status (t ∷ ts) =
    if t.id == id then record t { status = status } ∷ ts else t ∷ set_status id status ts

unfoldable pub set_tenant_status : Uuid → String → Store → Option Tenant × Store
set_tenant_status id status st =
    let ts = set_status id status st.tenants in (find_tenant id ts, record st { tenants = ts })
