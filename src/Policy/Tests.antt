-- ===== src/Policy/Tests.antt =====
-- Runs of redfish_ctl/actions/action_policy.py.
use redfish_ctl.Common.{◌≡◌, ◌⊎◌, refl, some}
use redfish_ctl.Common.Dict.{lookup}
use redfish_ctl.Policy.{irreversible, destructive, action_policy, classify}
use redfish_ctl.Policy.Laws.{classify_lem}

sanitize : classify "#Drive.SecureErase" ≡ irreversible
unfolding classify
sanitize = refl

classify_lem_example :
    (classify "#Vendor.Unheard" ≡ destructive)
    ⊎ (lookup "#Vendor.Unheard" action_policy ≡ some (classify "#Vendor.Unheard"))
classify_lem_example = classify_lem "#Vendor.Unheard"
