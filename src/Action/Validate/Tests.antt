-- ===== src/Action/Validate/Tests.antt =====
-- A payload that is checked against the annotations of an action.
use redfish_ctl.Common.{String, ◌≡◌, ◌≢◌, ◌↔◌, inr, refl, false, true, some, List, [], ◌∷◌}
use redfish_ctl.Common.Dict.{Dict}
use redfish_ctl.Common.Effect.{ok}
use redfish_ctl.Json.{Json, str, texts}
use redfish_ctl.Action.{RedfishAction}
use redfish_ctl.Action.Validate.{validate_action_payload, parameters_of}
use redfish_ctl.Action.Validate.Fits.{Takes, all_fit, validate_action_payload_accepts}

abbrev no_schema : String → Dict (List String)
no_schema t = []

abbrev reset : RedfishAction
reset = record {
  action_name = "Reset";
  target = str "/redfish/v1/Systems/1/Actions/ComputerSystem.Reset";
  full_redfish_name = "#ComputerSystem.Reset";
  args = ("ResetType", texts ("On" ∷ "ForceOff" ∷ [])) ∷ [];
}

abbrev listed : Dict (List Json)
listed = ("ResetType", str "On" ∷ str "ForceOff" ∷ []) ∷ []

reset-Takes : Takes no_schema "#ComputerSystem.Reset" (some reset) false listed
unfolding parameters_of
reset-Takes = inr (refl, refl)

listed_some : listed ≢ []
listed_some = λ h. cc

validate_action_payload_accepts_example :
    (validate_action_payload no_schema "#ComputerSystem.Reset"
        (some reset)
        (("ResetType", str "On") ∷ [])
      ≡ ok [])
    ↔ (all_fit false listed (("ResetType", str "On") ∷ []) ≡ true)
validate_action_payload_accepts_example =
    validate_action_payload_accepts no_schema "#ComputerSystem.Reset" (some reset)
      (("ResetType", str "On") ∷ []) false listed reset-Takes listed_some
