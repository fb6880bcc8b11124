-- ===== src/Action/Invoke/Tests.antt =====
-- Runs of RedfishManager.invoke_action on a system whose reset is offered.
use redfish_ctl.Common.{some, ap, ◌∙◌, ◌≡◌, ◌⊎◌, refl, String, true, false, none, List, [], ◌∷◌}
use redfish_ctl.Common.Dict.{Dict, lookup}
use redfish_ctl.Common.Effect
use redfish_ctl.Common.Effect.{Exec}
use redfish_ctl.Json.{dict, end, props, mapping, get, Fields, Json, str, object, texts, to_text}
use redfish_ctl.Json.Equality.{member}
use redfish_ctl.Policy.{destructive, classify}
use redfish_ctl.Http.{Exn, Response, Transport, decoded}
use redfish_ctl.Action.Gate.{Options, gate}
use redfish_ctl.Http.Status.{base_post, default_error_handler}
use redfish_ctl.Action.Discover.{discover_redfish_actions}
use redfish_ctl.Action.Validate.{validate_action_payload}
use redfish_ctl.Action.Report.{first_error}
use redfish_ctl.Action.Invoke.{
  invoke_action, after_read, document, on_resource, resolved, resolve, checked, perform,
}
use redfish_ctl.Action.Invoke.Target.{NamesOnly, invoke_action_target}
use redfish_ctl.Action.Invoke.Guard.{posted, gate-permitted, Fired, invoke_action_guard}

abbrev plain : String → String
plain t = t

abbrev reset_action : Json
reset_action = object (
    ("target", str "/redfish/v1/Systems/1/Actions/ComputerSystem.Reset")
    ∷ ("ResetType@Redfish.AllowableValues", texts ("On" ∷ "ForceOff" ∷ []))
    ∷ [])

abbrev system : Json
system = object (("Actions", object (("#ComputerSystem.Reset", reset_action) ∷ [])) ∷ [])

abbrev no_schema : String → Dict (List String)
no_schema t = []

abbrev accepted : Response
accepted = record {
  status_code = 204;
  location = none;
  retry_after = none;
  body = decoded (object []);
}

abbrev recorder : Transport
recorder = record {
  State = List String;
  send = λ method url payload log. (Effect.ok accepted, url ∷ log);
}

abbrev read : String → Exec (List String) Exn Json
read uri log = (Effect.ok system, log)

abbrev confirmed : Options
confirmed = record { dry_run = false; confirm = true; confirm_irreversible = false }

abbrev unconfirmed : Options
unconfirmed = record { dry_run = false; confirm = false; confirm_irreversible = true }

abbrev run : Options → String → List String
run o type =
    (invoke_action plain no_schema recorder "https://bmc" read "/redfish/v1/Systems/1" "Reset"
      (("ResetType", str type) ∷ []) "" o []).1

confirmed_reset :
    run confirmed "ForceOff" ≡ "https://bmc/redfish/v1/Systems/1/Actions/ComputerSystem.Reset" ∷ []
unfolding invoke_action after_read document on_resource discover_redfish_actions resolved resolve
    validate_action_payload member checked perform gate classify base_post default_error_handler
    to_text
confirmed_reset = refl

unconfirmed_reset : run unconfirmed "ForceOff" ≡ []
unfolding invoke_action after_read document on_resource discover_redfish_actions resolved resolve
    validate_action_payload member checked perform gate classify
unconfirmed_reset = refl

unknown_value : run confirmed "Nmi" ≡ []
unfolding invoke_action after_read document on_resource discover_redfish_actions resolved resolve
    validate_action_payload member checked first_error
unknown_value = refl

gate-permitted_example : (gate destructive unconfirmed).0 ≡ true
gate-permitted_example = gate-permitted destructive unconfirmed

invoke_action_guard_example :
    (run confirmed "ForceOff" ≡ [])
    ⊎ Fired plain no_schema recorder "https://bmc" read "/redfish/v1/Systems/1" "Reset"
        (("ResetType", str "ForceOff") ∷ [])
        ""
        confirmed
        []
        (run confirmed "ForceOff")
invoke_action_guard_example =
    invoke_action_guard plain no_schema recorder "https://bmc" read "/redfish/v1/Systems/1" "Reset"
      (("ResetType", str "ForceOff") ∷ []) "" confirmed []

abbrev reset_target : Json
reset_target = str "/redfish/v1/Systems/1/Actions/ComputerSystem.Reset"

abbrev fields_of : Json → Fields
fields_of (dict fs) = fs
fields_of v = end

the_same : {t u : Json} → some t ≡ some u → u ≡ t
the_same h = cc

reset_named :
    (fs : Fields) (t : Json)
    → reset_action ≡ dict fs
    → lookup "target" (props fs) ≡ some t
    → t ≡ reset_target
unfolding lookup
reset_named fs t e found = the_same (ap (λ v. lookup "target" (mapping v)) e ∙ found)

system_names : NamesOnly (λ t. t ≡ reset_target) (props (fields_of system))
unfolding lookup get
system_names = (((reset_named, λ oem. cc), tt), tt)

invoke_action_target_example :
    (run confirmed "ForceOff" ≡ [])
    ⊎ ((target : Json) × (target ≡ reset_target)
        × (run confirmed "ForceOff"
            ≡ posted plain no_schema recorder "https://bmc" read target
                (("ResetType", str "ForceOff") ∷ [])
                []))
invoke_action_target_example =
    invoke_action_target (λ t. t ≡ reset_target) plain no_schema recorder "https://bmc" read
      "/redfish/v1/Systems/1" "Reset" (("ResetType", str "ForceOff") ∷ []) "" confirmed []
      (fields_of system) refl system_names
