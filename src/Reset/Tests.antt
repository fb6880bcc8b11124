-- ===== src/Reset/Tests.antt =====
-- Runs of reboot, over a BMC that accepts the reset.
use redfish_ctl.Common.{ℕ, String, ◌<>◌, Bool, true, false, none, some, List, [], ◌∷◌}
use redfish_ctl.Common.Dict.{Dict}
use redfish_ctl.Common.Effect
use redfish_ctl.Common.Effect.{Exec}
use redfish_ctl.Common.Text.{show}
use redfish_ctl.Json.{Json, str, object, texts}
use redfish_ctl.Http.{Exn, Response, Transport, CommandResult, decoded}
use redfish_ctl.Reset.{RebootOptions, reboot}
use redfish_ctl.Reset.Follow.{RunOf, reboot_sends_first}

abbrev plain : String → String
plain t = t

abbrev no_schema : String → Dict (List String)
no_schema t = []

abbrev system : Json
system = object (
    (
      "Actions",
      object (
          (
            "#ComputerSystem.Reset",
            object (
                ("target", str "/Reset")
                ∷ ("ResetType@Redfish.AllowableValues", texts ("On" ∷ []))
                ∷ []),
          )
          ∷ []),
    )
    ∷ [])

abbrev Log : Type 0
Log = List String

abbrev accepted : Response
accepted = record {
  status_code = 202;
  location = some "/redfish/v1/TaskService/Tasks/7";
  retry_after = none;
  body = decoded (object []);
}

abbrev recorder : Transport
recorder = record {
  State = Log;
  send = λ method url payload log. (Effect.ok accepted, ("POST " <> url) ∷ log);
}

abbrev read : String → Exec Log Exn Json
read uri log = (Effect.ok system, log)

abbrev managed : Exec Log Exn String
managed log = (Effect.ok "/redfish/v1/Systems/1", log)

abbrev poll : Json → Exec Log Exn Json
poll id log = (Effect.ok (str "Completed"), "task" ∷ log)

abbrev wait : ℕ → ℕ → Exec Log Exn CommandResult
wait timeout interval log =
    (Effect.ok (record { data_of = object []; error = none }), ("wait " <> show timeout) ∷ log)

abbrev on : Bool → RebootOptions
on dry_run = record {
  reset_type = "On";
  do_wait = true;
  dry_run = dry_run;
  sleep_time = 10;
  max_retry = 3;
}

abbrev run : Bool → Log
run dry_run =
    (reboot plain no_schema recorder "https://bmc" read managed poll wait (on dry_run) []).1

reboot_sends_first_example :
    RunOf plain no_schema recorder "https://bmc" read managed poll wait
      (on false)
      (managed [])
      (reboot plain no_schema recorder "https://bmc" read managed poll wait (on false) [])
reboot_sends_first_example =
    reboot_sends_first plain no_schema recorder "https://bmc" read managed poll wait (on false) []
