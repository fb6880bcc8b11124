-- ===== src/Controller/Profile/Tests.antt =====
-- Runs of the controller for one profile, against commands that are recorded.
use redfish_ctl.Common.{
  ◌≡◌, ◌⊎◌, refl, String, true, false, none, some, List, [], ◌∷◌, all, arith, is_some,
}
use redfish_ctl.Common.Dict.{Dict}
use redfish_ctl.Common.Text.{is_empty}
use redfish_ctl.Common.Effect.{Result, ok, raised}
use redfish_ctl.Common.Effect.Safe.{Safe}
use redfish_ctl.Json.{Json, str, object}
use redfish_ctl.Reconcile.Desired.{ReconcileError, from_mapping}
use redfish_ctl.Reconcile.Request.{Request, SyncInvoker}
use redfish_ctl.Reconcile.Plan.{
  ReconcileStep, ReconcileResult, reconcile_mapping, reconcile, when, reconcile_reboot,
  invoke_mapping, invoke_data,
}
use redfish_ctl.Reconcile.Plan.Contract.{plans_only}
use redfish_ctl.Controller.Status.Hash.{IsRequiredPart, HashOf}
use redfish_ctl.Controller.Status.{Status, build_status, plan_hash}
use redfish_ctl.Controller.Profile.{is_approved, decide, handle_profile}
use redfish_ctl.Controller.Profile.Laws.{
  offered, planned, Approves, build_status_drift, handle_profile_guard, decide_once,
}

abbrev plain : String → String
plain t = t

abbrev digest : List ReconcileStep → String
digest steps = "d41d"

abbrev recorder : SyncInvoker
recorder = record {
  State = List Request;
  sync_invoke = λ r log. (ok (record { data_of = object []; error = none }), r ∷ log);
}

abbrev manager : Dict Json → Result ReconcileError (Unit {0})
manager endpoint = ok tt

abbrev restart : ReconcileResult
restart = record {
  dry_run = true;
  steps = record { kind = "reboot"; required = true; description = "reboot"; preview = [] } ∷ [];
  applied = [];
}

abbrev spec : Dict Json
spec =
    ("endpoint", object (("address", str "10.0.0.9") ∷ []))
    ∷ ("desiredState", object (("reboot", str "GracefulRestart") ∷ []))
    ∷ ("approvedPlanHash", str "d41d")
    ∷ []

abbrev OnlyPlans : List Request → Type 0
OnlyPlans log = all plans_only log ≡ true

recorder_keeps :
    (r : Request) → plans_only r ≡ true → Safe OnlyPlans (λ reply. Unit) (recorder.sync_invoke r)
recorder_keeps r h = record { run = λ log kept. (ground (arith, h, kept), tt) }

digest_ne : (steps : List ReconcileStep) → is_empty (digest steps) ≡ false
digest_ne steps = refl

build_status_drift_example :
    let st =
      build_status digest restart false
        (record { approved_plan = none; plan_value = none; consumed_plan = some "old" })
        "now" in
    (st.drift ≡ some (is_some st.plan_hash))
    × (required : List ReconcileStep) × IsRequiredPart required restart.steps
    × HashOf digest required st.plan_hash
build_status_drift_example =
    build_status_drift digest digest_ne restart false none (some "old") "now"

handle_profile_guard_example :
    OnlyPlans (handle_profile plain digest recorder manager (ok tt) spec [] "now" []).1
    ⊎ Approves plain digest recorder manager OnlyPlans recorder_keeps spec []
        (planned plain digest recorder manager spec []).0
handle_profile_guard_example =
    handle_profile_guard plain digest recorder manager OnlyPlans recorder_keeps (ok tt) spec []
      "now" [] refl

abbrev outcome : Result ReconcileError Status × List Request
outcome = decide plain digest recorder manager spec (some "d41d") none "now" restart []

abbrev status_of : Result ReconcileError Status → Status
status_of (ok st) = st
status_of (raised e) =
    build_status digest restart false
      (record { approved_plan = none; plan_value = none; consumed_plan = none }) ""

restart-offered : is_approved (offered digest restart) (some "d41d") none ≡ true
unfolding is_approved plan_hash
restart-offered = refl

applied_once : outcome ≡ (ok (status_of outcome.0), outcome.1)
unfolding decide build_status is_approved reconcile_mapping from_mapping reconcile when
    reconcile_reboot invoke_mapping invoke_data
applied_once = refl

decide_once_example :
    is_approved (offered digest restart) (some "d41d") (status_of outcome.0).consumed_plan_hash
    ≡ false
decide_once_example =
    decide_once plain digest recorder manager spec (some "d41d") none "now" restart []
      restart-offered applied_once restart (some "d41d") refl
