-- ===== src/Reconcile/Plan/Tests.antt =====
-- Runs of a reconciliation against commands that are recorded.
use redfish_ctl.Common.{◌≡◌, refl, String, Bool, true, false, none, some, List, [], ◌∷◌, all, arith}
use redfish_ctl.Common.Effect.{ok}
use redfish_ctl.Common.Effect.Safe.{Safe, Holds}
use redfish_ctl.Json.{object}
use redfish_ctl.Reconcile.Desired.{DesiredState}
use redfish_ctl.Reconcile.Request.{Request, SyncInvoker, Flags}
use redfish_ctl.Reconcile.Plan.{reconcile}
use redfish_ctl.Reconcile.Plan.Contract.{plans_only, kinds, wanted_kinds, justified}
use redfish_ctl.Reconcile.Plan.Laws.{reconcile_dry_run, reconcile-justified}

abbrev plain : String → String
plain t = t

-- Every command succeeds and is recorded.
abbrev recorder : SyncInvoker
recorder = record {
  State = List Request;
  sync_invoke = λ r log. (ok (record { data_of = object []; error = none }), r ∷ log);
}

abbrev wanted : DesiredState
wanted = record {
  bios_profile = some "virtualization";
  ntp_servers = "10.0.0.1" ∷ [];
  ntp_manager_id = none;
  boot_device = some "Pxe";
  boot_mode = none;
  uefi_target = none;
  reset_type = some "GracefulRestart";
}

abbrev flags_of : Bool → Flags
flags_of confirm = record { confirm = confirm; wait_for_reboot = true; async_call = false }

abbrev OnlyPlans : List Request → Type 0
OnlyPlans log = all plans_only log ≡ true

recorder_keeps :
    (r : Request) → plans_only r ≡ true → Safe OnlyPlans (λ reply. Unit) (recorder.sync_invoke r)
recorder_keeps r h = record { run = λ log kept. (ground (arith, h, kept), tt) }

reconcile_dry_run_example :
    OnlyPlans (reconcile plain recorder wanted (flags_of false) []).1
    × Holds
        (λ r. (r.dry_run ≡ true) × (r.applied ≡ []) × (kinds r.steps ≡ wanted_kinds wanted))
        (reconcile plain recorder wanted (flags_of false) []).0
reconcile_dry_run_example =
    reconcile_dry_run plain recorder wanted (flags_of false) OnlyPlans [] refl recorder_keeps refl

reconcile-justified_example :
    Holds
      (λ r.
        (r.dry_run ≡ false)
        × (kinds r.steps ≡ wanted_kinds wanted)
        × (all (justified r.steps) r.applied ≡ true))
      (reconcile plain recorder wanted (flags_of true) []).0
reconcile-justified_example = reconcile-justified plain recorder wanted (flags_of true) []
