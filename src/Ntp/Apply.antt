-- ===== src/Ntp/Apply.antt =====
-- redfish_ctl/manager/cmd_ntp_set.py: NtpSet.execute, which previews the plan or applies it.
use redfish_ctl.Common.{
  String, ◌<>◌, Bool, true, false, Option, none, some, List, [], ◌∷◌, if◌then◌else◌, length,
  is_some,
}
use redfish_ctl.Common.Effect.{Exec, pure, lift, ◌>>=◌}
use redfish_ctl.Common.Text.{join, show}
use redfish_ctl.Json.{Json, to_text}
use redfish_ctl.Http.{
  Exn, Transport, CommandError, CommandResult, RedfishApiRespond, message, redfish,
}
use redfish_ctl.Http.Error.{error_text}
use redfish_ctl.Http.Status.{base_patch, respond_name}
use redfish_ctl.Ntp.{Servers, normalize_ntp_servers}
use redfish_ctl.Ntp.Plan.{PlanItem, Skipped, ntp_plan}

-- What a PATCH of the plan came to.
pub record Applied : Type 0 where
  pub manager : Json
  pub target : Json
  pub status : RedfishApiRespond
  pub error : Option CommandError

-- `dry_run` is there, and true, exactly in a preview.
pub data NtpResult : Type 0 where
  preview : (servers : List String) (plan : List PlanItem) (skipped : List Skipped) → NtpResult
  done :
      (servers : List String) (applied : List Applied) (skipped : List Skipped)
      (error : Option String)
      → NtpResult

abbrev pub failures : List Applied → List Applied
failures [] = []
failures (a ∷ as_) = let rest = failures as_ in if is_some a.error then a ∷ rest else rest

module _ (repr : String → String) (is_ip_address : String → Bool) where
  -- str(status)
  unfoldable pub status_text : RedfishApiRespond → String
  unfolding respond_name
  status_text r = "RedfishApiRespond." <> respond_name r

  -- str(error)
  abbrev pub failure_text : CommandError → String
  failure_text (message t) = t
  failure_text (redfish e) = error_text repr e

  abbrev pub error_of : Option CommandError → String
  error_of none = "None"
  error_of (some e) = failure_text e

  unfoldable pub failure_lines : List Applied → List String
  unfolding to_text status_text
  failure_lines [] = []
  failure_lines (a ∷ rest) =
      (to_text repr a.manager <> (" (" <> (status_text a.status <> ("): " <> error_of a.error))))
      ∷ failure_lines rest

  unfoldable pub overall_error : List Applied → Option String
  unfolding failure_lines join show
  overall_error applied = on_failures (failures applied)
    where
      on_failures : List Applied → Option String
      on_failures [] = none
      on_failures (a ∷ rest) = some (
          "NTP PATCH failed on "
          <> (show (length (a ∷ rest))
              <> ("/"
                  <> (show (length applied)
                      <> (" target(s): " <> join "; " (failure_lines (a ∷ rest)))))))

  module _ (T : Transport) (origin : String) (query : String → Exec T.State Exn Json)
      (discover : Exec T.State Exn (List String)) where
    abbrev pub applied_item : PlanItem → CommandResult × RedfishApiRespond → Applied
    applied_item item (result, status) = record {
      manager = item.manager;
      target = item.target;
      status = status;
      error = result.error;
    }

    -- The loop over the plan: one PATCH for each item.
    unfoldable pub apply_all : List PlanItem → Exec T.State Exn (List Applied)
    unfolding base_patch to_text
    apply_all [] = pure []
    apply_all (item ∷ plan) =
        base_patch repr T origin (to_text repr item.target) item.payload >>= λ answer.
        apply_all plan >>= λ rest. pure (applied_item item answer ∷ rest)

    -- What follows the plan.
    unfoldable pub carry_out :
        List String → Bool → List PlanItem × List Skipped → Exec T.State Exn NtpResult
    unfolding apply_all overall_error
    carry_out servers false (plan, skipped) = pure (preview servers plan skipped)
    carry_out servers true (plan, skipped) =
        apply_all plan >>= λ applied. pure (done servers applied skipped (overall_error applied))

    unfoldable pub execute : Servers → Option String → Bool → Bool → Exec T.State Exn NtpResult
    unfolding normalize_ntp_servers ntp_plan carry_out
    execute servers manager_id clear confirm =
        lift (normalize_ntp_servers repr is_ip_address servers clear) >>= λ normalized.
        ntp_plan repr query normalized discover manager_id >>= carry_out normalized confirm
