-- ===== src/Reset.antt =====
-- redfish_ctl/compute/cmd_power_state.py: the command `reboot`.
pub mod Follow
mod Tests
use redfish_ctl.Common.{
  ℕ, ◌*◌, String, Bool, true, false, not, ◌&&◌, Option, none, some, List, [], ◌∷◌, is_some,
  if◌then◌else◌,
}
use redfish_ctl.Common.Dict.{Dict, insert}
use redfish_ctl.Common.Effect.{Exec, pure, ◌>>=◌}
use redfish_ctl.Json.{Json, dict, str, object, mapping, truthy, get}
use redfish_ctl.Http.{Exn, Transport, CommandError, CommandResult}
use redfish_ctl.Action.Gate.{Options}
use redfish_ctl.Action.Report.{ActionResult}
use redfish_ctl.Action.Invoke.{invoke_action}

-- `do_async` sends the same POST on another path, and is left out.
pub record RebootOptions : Type 0 where
  pub reset_type : String
  pub do_wait : Bool
  pub dry_run : Bool
  pub sleep_time : ℕ
  pub max_retry : ℕ

-- `cmd_result.error is None and not data.get("dry_run")`
unfoldable pub fired : CommandResult → Bool
unfolding get
fired r = not (is_some r.error) && not (truthy (get (mapping r.data_of) "dry_run"))

-- The rows are written into the dict of the result itself; a result without one keeps its data.
abbrev pub with_data : Json → Dict Json → Json
with_data (dict fs) d = object d
with_data v d = v

abbrev pub finished : CommandResult → Dict Json → CommandResult
finished r d = record { data_of = with_data r.data_of d; error = r.error }

-- What is returned after the wait.
abbrev pub after_wait : CommandResult → Dict Json → Option CommandError → CommandResult
after_wait r d none = finished r d
after_wait r d (some e) = record { data_of = object d; error = some e }

abbrev pub reset_options : RebootOptions → Options
reset_options o = record { dry_run = o.dry_run; confirm = true; confirm_irreversible = false }

abbrev pub reset_payload : RebootOptions → Dict Json
reset_payload o = ("ResetType", str o.reset_type) ∷ []

module _ (repr : String → String) (schema : String → Dict (List String)) (T : Transport)
    (origin : String) (query : String → Exec T.State Exn Json)
    (managed_system_uri : Exec T.State Exn String) (fetch_task : Json → Exec T.State Exn Json)
    (wait : ℕ → ℕ → Exec T.State Exn CommandResult) where
  -- The wait command, with its timeout and its interval.
  abbrev pub wait_for_reboot : ℕ → ℕ → Exec T.State Exn CommandResult
  wait_for_reboot sleep_time max_retry = wait (sleep_time * max_retry) sleep_time

  -- The state of the task of a reset, where the answer names one.
  unfoldable pub with_task : Dict Json → Exec T.State Exn (Dict Json)
  unfolding get insert
  with_task d =
      let id = get d "task_id" in
      if truthy id
      then (fetch_task id >>= λ state. pure (insert "task_id" id (insert "task_state" state d)))
      else (pure d)

  unfoldable pub waited : RebootOptions → CommandResult → Dict Json → Exec T.State Exn CommandResult
  unfolding insert
  waited o r d =
      if o.do_wait
      then (wait_for_reboot o.sleep_time o.max_retry >>= λ w.
          pure (after_wait r (insert "wait" w.data_of d) w.error))
      else (pure (finished r d))

  -- What follows the call of the action.
  unfoldable pub follow : RebootOptions → CommandResult → Exec T.State Exn CommandResult
  unfolding fired with_task waited
  follow o r = if fired r then with_task (mapping r.data_of) >>= waited o r else pure r

  -- RebootHost.execute
  unfoldable pub reboot : RebootOptions → Exec T.State Exn CommandResult
  unfolding follow
  reboot o = do
    uri ← managed_system_uri
    called ←
        invoke_action repr schema T origin query uri "Reset" (reset_payload o)
          "#ComputerSystem.Reset" (reset_options o)
    follow o called.result
