-- ===== src/Task/Tests.antt =====
-- Runs of the polling against a task that completes at the fifth tick.
use redfish_ctl.Common.{ℕ, ◌+◌, ◌≡◌, refl, true, none, some, [], ◌∷◌, arith, leb, if◌then◌else◌}
use redfish_ctl.Common.Effect.{ok}
use redfish_ctl.Json.{str, object}
use redfish_ctl.Http.{Response, decoded}
use redfish_ctl.Task.{
  completed, Settings, Service, fetch_task, get_task_state, judge, retry_after_of,
}
use redfish_ctl.Task.Laws.{Ended, fetch_task_outcome}
use redfish_ctl.Task.Timeout.{IsClock, is_settled, fetch_task_terminates}

abbrev task : ℕ → Response
task time = record {
  status_code = if leb 5 time then 200 else 202;
  location = none;
  retry_after = some " 2";
  body = decoded (object (("TaskState", str (if leb 5 time then "Completed" else "Running")) ∷ []));
}

abbrev service : Service
service = record {
  State = ℕ;
  api_get_call = λ url time. (ok (task time), time);
  monotonic = λ time. time;
  sleep = λ delay time. time + delay;
}

abbrev settings : Settings
settings = record {
  url = "https://bmc/redfish/v1/TaskService/Tasks/JID_7";
  sleep_time = 1;
  wait_for_state = none;
  timeout = some 10;
}

service-IsClock : IsClock service
service-IsClock = record { call_keeps = λ url s. omega arith; sleep_takes = λ d s. omega arith }

wait_completes : fetch_task service settings 4 0 ≡ (ok (some (some completed)), 6)
unfolding fetch_task judge get_task_state retry_after_of
wait_completes = refl

fetch_task_outcome_example : Ended service settings 0 (some completed) 6
fetch_task_outcome_example = fetch_task_outcome service settings 4 0 wait_completes

fetch_task_terminates_example : is_settled (fetch_task service settings 11 0).0 ≡ true
fetch_task_terminates_example =
    fetch_task_terminates service service-IsClock settings 10 refl (omega arith) 0
