-- ===== src/Wait/Tests.antt =====
-- A wait over the reboot of a BMC that is down from 200 to 500 milliseconds.
use redfish_ctl.Common.{ℕ, ◌+◌, ◌≡◌, refl, not, ◌&&◌, some, true, arith, leb, is_some}
use redfish_ctl.Wait.{Watch, Settings, WaitResult, wait_for, probe_until}
use redfish_ctl.Wait.Laws.{Reports, IsClock, wait_for_outcome, wait_for_terminates}

abbrev bmc : Watch
bmc = record {
  State = ℕ;
  probe = λ time. (not (leb 200 time && leb time 500), time);
  monotonic = λ time. time;
  sleep = λ d time. time + d;
}

abbrev reboot : Settings
reboot = record {
  description = "BMC reachable";
  timeout = 2000;
  interval = 100;
  invert_first = true;
}

bmc-IsClock : IsClock bmc
bmc-IsClock = record { probe_keeps = λ s. omega arith; sleep_takes = λ d s. omega arith }

abbrev back : WaitResult
back = record {
  waiting_for = "BMC reachable";
  precondition_met = some true;
  satisfied = true;
  waited_s = 6;
}

cycle_seen : wait_for bmc reboot 5 0 ≡ (some back, 600)
unfolding wait_for probe_until
cycle_seen = refl

wait_for_outcome_example : Reports bmc reboot 0 back 600
wait_for_outcome_example = wait_for_outcome bmc reboot 5 0 cycle_seen

wait_for_terminates_example : is_some (wait_for bmc reboot 2001 0).0 ≡ true
wait_for_terminates_example = wait_for_terminates bmc bmc-IsClock reboot (omega arith) 0
