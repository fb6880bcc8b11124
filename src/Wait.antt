-- ===== src/Wait.antt =====
-- redfish_ctl/cmd_wait.py: wait_for. Times are in milliseconds, in place of seconds with a fraction.
pub mod Loops
pub mod Laws
mod Tests
use redfish_ctl.Common.{
  ℕ, zero, suc, ◌+◌, ◌-◌, ◌/◌, ◌%◌, String, Bool, true, false, not, Option, none, some, leb, ltb,
  ◌=?◌, if◌then◌else◌,
}

-- The predicate, where an exception counts as False, and the clock.
pub record Watch : Type 1 where
  pub State : Type 0
  pub probe : State → Bool × State
  pub monotonic : State → ℕ
  pub sleep : ℕ → State → State

pub record Settings : Type 0 where
  pub description : String
  pub timeout : ℕ
  pub interval : ℕ
  pub invert_first : Bool

-- `precondition_met` is there if the wait inverts first; `waited_s` is in tenths of a second.
pub record WaitResult : Type 0 where
  pub waiting_for : String
  pub precondition_met : Option Bool
  pub satisfied : Bool
  pub waited_s : ℕ

abbrev pub same : Bool → Bool → Bool
same true b = b
same false b = not b

-- round(t, 1): the nearest tenth of a second, and the even one of two.
abbrev pub round_tenths : ℕ → ℕ
round_tenths t =
    let tenths = t / 100 in
    let rest = t % 100 in
    if ltb rest 50
    then tenths
    else if ltb 50 rest
    then suc tenths
    else if tenths % 2 =? 0
    then tenths
    else suc tenths

module _ (W : Watch) (interval deadline : ℕ) (goal : Bool) where
  -- What follows a probe: the end, or a sleep and the rest.
  abbrev pub after_probe :
      (W.State → Option Bool × W.State) → Bool × W.State → Option Bool × W.State
  after_probe rest (seen, t) =
      if same goal seen
      then (some true, t)
      else if leb deadline (W.monotonic t)
      then (some false, t)
      else rest (W.sleep interval t)

  -- Each of the two loops, on fuel: probe until the predicate is as the goal says, or the time is over.
  unfoldable pub probe_until : ℕ → W.State → Option Bool × W.State
  probe_until zero s = (none, s)
  probe_until (suc n) s = after_probe (probe_until n) (W.probe s)

module _ (W : Watch) (settings : Settings) where
  abbrev report : ℕ → Option Bool → Option Bool × W.State → Option WaitResult × W.State
  report start met (none, t) = (none, t)
  report start met (some satisfied, t) = (
    some (record {
      waiting_for = settings.description;
      precondition_met = met;
      satisfied = satisfied;
      waited_s = round_tenths (W.monotonic t - start);
    }),
    t,
  )

  -- The second loop, after the first one, if there is one.
  abbrev then_wait : ℕ → ℕ → Option Bool × W.State → Option WaitResult × W.State
  then_wait fuel start (none, t) = (none, t)
  then_wait fuel start (some met, t) =
      report start (some met)
        (probe_until W settings.interval (start + settings.timeout) true fuel t)

  unfoldable pub wait_for : ℕ → W.State → Option WaitResult × W.State
  wait_for fuel s =
      let start = W.monotonic s in
      if settings.invert_first
      then then_wait fuel start
          (probe_until W settings.interval (start + settings.timeout) false fuel s)
      else report start none
          (probe_until W settings.interval (start + settings.timeout) true fuel s)
