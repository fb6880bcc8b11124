-- ===== src/Task/Timeout.antt =====
-- The polling of a task with a timeout.
use redfish_ctl.Common.{
  ℕ, zero, suc, ◌+◌, ◌-◌, ◌≤◌, ◌≡◌, refl, Bool, true, false, Option, none, some, arith, leb,
  Bool-cases, inl, inr,
}
use redfish_ctl.Common.Effect.{Result, ok, raised}
use redfish_ctl.Http.{Response, Exn}
use redfish_ctl.Task.{
  TaskState, Settings, Service, Verdict, stop, failure, again, judge, poll, after_reply,
  after_verdict, fetch_task,
}

-- A run that has not used its fuel up: it returned or it raised.
abbrev pub is_settled : Result Exn (Option (Option TaskState)) → Bool
is_settled (ok none) = false
is_settled (ok (some result)) = true
is_settled (raised e) = true

-- The clock does not go back in a call, and a sleep takes the time it is given.
pub record IsClock (V : Service) : Type 0 where
  pub call_keeps : (url : _) (s : V.State) → V.monotonic s ≤ V.monotonic (V.api_get_call url s).1
  pub sleep_takes : (d : ℕ) (s : V.State) → V.monotonic s + d ≤ V.monotonic (V.sleep d s)

judge_delay :
    (settings : Settings) (seen : Option TaskState) (response : Response) (next : Option TaskState)
    (delay : ℕ)
    → judge settings seen response ≡ again next delay
    → settings.sleep_time ≤ delay
unfolding judge
judge_delay settings seen response next delay h = ground arith

module _ (V : Service) (clock : IsClock V) (settings : Settings) (limit started : ℕ)
    (bounded : settings.timeout ≡ some limit) (waits : 1 ≤ settings.sleep_time) where
  absurd_early :
      {A : Type 0} (time : ℕ) → leb limit (time - started) ≡ false → limit + started ≤ time → A
  absurd_early time early late = ground arith

  verdict_settled :
      (rest : Option TaskState → V.State → Result Exn (Option (Option TaskState)) × V.State)
      (seen : Option TaskState) (response : Response) (verdict : Verdict) (t : V.State)
      → judge settings seen response ≡ verdict
      → ((next : Option TaskState) (delay : ℕ)
          → 1 ≤ delay
          → leb limit (V.monotonic t - started) ≡ false
          → is_settled (rest next (V.sleep delay t)).0 ≡ true)
      → is_settled (after_verdict V settings started rest verdict t).0 ≡ true
  unfolding after_verdict
  verdict_settled rest seen response (stop x) t judged more = refl
  verdict_settled rest seen response (failure e) t judged more = refl
  verdict_settled rest seen response (again next delay) t judged more =
      elim (Bool-cases (leb limit (V.monotonic t - started))) [
        | inl late ↦ rw (bounded, late) refl
        | inr early ↦
            rw (bounded, early)
              (more next delay
                (omega (arith, judge_delay settings seen response next delay judged, waits)) early)
      ]

  reply_settled :
      (rest : Option TaskState → V.State → Result Exn (Option (Option TaskState)) × V.State)
      (seen : Option TaskState) (reply : Result Exn Response) (t : V.State)
      → ((next : Option TaskState) (delay : ℕ)
          → 1 ≤ delay
          → leb limit (V.monotonic t - started) ≡ false
          → is_settled (rest next (V.sleep delay t)).0 ≡ true)
      → is_settled (after_reply V settings started rest seen reply t).0 ≡ true
  unfolding after_reply
  reply_settled rest seen (raised e) t more = refl
  reply_settled rest seen (ok response) t more =
      verdict_settled rest seen response (judge settings seen response) t refl more

  poll_settled :
      (n : ℕ) (seen : Option TaskState) (s : V.State)
      → started ≤ V.monotonic s
      → limit + started ≤ V.monotonic s + n
      → is_settled (poll V settings started (suc n) seen s).0 ≡ true
  unfolding poll
  poll_settled zero seen s after enough =
      let t = (V.api_get_call settings.url s).1 in
      reply_settled (poll V settings started 0) seen (V.api_get_call settings.url s).0 t
        (λ next delay one early.
          absurd_early (V.monotonic t) early
            (omega (arith, clock.call_keeps settings.url s, enough)))
  poll_settled (suc n) seen s after enough =
      let t = (V.api_get_call settings.url s).1 in
      reply_settled (poll V settings started (suc n)) seen (V.api_get_call settings.url s).0 t
        (λ next delay one early.
          poll_settled n next (V.sleep delay t)
            (omega (arith, clock.call_keeps settings.url s, clock.sleep_takes delay t, after))
            (omega
              (arith, clock.call_keeps settings.url s, clock.sleep_takes delay t, enough, one)))

module _ (V : Service) (clock : IsClock V) (settings : Settings) (limit : ℕ)
    (bounded : settings.timeout ≡ some limit) (waits : 1 ≤ settings.sleep_time) where
  -- With a timeout of `limit` ticks and a sleep of at least one between the polls, a wait for a task
  -- returns or raises within `limit + 1` polls, whatever the service answers, on a clock that a call
  -- does not turn back and that a sleep moves on.
  pub fetch_task_terminates :
      (s : V.State) → is_settled (fetch_task V settings (suc limit) s).0 ≡ true
  unfolding fetch_task
  fetch_task_terminates s =
      poll_settled V clock settings limit (V.monotonic s) bounded waits limit none s (omega arith)
        (omega arith)
