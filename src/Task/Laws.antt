-- ===== src/Task/Laws.antt =====
-- Why the polling of a task ends.
use redfish_ctl.Common.{
  ℕ, zero, suc, ◌-◌, ◌≡◌, ◌≢◌, ◌⊎◌, inl, inr, refl, ap, ◌∙◌, Bool-cases, true, Option, none, some,
  arith,
}
use redfish_ctl.Common.Effect.{Result, ok, raised}
use redfish_ctl.Http.{Response, Exn}
use redfish_ctl.Task.{
  TaskState, Settings, Service, Verdict, stop, failure, again, judge, stops_polling, awaited,
  has_ended, timed_out, same_state, poll, after_reply, after_verdict, fetch_task,
}

same_state_sound : (a b : TaskState) → same_state a b ≡ true → a ≡ b
same_state_sound a b h = ground arith

awaited_sound : (wanted seen : Option TaskState) → awaited wanted seen ≡ true → seen ≡ wanted
awaited_sound (some wanted) (some state) h = ap some (cc (same_state_sound wanted state h))
awaited_sound none seen h = cc
awaited_sound (some wanted) none h = cc

awaited_some : (wanted seen : Option TaskState) → awaited wanted seen ≡ true → seen ≢ none
awaited_some (some wanted) (some state) h = ground arith
awaited_some none seen h = cc
awaited_some (some wanted) none h = cc

returned :
    {S : Type 0} {result : Option TaskState} (x : Option TaskState) (s : S) {s' : S}
    → ◌≡◌ {A = Result Exn (Option (Option TaskState)) × S} (ok (some x), s) (ok (some result), s')
    → (x ≡ result) × (s ≡ s')
returned x s h = (cc, cc)

module _ (V : Service) (settings : Settings) where
  -- Why the wait for a task may end with a state.
  abbrev pub Reason : ℕ → Response → Option TaskState → V.State → Type 0
  Reason started response result s =
      (stops_polling response.status_code ≡ true)
      ⊎ (((result ≡ settings.wait_for_state) × (result ≢ none))
          ⊎ ((has_ended result ≡ true)
              ⊎ (timed_out settings.timeout (V.monotonic s - started) ≡ true)))

  judge_stop :
      (seen : Option TaskState) (response : Response) (result : Option TaskState)
      → judge settings seen response ≡ stop result
      → (response.status_code ≢ 401)
        × ((stops_polling response.status_code ≡ true)
            ⊎ ((awaited settings.wait_for_state result ≡ true) ⊎ (has_ended result ≡ true)))
  unfolding judge
  judge_stop seen response result h = ground arith

  judge_again :
      (seen : Option TaskState) (response : Response) (next : Option TaskState) (delay : ℕ)
      → judge settings seen response ≡ again next delay
      → response.status_code ≢ 401
  unfolding judge
  judge_again seen response next delay h = ground arith

  module _ (started : ℕ) where
    -- The last answer, and why it ended the wait.
    abbrev pub Ended : Option TaskState → V.State → Type 0
    Ended result s' =
        (t : V.State) × (response : Response) × (V.api_get_call settings.url t ≡ (ok response, s'))
        × (response.status_code ≢ 401)
        × Reason started response result s'

    verdict-Ended :
        (rest : Option TaskState → V.State → Result Exn (Option (Option TaskState)) × V.State)
        (seen : Option TaskState) (t : V.State) (response : Response) (verdict : Verdict)
        (s s' : V.State) (result : Option TaskState)
        → V.api_get_call settings.url t ≡ (ok response, s)
        → judge settings seen response ≡ verdict
        → ((next : Option TaskState) (u : V.State)
            → rest next u ≡ (ok (some result), s')
            → Ended result s')
        → after_verdict V settings started rest verdict s ≡ (ok (some result), s')
        → Ended result s'
    unfolding after_verdict
    verdict-Ended rest seen t response (stop x) s s' result called judged more h =
        let (e, kept) = returned x s h in
        let (code, why) = judge_stop seen response result (judged ∙ ap stop e) in
        (
          t,
          response,
          cc,
          code,
          elim why [
            | inl gone ↦ inl gone
            | inr (inl got) ↦ inr (inl (awaited_sound _ result got, awaited_some _ result got))
            | inr (inr over) ↦ inr (inr (inl over))
          ],
        )
    verdict-Ended rest seen t response (failure e) s s' result called judged more h = cc
    verdict-Ended rest seen t response (again next delay) s s' result called judged more h =
        elim (Bool-cases (timed_out settings.timeout (V.monotonic s - started))) [
          | inl late ↦
              let (e, kept) = returned next s (rw late at h) in
              (t, response, cc, judge_again seen response next delay judged, inr (inr (inr cc)))
          | inr early ↦ more next (V.sleep delay s) (rw early at h)
        ]

    reply-Ended :
        (rest : Option TaskState → V.State → Result Exn (Option (Option TaskState)) × V.State)
        (seen : Option TaskState) (t : V.State) (reply : Result Exn Response) (s s' : V.State)
        (result : Option TaskState)
        → V.api_get_call settings.url t ≡ (reply, s)
        → ((next : Option TaskState) (u : V.State)
            → rest next u ≡ (ok (some result), s')
            → Ended result s')
        → after_reply V settings started rest seen reply s ≡ (ok (some result), s')
        → Ended result s'
    unfolding after_reply
    reply-Ended rest seen t (raised e) s s' result called more h = cc
    reply-Ended rest seen t (ok response) s s' result called more h =
        verdict-Ended rest seen t response (judge settings seen response) s s' result called refl
          more h

    poll-Ended :
        (n : ℕ) (seen : Option TaskState) (s s' : V.State) (result : Option TaskState)
        → poll V settings started n seen s ≡ (ok (some result), s')
        → Ended result s'
    unfolding poll
    poll-Ended zero seen s s' result h = cc
    poll-Ended (suc n) seen s s' result h =
        reply-Ended (poll V settings started n) seen s (V.api_get_call settings.url s).0
          (V.api_get_call settings.url s).1 s' result refl
          (λ next u k. poll-Ended n next u s' result k) h

  -- A wait for a task that returns a state had a last answer, which was not a 401, and ended for one
  -- of four reasons: the monitor was gone or the service failed, the state is the one waited for, it is
  -- a terminal one, or the time was over.
  pub fetch_task_outcome :
      (fuel : ℕ) (s : V.State) {s' : V.State} {result : Option TaskState}
      → fetch_task V settings fuel s ≡ (ok (some result), s')
      → Ended (V.monotonic s) result s'
  unfolding fetch_task
  fetch_task_outcome fuel s {s'} {result} h = poll-Ended (V.monotonic s) fuel none s s' result h
