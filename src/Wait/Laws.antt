-- ===== src/Wait/Laws.antt =====
-- Laws of wait_for.
use redfish_ctl.Common.{
  ℕ, zero, suc, ◌+◌, ◌*◌, ◌%◌, ◌-◌, ◌≤◌, ◌≡◌, inl, inr, refl, Bool, true, false, Option, none, some,
  arith, leb, Bool-cases, is_some,
}
use mathlib.Core.Path.{subst}
use redfish_ctl.Wait.Loops.{OfResult, round_tenths_near, Loop, LoopOf, probe_until-LoopOf}
use redfish_ctl.Wait.{
  Watch, Settings, WaitResult, same, after_probe, probe_until, report, then_wait, wait_for,
}

module _ (W : Watch) where
  module _ (settings : Settings) where
    -- The loops that a result stands for: the second one only, or both, one after the other.
    abbrev pub LoopsOf : Bool → ℕ → W.State → WaitResult → W.State → Type 0
    LoopsOf false start s r s' =
        (r.precondition_met ≡ none)
        × Loop W settings.interval (start + settings.timeout) true s r.satisfied s'
    LoopsOf true start s r s' =
        (met : Bool) × (t : W.State) × (r.precondition_met ≡ some met)
        × Loop W settings.interval (start + settings.timeout) false s met t
        × Loop W settings.interval (start + settings.timeout) true t r.satisfied s'

    -- The time that a result gives: the nearest tenth of a second, the even one of two.
    abbrev pub IsRounded : ℕ → ℕ → Type 0
    IsRounded tenths t =
        (tenths * 100 ≤ t + 50) × (t ≤ tenths * 100 + 50) × (t % 100 ≡ 50 → tenths % 2 ≡ 0)

    abbrev pub Reports : W.State → WaitResult → W.State → Type 0
    Reports s r s' =
        (r.waiting_for ≡ settings.description)
        × LoopsOf settings.invert_first (W.monotonic s) s r s'
        × IsRounded r.waited_s (W.monotonic s' - W.monotonic s)

    report-LoopsOf :
        (start : ℕ) (s : W.State) (out : Option Bool × W.State)
        → LoopOf W settings.interval (start + settings.timeout) true s out
        → OfResult (LoopsOf false start s) (report W settings start none out)
    report-LoopsOf start s (none, t) loop = tt
    report-LoopsOf start s (some satisfied, t) loop = (refl, loop)

    both-LoopsOf :
        (start : ℕ) (met : Bool) (s t : W.State) (out : Option Bool × W.State)
        → Loop W settings.interval (start + settings.timeout) false s met t
        → LoopOf W settings.interval (start + settings.timeout) true t out
        → OfResult (LoopsOf true start s) (report W settings start (some met) out)
    both-LoopsOf start met s t (none, u) first second = tt
    both-LoopsOf start met s t (some satisfied, u) first second = (met, t, refl, first, second)

    then_wait-LoopsOf :
        (fuel start : ℕ) (s : W.State) (out : Option Bool × W.State)
        → LoopOf W settings.interval (start + settings.timeout) false s out
        → OfResult (LoopsOf true start s) (then_wait W settings fuel start out)
    then_wait-LoopsOf fuel start s (none, t) first = tt
    then_wait-LoopsOf fuel start s (some met, t) first =
        both-LoopsOf start met s t _ first
          (probe_until-LoopOf W settings.interval (start + settings.timeout) true fuel t)

    wait_for-LoopsOf :
        (fuel : ℕ) (s : W.State)
        → OfResult (LoopsOf settings.invert_first (W.monotonic s) s) (wait_for W settings fuel s)
    unfolding wait_for
    wait_for-LoopsOf fuel s = elim (Bool-cases settings.invert_first) [
      | inl asked ↦ rw asked (
          then_wait-LoopsOf fuel (W.monotonic s) s _ (
            probe_until-LoopOf W settings.interval (W.monotonic s + settings.timeout) false fuel s))
      | inr plain ↦ rw plain (
          report-LoopsOf (W.monotonic s) s _
            (probe_until-LoopOf W settings.interval (W.monotonic s + settings.timeout) true fuel s))
    ]

    -- The name and the time that a result gives.
    abbrev IsTimed : ℕ → WaitResult → W.State → Type 0
    IsTimed start r s' =
        (r.waiting_for ≡ settings.description) × IsRounded r.waited_s (W.monotonic s' - start)

    report-IsTimed :
        (start : ℕ) (met : Option Bool) (out : Option Bool × W.State)
        → OfResult (IsTimed start) (report W settings start met out)
    report-IsTimed start met (none, t) = tt
    report-IsTimed start met (some b, t) = (refl, round_tenths_near (W.monotonic t - start))

    then_wait-IsTimed :
        (fuel start : ℕ) (out : Option Bool × W.State)
        → OfResult (IsTimed start) (then_wait W settings fuel start out)
    then_wait-IsTimed fuel start (none, t) = tt
    then_wait-IsTimed fuel start (some met, t) = report-IsTimed start (some met) _

    wait_for-IsTimed :
        (fuel : ℕ) (s : W.State) → OfResult (IsTimed (W.monotonic s)) (wait_for W settings fuel s)
    unfolding wait_for
    wait_for-IsTimed fuel s = elim (Bool-cases settings.invert_first) [
      | inl asked ↦ rw asked (then_wait-IsTimed fuel (W.monotonic s) _)
      | inr plain ↦ rw plain (report-IsTimed (W.monotonic s) none _)
    ]

    -- A wait that ends has run its loops one after the other: where it is asked to invert first, one for
    -- the predicate to be false, whose outcome is the precondition that it reports, and then, and else
    -- alone, one for it to be true, whose outcome is whether it is satisfied. Each loop probes, and sleeps
    -- after a probe that was not as wanted and ended before the deadline; it is met exactly if its last
    -- probe was as wanted, and given up only once the timeout has passed. The time that is reported is that
    -- from the start to the end, to the nearest tenth of a second, and the even one of two.
    pub wait_for_outcome :
        (fuel : ℕ) (s : W.State) {r : WaitResult} {s' : W.State}
        → wait_for W settings fuel s ≡ (some r, s')
        → Reports s r s'
    wait_for_outcome fuel s h =
        let loops =
          subst (OfResult (LoopsOf settings.invert_first (W.monotonic s) s)) h
            (wait_for-LoopsOf fuel s) in
        let (named, timed) =
          subst (OfResult (IsTimed (W.monotonic s))) h (wait_for-IsTimed fuel s) in
        (named, loops, timed)

-- The clock does not go back in a probe, and a sleep takes the time it is given.
pub record IsClock (W : Watch) : Type 0 where
  pub probe_keeps : (s : W.State) → W.monotonic s ≤ W.monotonic (W.probe s).1
  pub sleep_takes : (d : ℕ) (s : W.State) → W.monotonic s + d ≤ W.monotonic (W.sleep d s)

module _ (W : Watch) (clock : IsClock W) (interval deadline : ℕ) (waits : 1 ≤ interval)
    (goal : Bool) where
  probe_ends :
      (rest : W.State → Option Bool × W.State) (out : Bool × W.State)
      → (leb deadline (W.monotonic out.1) ≡ false
          → is_some (rest (W.sleep interval out.1)).0 ≡ true)
      → is_some (after_probe W interval deadline goal rest out).0 ≡ true
  probe_ends rest (seen, t) more = elim (Bool-cases (same goal seen)) [
    | inl found ↦ rw found refl
    | inr other ↦ elim (Bool-cases (leb deadline (W.monotonic t))) [
      | inl late ↦ rw (other, late) refl
      | inr early ↦ rw (other, early) (more early)
    ]
  ]

  probe_moves_on :
      (rest : W.State → Option Bool × W.State) (out : Bool × W.State)
      → ((u : W.State) → W.monotonic u ≤ W.monotonic (rest u).1)
      → W.monotonic out.1 ≤ W.monotonic (after_probe W interval deadline goal rest out).1
  probe_moves_on rest (seen, t) more = elim (Bool-cases (same goal seen)) [
    | inl found ↦ rw found (omega arith)
    | inr other ↦ elim (Bool-cases (leb deadline (W.monotonic t))) [
      | inl late ↦ rw (other, late) (omega arith)
      | inr early ↦
          rw (other, early) (omega (arith, clock.sleep_takes interval t, more (W.sleep interval t)))
    ]
  ]

  until_moves_on :
      (n : ℕ) (s : W.State)
      → W.monotonic s ≤ W.monotonic (probe_until W interval deadline goal n s).1
  unfolding probe_until
  until_moves_on zero s = omega arith
  until_moves_on (suc n) s = omega (
    arith,
    clock.probe_keeps s,
    probe_moves_on (probe_until W interval deadline goal n) (W.probe s) (until_moves_on n),
  )

  until_ends :
      (n : ℕ) (s : W.State)
      → deadline ≤ W.monotonic s + n
      → is_some (probe_until W interval deadline goal (suc n) s).0 ≡ true
  unfolding probe_until
  until_ends zero s enough =
      probe_ends (probe_until W interval deadline goal 0) (W.probe s)
        (λ early. ground (arith, clock.probe_keeps s))
  until_ends (suc n) s enough =
      probe_ends (probe_until W interval deadline goal (suc n)) (W.probe s) (λ early.
        until_ends n (W.sleep interval (W.probe s).1) (
          omega
            (arith, clock.probe_keeps s, clock.sleep_takes interval (W.probe s).1, enough, waits)))

module _ (W : Watch) (clock : IsClock W) (settings : Settings) (waits : 1 ≤ settings.interval) where
  report_ends :
      (start : ℕ) (met : Option Bool) (out : Option Bool × W.State)
      → is_some out.0 ≡ true
      → is_some (report W settings start met out).0 ≡ true
  report_ends start met (none, t) h = h
  report_ends start met (some b, t) h = refl

  then_wait_ends :
      (start : ℕ) (out : Option Bool × W.State)
      → is_some out.0 ≡ true
      → start ≤ W.monotonic out.1
      → is_some (then_wait W settings (suc settings.timeout) start out).0 ≡ true
  then_wait_ends start (none, t) h later = h
  then_wait_ends start (some met, t) h later = report_ends start (some met) _ (
      until_ends W clock settings.interval (start + settings.timeout) waits true settings.timeout t
        (omega arith))

  -- With an interval of at least a millisecond, each loop of a wait ends within `timeout + 1` probes, whatever
  -- the predicate does, on a clock that a probe does not turn back and that a sleep moves on.
  pub wait_for_terminates :
      (s : W.State) → is_some (wait_for W settings (suc settings.timeout) s).0 ≡ true
  unfolding wait_for
  wait_for_terminates s =
      let start = W.monotonic s in
      let ends = λ (goal : Bool).
        until_ends W clock settings.interval (start + settings.timeout) waits goal settings.timeout
          s (omega arith) in
      elim (Bool-cases settings.invert_first) [
        | inl asked ↦ rw asked (
            then_wait_ends start _ (ends false) (
              until_moves_on W clock settings.interval (start + settings.timeout) waits false
                (suc settings.timeout) s))
        | inr plain ↦ rw plain (report_ends start none _ (ends true))
      ]
