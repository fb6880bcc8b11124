-- ===== src/Wait/Loops.antt =====
-- What one loop of wait_for does.
use redfish_ctl.Common.{
  ℕ, zero, suc, ◌+◌, ◌*◌, ◌%◌, ◌≤◌, ◌<◌, ◌≡◌, inl, inr, refl, Bool, false, Option, none, some,
  arith, leb, Bool-cases,
}
use redfish_ctl.Wait.{Watch, round_tenths, same, probe_until}

-- What holds of a pair's parts holds of those of an equal one.
abbrev pub OfResult {ℓ} : {S R : Type ℓ} → (R → S → Type ℓ) → Option R × S → Type ℓ
OfResult P (none, t) = Unit
OfResult P (some r, t) = P r t

pub round_tenths_near :
    (t : ℕ)
    → (round_tenths t * 100 ≤ t + 50)
      × (t ≤ round_tenths t * 100 + 50)
      × (t % 100 ≡ 50 → round_tenths t % 2 ≡ 0)
round_tenths_near t = ground arith

module _ (W : Watch) where
  -- The probes of a loop with a sleep after each, none of which was as the goal says or came to an end
  -- after the deadline.
  pub data Polls (interval deadline : ℕ) (goal : Bool) : W.State → W.State → Type 0 where
    none_yet : (s : W.State) → Polls interval deadline goal s s
    one_more :
        (s t : W.State)
        → same goal (W.probe s).0 ≡ false
        → W.monotonic (W.probe s).1 < deadline
        → Polls interval deadline goal (W.sleep interval (W.probe s).1) t
        → Polls interval deadline goal s t

  -- A whole loop from `s` to `s'`: its last probe gave what it waited for, or another after the deadline.
  abbrev pub Loop : ℕ → ℕ → Bool → W.State → Bool → W.State → Type 0
  Loop interval deadline goal s met s' =
      (t : W.State) × Polls interval deadline goal s t
      × (s' ≡ (W.probe t).1)
      × (same goal (W.probe t).0 ≡ met)
      × (met ≡ false → deadline ≤ W.monotonic s')

  -- A loop, if it has come to an end.
  abbrev pub LoopOf : ℕ → ℕ → Bool → W.State → Option Bool × W.State → Type 0
  LoopOf interval deadline goal s out = OfResult (Loop interval deadline goal s) out

  before_loop :
      (interval deadline : ℕ) (goal : Bool) (s : W.State) (out : Option Bool × W.State)
      → same goal (W.probe s).0 ≡ false
      → W.monotonic (W.probe s).1 < deadline
      → LoopOf interval deadline goal (W.sleep interval (W.probe s).1) out
      → LoopOf interval deadline goal s out
  before_loop interval deadline goal s (none, s') other early loop = tt
  before_loop interval deadline goal s (some met, s') other early (t, polls, last, seen, late) =
      (t, one_more s t other early polls, last, seen, late)

  pub probe_until-LoopOf :
      (interval deadline : ℕ) (goal : Bool) (n : ℕ) (s : W.State)
      → LoopOf interval deadline goal s (probe_until W interval deadline goal n s)
  unfolding probe_until
  probe_until-LoopOf interval deadline goal zero s = tt
  probe_until-LoopOf interval deadline goal (suc n) s =
      elim (Bool-cases (same goal (W.probe s).0)) [
        | inl found ↦ rw found (s, none_yet s, refl, found, λ no. absurd cc)
        | inr other ↦ elim (Bool-cases (leb deadline (W.monotonic (W.probe s).1))) [
          | inl late ↦ rw (other, late) (s, none_yet s, refl, other, λ no. ground arith)
          | inr early ↦
              rw (other, early)
                (before_loop interval deadline goal s _ other (ground arith)
                  (probe_until-LoopOf interval deadline goal n (W.sleep interval (W.probe s).1)))
        ]
      ]
