-- ===== src/Ntp/Confirmed.antt =====
-- redfish_ctl/manager/cmd_ntp_set.py: NtpSet.execute with --confirm.
use redfish_ctl.Common.{
  ◌⊎◌, String, ◌<>◌, ◌≡◌, ◌↔◌, refl, sym, ap, Bool, true, false, Option, none, some, List, [], ◌∷◌,
  arith, is_some, all, if◌then◌else◌,
}
use mathlib.Core.Path.{subst}
use redfish_ctl.Common.Effect.{ok, Exec, pure, lift, ◌>>=◌, bind-eq-ok, ok_inj, ok_inj}
use redfish_ctl.Json.{Json, to_text}
use redfish_ctl.Http.{Response, Exn, Transport, patch, redfish}
use redfish_ctl.Http.Error.{parse_error}
use redfish_ctl.Common.Effect.Safe.{Holds}
use redfish_ctl.Http.Status.{base_patch, default_post_success}
use redfish_ctl.Http.Status.Laws.{Accepts, Rejects, base_patch_outcome}
use redfish_ctl.Ntp.{Servers, normalize_ntp_servers}
use redfish_ctl.Ntp.Plan.{PlanItem, Skipped, ntp_plan}
use redfish_ctl.Ntp.Apply.{
  Applied, NtpResult, done, failures, overall_error, applied_item, apply_all, carry_out, execute,
}

abbrev pub is_applied : Applied → Bool
is_applied a = if is_some a.error then false else true

failures_none : (applied : List Applied) → (failures applied ≡ []) ↔ (all is_applied applied ≡ true)
failures_none [] = (λ h. refl, λ h. refl)
failures_none (a ∷ applied) = ground (arith, failures_none applied)

overall_error_lem :
    (repr : String → String) (is_ip_address : String → Bool) (applied : List Applied)
    → (overall_error repr is_ip_address applied ≡ none) ↔ (all is_applied applied ≡ true)
unfolding overall_error
overall_error_lem repr is_ip_address applied = by_failures (failures applied) refl
  where
    by_failures :
        (fs : List Applied)
        → failures applied ≡ fs
        → (overall_error repr is_ip_address applied ≡ none) ↔ (all is_applied applied ≡ true)
    by_failures [] h = (λ _. (failures_none applied).0 h, λ _. rw h refl)
    by_failures (f ∷ fs) h = (
      λ e. absurd (ground (arith, rw h at e)),
      λ e. absurd (ground (arith, (failures_none applied).1 e)),
    )

module _ (repr : String → String) (is_ip_address : String → Bool) (T : Transport) (origin : String)
    (query : String → Exec T.State Exn Json) (discover : Exec T.State Exn (List String)) where
  -- One PATCH for each item of a plan, in order and each answered, and for each what is reported of its
  -- answer: that it was accepted, or refused with the error that the answer gives.
  abbrev pub Reported : List PlanItem → List Applied → T.State → T.State → Type 0
  Reported [] [] s s' = s' ≡ s
  Reported [] (a ∷ applied) s s' = ⊥
  Reported (item ∷ plan) [] s s' = ⊥
  Reported (item ∷ plan) (a ∷ applied) s s' =
      (r : Response) × (t : T.State) × (T.send patch (origin <> to_text repr item.target)
          (some item.payload) s
        ≡ (ok r, t))
      × (a.manager ≡ item.manager)
      × (a.target ≡ item.target)
      × (default_post_success repr r 0 ≡ ok a.status)
      × ((a.error ≡ none) × Accepts r 0
          ⊎ (a.error ≡ some (redfish (parse_error repr r))) × Rejects r)
      × Reported plan applied t s'

  apply_all-Reported :
      (plan : List PlanItem) (applied : List Applied) (s s' : T.State)
      → apply_all repr is_ip_address T origin query discover plan s ≡ (ok applied, s')
      → Reported plan applied s s'
  unfolding apply_all
  apply_all-Reported [] applied s s' h =
      subst (λ p. Holds (λ as_. Reported [] as_ s p.1) p.0) h refl
  apply_all-Reported (item ∷ plan) applied s s' h =
      let (answer, t, e, h1) =
        bind-eq-ok (base_patch repr T origin (to_text repr item.target) item.payload)
          (λ answer. apply_all repr is_ip_address T origin query discover plan >>= λ rest.
            pure (applied_item repr is_ip_address T origin query discover item answer ∷ rest))
          s h in
      let (rest, u, e1, h2) =
        bind-eq-ok (apply_all repr is_ip_address T origin query discover plan)
          (λ rest.
            pure (applied_item repr is_ip_address T origin query discover item answer ∷ rest))
          t h1 in
      let (r, called, status, outcome) =
        base_patch_outcome repr T origin (to_text repr item.target) item.payload s t answer.0
          answer.1 e in
      subst (λ p. Holds (λ as_. Reported (item ∷ plan) as_ s p.1) p.0) h2
        (r, t, called, refl, refl, status, outcome, apply_all-Reported plan rest t u e1)

  -- What a confirmed run that returns has done, from the state `s` to the state `s'`.
  abbrev pub Done : Servers → Option String → Bool → NtpResult → T.State → T.State → Type 0
  Done servers manager_id clear r s s' =
      (normalized : List String) × (plan : List PlanItem) × (skipped : List Skipped)
      × (applied : List Applied) × (error : Option String) × (t : T.State) × (normalize_ntp_servers
            repr is_ip_address servers clear
          ≡ ok normalized)
      × (ntp_plan repr query normalized discover manager_id s ≡ (ok (plan, skipped), t))
      × (r ≡ done normalized applied skipped error)
      × Reported plan applied t s'
      × ((error ≡ none) ↔ (all is_applied applied ≡ true))

  -- With confirm, a run of ntp-set that returns has sent exactly one PATCH for each item of its plan, in
  -- the plan's order and with the item's payload. It reports each with the status of its answer, with no
  -- error where the answer accepts the change, and with the error of the answer where it refuses it; and it
  -- reports an error of its own exactly if one of them was refused.
  pub ntp_confirmed :
      (servers : Servers) (manager_id : Option String) (clear : Bool) (r : NtpResult)
      (s s' : T.State)
      → execute repr is_ip_address T origin query discover servers manager_id clear true s
        ≡ (ok r, s')
      → Done servers manager_id clear r s s'
  unfolding execute carry_out
  ntp_confirmed servers manager_id clear r s s' h =
      let (normalized, s1, e1, h1) =
        bind-eq-ok (lift (normalize_ntp_servers repr is_ip_address servers clear))
          (λ normalized.
            ntp_plan repr query normalized discover manager_id
            >>= carry_out repr is_ip_address T origin query discover normalized true)
          s h in
      let ((plan, skipped), t, e2, h2) =
        bind-eq-ok (ntp_plan repr query normalized discover manager_id)
          (carry_out repr is_ip_address T origin query discover normalized true) s1 h1 in
      let (applied, t', e3, h3) =
        bind-eq-ok (apply_all repr is_ip_address T origin query discover plan)
          (λ applied.
            pure (done normalized applied skipped (overall_error repr is_ip_address applied)))
          t h2 in
      let reported = apply_all-Reported plan applied t t' e3 in
      let start : s ≡ s1 = ap (λ p. p.1) e1 in
      (
        normalized,
        plan,
        skipped,
        applied,
        overall_error repr is_ip_address applied,
        t,
        ap (λ p. p.0) e1,
        subst (λ x. ntp_plan repr query normalized discover manager_id x ≡ (ok (plan, skipped), t))
            (sym start) e2,
        sym (ok_inj (ap (λ p. p.0) h3)),
        subst (Reported plan applied t) (ap (λ p. p.1) h3) reported,
        overall_error_lem repr is_ip_address applied,
      )
