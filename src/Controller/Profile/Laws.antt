-- ===== src/Controller/Profile/Laws.antt =====
-- Laws of build_status, reconcile_profile and the handler of node profiles.
use text.Mathlib.TextPositions.{eq_refl}
use redfish_ctl.Common.{
  String, ◌≡◌, ◌≢◌, eq_iff, ◌⊎◌, inl, inr, refl, Bool, true, false, Option, none, some, List, arith,
  is_some, Bool-cases, if◌then◌else◌,
}
use redfish_ctl.Common.Dict.{Dict}
use redfish_ctl.Common.Effect.{Result, ok, raised, Exec, pure, lift, ◌>>=◌, bind-eq-ok}
use redfish_ctl.Common.Effect.Safe.{Safe}
use redfish_ctl.Common.Text.{is_empty}
use redfish_ctl.Json.{Json, get, mapping, truthy}
use redfish_ctl.Reconcile.Desired.{ReconcileError}
use redfish_ctl.Reconcile.Request.{Request, SyncInvoker}
use redfish_ctl.Reconcile.Plan.{ReconcileStep, ReconcileResult, reconcile_mapping}
use redfish_ctl.Reconcile.Plan.Contract.{plans_only}
use redfish_ctl.Reconcile.Plan.Laws.{reconcile_mapping_dry_run}
use redfish_ctl.Controller.Status.{
  Status, plan_hash, required_steps, truthy_text, same_hash, build_status,
}
use redfish_ctl.Controller.Status.Hash.{
  IsRequiredPart, HashOf, required_steps-IsRequiredPart, plan_hash_cases, plan_hash-HashOf,
}
use redfish_ctl.Controller.Profile.{
  is_approved, endpoint_spec, decide, plan_and_decide, for_endpoint, plan_flags, apply_flags,
  reconcile_profile, hash_text, handle_profile, settle,
}

module _ (digest : List ReconcileStep → String) where
  -- The hash that the status of a plan offers for approval.
  abbrev pub offered : ReconcileResult → Option String
  offered plan = let h = plan_hash digest plan.steps in if truthy_text h then h else none

  -- Over digests that are not empty, the status of a plan reports drift exactly if it offers a hash to
  -- approve: the digest of those of the steps that are required, in order, and of no other.
  pub build_status_drift :
      ((steps : List ReconcileStep) → is_empty (digest steps) ≡ false)
      → (plan : ReconcileResult) (approved : Bool) (approved_hash consumed : Option String)
        (at : String)
      → let st =
          build_status digest plan approved
            (record { approved_plan = approved_hash; plan_value = none; consumed_plan = consumed })
            at in
        (st.drift ≡ some (is_some st.plan_hash))
        × (required : List ReconcileStep) × IsRequiredPart required plan.steps
        × HashOf digest required st.plan_hash
  unfolding build_status
  build_status_drift nonempty plan approved approved_hash consumed at =
      let part = required_steps-IsRequiredPart plan.steps in
      let hashed = plan_hash-HashOf digest plan.steps in
      elim (plan_hash_cases digest nonempty plan.steps) [
        | inl (e, f) ↦ (rw (e, f) refl, required_steps plan.steps, part, rw e (rw e at hashed))
        | inr (h, e, f, g) ↦
            (rw (e, g, f) refl, required_steps plan.steps, part, rw (e, f) (rw e at hashed))
      ]

  consumed_applied :
      (result : ReconcileResult) (approved h : Option String) (at : String)
      → truthy_text h ≡ true
      → (build_status digest result true
          (record { approved_plan = approved; plan_value = h; consumed_plan = h })
          at).consumed_plan_hash
        ≡ h
  unfolding build_status
  consumed_applied result approved h at t = rw (t, t, t) refl

-- A hash is current, approved as it is, and not consumed.
abbrev pub Approval : Option String → Option String → Option String → Type 0
Approval current approved consumed =
    (h : String) × (current ≡ some h) × (approved ≡ some h) × (consumed ≢ some h)

is_approved-Approval :
    (current approved consumed : Option String)
    → is_approved current approved consumed ≡ true
    → Approval current approved consumed
unfolding is_approved
is_approved-Approval none approved consumed may = ground arith
is_approved-Approval (some h) none consumed may = ground arith
is_approved-Approval (some h) (some a) none may =
    (h, refl, ground (arith, eq_iff a h), ground arith)
is_approved-Approval (some h) (some a) (some c) may =
    (h, refl, ground (arith, eq_iff a h), ground (arith, eq_iff c h))

same_hash_refl : (h : Option String) → same_hash h h ≡ true
same_hash_refl none = refl
same_hash_refl (some t) = eq_refl t

consumed_blocks : (h approved : Option String) → is_approved h approved h ≡ false
unfolding is_approved
consumed_blocks h approved = ground (arith, same_hash_refl h)

approved_truthy :
    (h approved consumed : Option String)
    → is_approved h approved consumed ≡ true
    → truthy_text h ≡ true
unfolding is_approved
approved_truthy h approved consumed may = ground arith

module _ (repr : String → String) (digest : List ReconcileStep → String) (M : SyncInvoker)
    (make_manager : Dict Json → Result ReconcileError (Unit {0})) where
  -- The plan that a profile's desired state yields.
  abbrev pub planned : Dict Json → Exec M.State ReconcileError ReconcileResult
  planned spec = reconcile_mapping repr M (mapping (get spec "desiredState")) plan_flags

  module _ (P : M.State → Type 0)
      (keeps : (r : Request) → plans_only r ≡ true → Safe P (λ reply. Unit) (M.sync_invoke r)) where
    planned_keeps : (spec : Dict Json) (s : M.State) → P s → P (planned spec s).1
    planned_keeps spec s p =
        reconcile_mapping_dry_run repr M (mapping (get spec "desiredState")) plan_flags P s refl
          keeps p

    decide_guard :
        (spec : Dict Json) (approved consumed : Option String) (at : String)
        (plan : ReconcileResult) (s : M.State)
        → P s
        → P (decide repr digest M make_manager spec approved consumed at plan s).1
          ⊎ (is_approved (offered digest plan) approved consumed ≡ true)
    unfolding decide build_status
    decide_guard spec approved consumed at plan s p =
        elim (Bool-cases (is_approved (offered digest plan) approved consumed)) [
          | inl may ↦ inr may
          | inr held ↦ inl (rw held p)
        ]

    -- The run's own plan offered a hash that is approved and not consumed.
    abbrev pub Approves : Dict Json → Dict Json → Result ReconcileError ReconcileResult → Type 0
    Approves spec status made =
        (plan : ReconcileResult) × (made ≡ ok plan)
        × Approval (offered digest plan) (hash_text repr (get spec "approvedPlanHash"))
            (hash_text repr (get status "consumedPlanHash"))

    decide_all :
        (spec status : Dict Json) (at : String) (made : Result ReconcileError ReconcileResult)
        (s : M.State)
        → P s
        → P
            ((lift made
                >>= decide repr digest M make_manager spec
                    (hash_text repr (get spec "approvedPlanHash"))
                    (hash_text repr (get status "consumedPlanHash"))
                    at)
              s).1
          ⊎ Approves spec status made
    decide_all spec status at (raised e) s p = inl p
    decide_all spec status at (ok plan) s p = elim (decide_guard spec _ _ at plan s p) [
      | inl kept ↦ inl kept
      | inr may ↦ inr (plan, refl, is_approved-Approval (offered digest plan) _ _ may)
    ]

    made_guard :
        (spec status : Dict Json) (at : String) (made : Result ReconcileError (Unit {0}))
        (s : M.State)
        → P s
        → P ((lift made >>= λ _. plan_and_decide repr digest M make_manager spec status at) s).1
          ⊎ Approves spec status (planned spec s).0
    unfolding plan_and_decide
    made_guard spec status at (raised e) s p = inl p
    made_guard spec status at (ok _) s p =
        decide_all spec status at (planned spec s).0 (planned spec s).1 (planned_keeps spec s p)

    endpoint_guard :
        (spec status : Dict Json) (at : String) (found : Result ReconcileError (Dict Json))
        (s : M.State)
        → P s
        → P ((lift found >>= for_endpoint repr digest M make_manager spec status at) s).1
          ⊎ Approves spec status (planned spec s).0
    unfolding for_endpoint
    endpoint_guard spec status at (raised e) s p = inl p
    endpoint_guard spec status at (ok endpoint) s p =
        made_guard spec status at (make_manager endpoint) s p

    reconcile_profile_guard :
        (spec status : Dict Json) (at : String) (s : M.State)
        → P s
        → P (reconcile_profile repr digest M make_manager spec status at s).1
          ⊎ Approves spec status (planned spec s).0
    unfolding reconcile_profile
    reconcile_profile_guard spec status at s p =
        endpoint_guard spec status at (endpoint_spec spec) s p

    settle_state :
        (at : String) (p : Result ReconcileError Status × M.State)
        → (settle repr digest M make_manager at p).1 ≡ p.1
    settle_state at (ok st, s) = refl
    settle_state at (raised e, s) = refl

    -- Whatever property the planning commands keep is kept by the handling of a profile, whatever
    -- fails in it, unless the run's own plan offered the hash that the spec approves and that the
    -- status has not consumed.
    pub handle_profile_guard :
        (credentials : Result ReconcileError (Unit {0})) (spec status : Dict Json) (at : String)
        (s : M.State)
        → P s
        → P (handle_profile repr digest M make_manager credentials spec status at s).1
          ⊎ Approves spec status (planned spec s).0
    unfolding handle_profile
    handle_profile_guard (raised e) spec status at s p = inl p
    handle_profile_guard (ok _) spec status at s p =
        rw (settle_state at (reconcile_profile repr digest M make_manager spec status at s))
          (reconcile_profile_guard spec status at s p)

  decide_consumes :
      (spec : Dict Json) (approved consumed : Option String) (at : String) (plan : ReconcileResult)
      (s : M.State) {s' : M.State} {st : Status}
      → is_approved (offered digest plan) approved consumed ≡ true
      → decide repr digest M make_manager spec approved consumed at plan s ≡ (ok st, s')
      → st.consumed_plan_hash ≡ offered digest plan
  unfolding decide build_status
  decide_consumes spec approved consumed at plan s may done =
      let (result, t, called, last) =
        bind-eq-ok
          (reconcile_mapping repr M (mapping (get spec "desiredState"))
            (apply_flags (truthy (get spec "waitForReboot"))))
          (λ result. pure (
            build_status digest result true
              (record {
                approved_plan = approved;
                plan_value = offered digest plan;
                consumed_plan = offered digest plan;
              })
              at))
          s (rw may at done) in
      cc (
        consumed_applied digest result approved (offered digest plan) at
            (approved_truthy _ approved consumed may),
        last,
      )

  -- A run that applied its plan records the plan's hash as consumed: any later plan of that hash is
  -- not approved against the new status, whatever the spec approves then.
  pub decide_once :
      (spec : Dict Json) (approved consumed : Option String) (at : String) (plan : ReconcileResult)
      (s : M.State) {s' : M.State} {st : Status}
      → is_approved (offered digest plan) approved consumed ≡ true
      → decide repr digest M make_manager spec approved consumed at plan s ≡ (ok st, s')
      → (later : ReconcileResult) (approved' : Option String)
      → offered digest later ≡ offered digest plan
      → is_approved (offered digest later) approved' st.consumed_plan_hash ≡ false
  decide_once spec approved consumed at plan s may done later approved' same =
      rw (decide_consumes spec approved consumed at plan s may done, same)
        (consumed_blocks (offered digest plan) approved')
