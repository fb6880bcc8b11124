-- ===== src/Controller/Status.antt =====
-- k8s/controller/redfish_node_profile_controller.py: _condition, plan_hash, _approval_reason, build_status,
-- build_error_status.
pub mod Hash
use redfish_ctl.Common.{
  String, Bool, true, false, not, ◌&&◌, Option, none, some, List, [], ◌∷◌, any, ◌==◌, if◌then◌else◌,
}
use redfish_ctl.Common.Text.{is_empty}
use redfish_ctl.Reconcile.Plan.{ReconcileStep, AppliedChange, ReconcileResult}

-- `message` is "" where the source leaves the key out.
pub record Condition : Type 0 where
  pub type_name : String
  pub status : String
  pub reason : String
  pub message : String
  pub last_transition_time : String

-- The keys of the status dict. A key that is left out is `none`; so is a `drift` of None.
pub record Status : Type 0 where
  pub dry_run : Bool
  pub drift : Option Bool
  pub planned_steps : List ReconcileStep
  pub applied_changes : List AppliedChange
  pub conditions : List Condition
  pub last_reconciled : String
  pub plan_hash : Option String
  pub consumed_plan_hash : Option String

-- bool(text)
abbrev pub truthy_text : Option String → Bool
truthy_text none = false
truthy_text (some t) = not (is_empty t)

-- a or b
abbrev pub or_text : Option String → Option String → Option String
or_text a b = if truthy_text a then a else b

-- a == b
abbrev pub same_hash : Option String → Option String → Bool
same_hash none none = true
same_hash (some a) (some b) = a == b
same_hash a b = false

abbrev status_text : Option Bool → String
status_text (some true) = "True"
status_text (some false) = "False"
status_text none = "Unknown"

-- _condition; `at` is the formatted time.
unfoldable pub condition : String → Option Bool → String → String → String → Condition
condition type_name status reason message at = record {
  type_name = type_name;
  status = status_text status;
  reason = reason;
  message = message;
  last_transition_time = at;
}

unfoldable pub required_steps : List ReconcileStep → List ReconcileStep
required_steps [] = []
required_steps (s ∷ ss) = let rest = required_steps ss in if s.required then s ∷ rest else rest

-- _approval_reason
unfoldable pub approval_reason : Bool → Option String → Option String → Option String → String
approval_reason approved current approved_hash consumed =
    if approved
    then "Approved"
    else if truthy_text current && same_hash consumed current
    then "ApprovalConsumed"
    else if truthy_text approved_hash && not (same_hash approved_hash current)
    then "ApprovalHashMismatch"
    else "ApprovalRequired"

-- The hashes that a status is built with.
pub record Hashes : Type 0 where
  pub approved_plan : Option String
  pub plan_value : Option String
  pub consumed_plan : Option String

-- The SHA-256 digest of the steps' canonical JSON text.
module _ (digest : List ReconcileStep → String) where
  unfoldable pub hash_of : List ReconcileStep → Option String
  hash_of [] = none
  hash_of (s ∷ ss) = some (digest (s ∷ ss))

  -- plan_hash
  unfoldable pub plan_hash : List ReconcileStep → Option String
  unfolding hash_of required_steps
  plan_hash steps = hash_of (required_steps steps)

  abbrev applied_reason : Bool → Bool → String
  applied_reason changed approved =
      if changed then "Applied" else if approved then "NoChanges" else "DryRun"

  -- The key is set for a true hash only.
  abbrev kept : Option String → Option String
  kept h = if truthy_text h then h else none

  -- build_status
  unfoldable pub build_status : ReconcileResult → Bool → Hashes → String → Status
  unfolding plan_hash condition approval_reason
  build_status result approved hashes at =
      let current = or_text hashes.plan_value (plan_hash result.steps) in
      let consumed = if approved && truthy_text current then current else hashes.consumed_plan in
      let drift = any (λ s. s.required) result.steps in
      let changed = any (λ c. c.changed) result.applied in
      record {
        dry_run = result.dry_run;
        drift = some drift;
        planned_steps = result.steps;
        applied_changes = result.applied;
        conditions =
            condition "Approved" (some approved)
              (approval_reason approved current hashes.approved_plan hashes.consumed_plan) "" at
            ∷ condition "DriftDetected" (some drift)
                (if drift then "PlanRequiresChanges" else "InSync") "" at
            ∷ condition "Applied" (some (changed && approved)) (applied_reason changed approved) ""
                at
            ∷ condition "Ready" (some true) "ReconciliationSucceeded" "" at
            ∷ [];
        last_reconciled = at;
        plan_hash = kept current;
        consumed_plan_hash = kept consumed;
      }

-- build_error_status
unfoldable pub build_error_status : String → String → Status
unfolding condition
build_error_status message at = record {
  dry_run = true;
  drift = none;
  planned_steps = [];
  applied_changes = [];
  conditions =
      condition "ReconcileAvailable" (some false) "BackendUnavailable" message at
      ∷ condition "Ready" (some false) "BackendUnavailable" message at
      ∷ [];
  last_reconciled = at;
  plan_hash = none;
  consumed_plan_hash = none;
}
