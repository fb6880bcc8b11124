-- ===== src/Reconcile/Plan/Contract.antt =====
-- What a reconciliation promises: the commands that only plan, the areas of a desired state, and which
-- changes are justified by a plan.
use redfish_ctl.Common.{
  String, ◌≡◌, refl, Bool, true, false, not, ◌&&◌, ◌||◌, List, [], ◌∷◌, ◌++◌, ◌==◌, arith, all, any,
  if◌then◌else◌,
}
use redfish_ctl.Json.{Json, str, bool, truthy, get}
use redfish_ctl.Common.Dict.{lookup}
use redfish_ctl.Reconcile.Desired.{DesiredState}
use redfish_ctl.Reconcile.Match.{is_set}
use redfish_ctl.Reconcile.Request.{ApiRequestType, Request}
use redfish_ctl.Reconcile.Plan.{ReconcileStep, AppliedChange, ReconcileResult, Entries, is_nonempty}

abbrev is_false : Json → Bool
is_false (bool false) = true
is_false v = false

abbrev is_diff : Json → Bool
is_diff (str s) = s == "diff"
is_diff v = false

-- The commands that change nothing on the node: reads, a diff, an unconfirmed NTP change, a dry-run reset.
unfoldable pub plans_only : Request → Bool
unfolding lookup get
plans_only r = elim r.api_call [
  | ApiRequestType.bios_profile ↦ is_diff (get r.kwargs "action")
  | ApiRequestType.manager_network_protocol ↦ true
  | ApiRequestType.ntp_set ↦ is_false (get r.kwargs "confirm")
  | ApiRequestType.current_boot ↦ true
  | ApiRequestType.boot_one_shot ↦ false
  | ApiRequestType.computer_system_reset ↦ truthy (get r.kwargs "dry_run")
]

-- The areas that a desired state names, in the order in which they are reconciled.
abbrev pub wanted_kinds : DesiredState → List String
wanted_kinds state =
    (if is_set state.bios_profile then "bios-profile" ∷ [] else [])
    ++ ((if is_nonempty state.ntp_servers then "ntp" ∷ [] else [])
        ++ ((if is_set state.boot_device then "boot" ∷ [] else [])
            ++ (if is_set state.reset_type then "reboot" ∷ [] else [])))

abbrev pub kinds : List ReconcileStep → List String
kinds [] = []
kinds (s ∷ ss) = s.kind ∷ kinds ss

-- A step of this kind is in the plan and required.
abbrev pub has_required : String → List ReconcileStep → Bool
has_required k steps = any (λ s. s.required && (s.kind == k)) steps

-- A change that took effect answers a required step.
abbrev pub justified : List ReconcileStep → AppliedChange → Bool
justified steps c = not c.changed || has_required c.kind steps

-- What one part appends.
pub record IsPart (kind : String) (wanted confirm : Bool) (e : Entries) : Type 0 where
  pub one_step : kinds e.0 ≡ (if wanted then kind ∷ [] else [])
  pub answered : all (justified e.0) e.1 ≡ true
  pub planned : confirm ≡ false → e.1 ≡ []

has_required-append :
    (k : String) (xs ys : List ReconcileStep)
    → has_required k (xs ++ ys) ≡ (has_required k xs || has_required k ys)
has_required-append k [] ys = refl
has_required-append k (x ∷ xs) ys = ground (arith, has_required-append k xs ys)

justified_left :
    (xs ys : List ReconcileStep) (l : List AppliedChange)
    → all (justified xs) l ≡ true
    → all (justified (xs ++ ys)) l ≡ true
justified_left xs ys [] h = refl
justified_left xs ys (c ∷ l) h =
    ground (arith, has_required-append c.kind xs ys, justified_left xs ys l)

justified_right :
    (xs ys : List ReconcileStep) (l : List AppliedChange)
    → all (justified ys) l ≡ true
    → all (justified (xs ++ ys)) l ≡ true
justified_right xs ys [] h = refl
justified_right xs ys (c ∷ l) h =
    ground (arith, has_required-append c.kind xs ys, justified_right xs ys l)

all-append {ℓ} :
    {A : Type ℓ} (p : A → Bool) (xs ys : List A)
    → all p xs ≡ true
    → all p ys ≡ true
    → all p (xs ++ ys) ≡ true
all-append p [] ys h k = k
all-append p (x ∷ xs) ys h k = ground (arith, all-append p xs ys)

pub justified-append :
    (s t : List ReconcileStep) (a b : List AppliedChange)
    → all (justified s) a ≡ true
    → all (justified t) b ≡ true
    → all (justified (s ++ t)) (a ++ b) ≡ true
justified-append s t a b h k =
    all-append (justified (s ++ t)) a b (justified_left s t a h) (justified_right s t b k)

pub kinds-append : (s t : List ReconcileStep) → kinds (s ++ t) ≡ kinds s ++ kinds t
kinds-append [] t = refl
kinds-append (x ∷ s) t = cc (kinds-append s t)

-- What a reconciliation returns.
pub record IsPlanOf (state : DesiredState) (confirm : Bool) (r : ReconcileResult) : Type 0 where
  pub flagged : r.dry_run ≡ not confirm
  pub in_order : kinds r.steps ≡ wanted_kinds state
  pub answered : all (justified r.steps) r.applied ≡ true
  pub planned : confirm ≡ false → r.applied ≡ []
