-- ===== src/Action/Invoke/Done.antt =====
-- What the answer of `invoke_action` tells of the POST: an answer without an error that is not marked
-- as a dry run stands for one.
use mathlib.Core.Path.{subst}
use redfish_ctl.Common.{
  Option, String, ◌≡◌, inl, inr, refl, sym, ap, ◌∙◌, true, false, none, some, List, [], ◌∷◌,
  Bool-cases,
}
use redfish_ctl.Common.Dict.{Dict, lookup}
use redfish_ctl.Common.Effect.{Result, ok, raised, Exec, bind-lift-eq-ok, ok_inj}
use redfish_ctl.Json.{Json, mapping, truthy, get}
use redfish_ctl.Policy.{Destructiveness, classify}
use redfish_ctl.Http.{Exn, Transport}
use redfish_ctl.Action.{RedfishAction}
use redfish_ctl.Action.Discover.{discover_redfish_actions}
use redfish_ctl.Action.Validate.{ValidationError, validate_action_payload}
use redfish_ctl.Action.Gate.{Options, gate}
use redfish_ctl.Action.Report.{ActionResult, failed, not_found_result, first_error, dry_result}
use redfish_ctl.Action.Invoke.{
  document, perform, checked, resolved, on_resource, after_read, invoke_action,
}
use redfish_ctl.Action.Invoke.Guard.{
  permitted, gate-permitted, posted, perform-permitted, Fired, FiredOn,
}

unfoldable pub IsDone : ActionResult → Type 0
unfolding get
IsDone a = (a.result.error ≡ none) × (truthy (get (mapping a.result.data_of) "dry_run") ≡ false)

dry_result-IsDone :
    (full : String) (target : Json) (body : Dict Json) (level : Destructiveness)
    (blocked : Option String) (actions : Dict RedfishAction)
    → ¬ IsDone (dry_result full target body level blocked actions)
unfolding dry_result lookup get IsDone
dry_result-IsDone full target body level blocked actions (fine, wet) = cc

-- An answer with an error is not done.
failed-IsDone :
    (v : Json) (actions : Dict RedfishAction) (text : String) → ¬ IsDone (failed v actions text)
unfolding IsDone
failed-IsDone v actions text (fine, wet) = cc

not_found_result-IsDone :
    (uri wanted : String) (resource : Dict Json) (actions : Dict RedfishAction)
    → ¬ IsDone (not_found_result uri wanted resource actions)
unfolding IsDone not_found_result
not_found_result-IsDone uri wanted resource actions (fine, wet) = cc

module _ (repr : String → String) (schema : String → Dict (List String)) (T : Transport)
    (origin : String) (query : String → Exec T.State Exn Json) where
  perform-IsDone :
      (full : String) (target : Json) (body : Dict Json) (o : Options)
      (actions : Dict RedfishAction) (s : T.State) (a : ActionResult) (s' : T.State)
      → perform repr schema T origin query full target body o actions s ≡ (ok a, s')
      → IsDone a
      → (permitted (classify full) o ≡ true)
        × (s' ≡ posted repr schema T origin query target body s)
  unfolding perform
  perform-IsDone full target body o actions s a s' h done =
      elim (Bool-cases (permitted (classify full) o)) [
        | inl may ↦ (
          may,
          sym (ap (λ p. p.1) h)
              ∙ perform-permitted repr schema T origin query full target body o actions s may,
        )
        | inr held ↦
            let same = ok_inj (ap (λ p. p.0) (rw (gate-permitted, held) at h)) in
            absurd (
              dry_result-IsDone full target body (classify full) (gate (classify full) o).1 actions
                (subst IsDone (sym same) done))
      ]

  checked-IsDone :
      (full : String) (target : Json) (body : Dict Json) (o : Options)
      (actions : Dict RedfishAction) (errors : List ValidationError) (s : T.State)
      (a : ActionResult) (s' : T.State)
      → checked repr schema T origin query full target body o actions errors s ≡ (ok a, s')
      → IsDone a
      → (permitted (classify full) o ≡ true)
        × (s' ≡ posted repr schema T origin query target body s)
  unfolding checked
  checked-IsDone full target body o actions [] s a s' h done =
      perform-IsDone full target body o actions s a s' h done
  checked-IsDone full target body o actions (e ∷ es) s a s' h done =
      let (text, at, k) = bind-lift-eq-ok (first_error repr full e) _ s h in
      absurd (failed-IsDone _ actions text (subst IsDone (sym (ok_inj (ap (λ p. p.0) k))) done))

  resolved-IsDone :
      (uri action_name : String) (body : Dict Json) (o : Options) (resource : Dict Json)
      (actions : Dict RedfishAction) (wanted : String) (found : Option (String × Json))
      (s : T.State) (a : ActionResult) (s' : T.State)
      → resolved repr schema T origin query uri action_name body o resource actions wanted found s
        ≡ (ok a, s')
      → IsDone a
      → (full : String) × (target : Json) × (found ≡ some (full, target))
        × (permitted (classify full) o ≡ true)
        × (s' ≡ posted repr schema T origin query target body s)
  unfolding resolved
  resolved-IsDone uri action_name body o resource actions wanted none s a s' h done = absurd (
      not_found_result-IsDone uri wanted resource actions
        (subst IsDone (sym (ok_inj (ap (λ p. p.0) h))) done))
  resolved-IsDone uri action_name body o resource actions wanted (some (full, target)) s a s' h
        done =
      let (errors, at, k) =
        bind-lift-eq-ok (validate_action_payload schema full (lookup action_name actions) body) _ s
          h in
      let (may, sent) = checked-IsDone full target body o actions errors s a s' k done in
      (full, target, refl, may, sent)

  on_resource-IsDone :
      (uri action_name : String) (body : Dict Json) (full_action_type : String) (o : Options)
      (resource : Dict Json) (s : T.State) (a : ActionResult) (s' : T.State)
      → on_resource repr schema T origin query uri action_name body full_action_type o resource s
        ≡ (ok a, s')
      → IsDone a
      → FiredOn repr schema T origin query resource action_name body full_action_type o s s'
  unfolding on_resource
  on_resource-IsDone uri action_name body full_action_type o resource s a s' h done =
      let (actions, found, k) = bind-lift-eq-ok (discover_redfish_actions resource) _ s h in
      let (full, target, at, may, sent) =
        resolved-IsDone uri action_name body o resource actions _ _ s a s' k done in
      (actions, full, target, found, at, may, sent)

  after_read-IsDone :
      (uri action_name : String) (body : Dict Json) (full_action_type : String) (o : Options)
      (read : Result Exn Json) (s : T.State) (a : ActionResult) (s' : T.State)
      → after_read repr schema T origin query uri action_name body full_action_type o read s
        ≡ (ok a, s')
      → IsDone a
      → (v : Json) × (resource : Dict Json) × (read ≡ ok v)
        × (document v ≡ ok resource)
        × FiredOn repr schema T origin query resource action_name body full_action_type o s s'
  unfolding after_read IsDone
  after_read-IsDone uri action_name body full_action_type o (raised e) s a s' h done =
      let same = ap (λ r. r.result.error) (ok_inj (ap (λ p. p.0) h)) in absurd cc
  after_read-IsDone uri action_name body full_action_type o (ok v) s a s' h done =
      let (resource, at, k) = bind-lift-eq-ok (document v) _ s h in
      (
        v,
        resource,
        refl,
        at,
        on_resource-IsDone uri action_name body full_action_type o resource s a s' k done,
      )

  -- An answer of invoke_action that has no error and is not marked as a dry run stands for a POST:
  -- a permitted one, to the target that the resource names, with the payload given.
  pub invoke_action-IsDone :
      (uri action_name : String) (body : Dict Json) (full_action_type : String) (o : Options)
      (s : T.State) (a : ActionResult) (s' : T.State)
      → invoke_action repr schema T origin query uri action_name body full_action_type o s
        ≡ (ok a, s')
      → IsDone a
      → Fired repr schema T origin query uri action_name body full_action_type o s s'
  unfolding invoke_action
  invoke_action-IsDone uri action_name body full_action_type o s a s' h done =
      after_read-IsDone uri action_name body full_action_type o (query uri s).0 (query uri s).1 a s'
        h done
