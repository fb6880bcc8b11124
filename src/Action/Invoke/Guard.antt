-- ===== src/Action/Invoke/Guard.antt =====
-- The gate of `invoke_action`: what it sends, and when.
use redfish_ctl.Common.{
  String, ◌<>◌, ◌≡◌, ◌⊎◌, inl, inr, refl, ap, ◌∙◌, Bool, true, not, ◌&&◌, Option, none, some, List,
  [], ◌∷◌, arith, Bool-cases, if◌then◌else◌,
}
use redfish_ctl.Common.Dict.{Dict, lookup}
use redfish_ctl.Common.Text.{is_empty}
use redfish_ctl.Common.Effect.{Result, ok, raised, Exec, lift, bind-state, bind-lift_cases}
use redfish_ctl.Json.{Json, object, to_text}
use redfish_ctl.Policy.{Destructiveness, read_only, reversible, destructive, irreversible, classify}
use redfish_ctl.Http.{Exn, post, Transport}
use redfish_ctl.Http.Status.{base_post}
use redfish_ctl.Http.Status.Laws.{base_post-state}
use redfish_ctl.Action.{RedfishAction}
use redfish_ctl.Action.Discover.{discover_redfish_actions}
use redfish_ctl.Action.Validate.{ValidationError, validate_action_payload}
use redfish_ctl.Action.Gate.{Options, gate}
use redfish_ctl.Action.Report.{first_error}
use redfish_ctl.Action.Invoke.{
  document, resolve, perform, checked, resolved, on_resource, after_read, invoke_action,
}

-- When an action of a level may be sent, as the policy's description says.
abbrev pub permitted : Destructiveness → Options → Bool
permitted read_only o = not o.dry_run
permitted reversible o = not o.dry_run
permitted destructive o = not o.dry_run && o.confirm
permitted irreversible o = not o.dry_run && (o.confirm && o.confirm_irreversible)

-- The gate holds back exactly what the policy does not permit.
pub gate-permitted :
    (level : Destructiveness) (o : Options) → (gate level o).0 ≡ not (permitted level o)
unfolding gate
gate-permitted level o = ground arith

module _ (repr : String → String) (schema : String → Dict (List String)) (T : Transport)
    (origin : String) (query : String → Exec T.State Exn Json) where
  -- The state after the one POST of an action.
  abbrev pub posted : Json → Dict Json → T.State → T.State
  posted target body s = (T.send post (origin <> to_text repr target) (some (object body)) s).1

  -- A call that sent nothing, or sent one POST that its level permits.
  abbrev Guarded : String → Json → Dict Json → Options → T.State → T.State → Type 0
  Guarded full target body o s s' =
      (s' ≡ s) ⊎ ((permitted (classify full) o ≡ true) × (s' ≡ posted target body s))

  pub perform-permitted :
      (full : String) (target : Json) (body : Dict Json) (o : Options)
      (actions : Dict RedfishAction) (s : T.State)
      → permitted (classify full) o ≡ true
      → (perform repr schema T origin query full target body o actions s).1 ≡ posted target body s
  unfolding perform
  perform-permitted full target body o actions s may =
      rw (gate-permitted, may)
        (bind-state (base_post repr T origin (to_text repr target) (object body)) _ s (λ a t. refl)
          ∙ base_post-state repr T origin (to_text repr target) (object body) s)

  perform_guard :
      (full : String) (target : Json) (body : Dict Json) (o : Options)
      (actions : Dict RedfishAction) (s : T.State)
      → Guarded full target body o s
          (perform repr schema T origin query full target body o actions s).1
  unfolding perform
  perform_guard full target body o actions s = elim (Bool-cases (permitted (classify full) o)) [
    | inl may ↦ inr (may, perform-permitted full target body o actions s may)
    | inr held ↦ inl (rw (gate-permitted, held) refl)
  ]

  checked_guard :
      (full : String) (target : Json) (body : Dict Json) (o : Options)
      (actions : Dict RedfishAction) (errors : List ValidationError) (s : T.State)
      → Guarded full target body o s
          (checked repr schema T origin query full target body o actions errors s).1
  unfolding checked
  checked_guard full target body o actions [] s = perform_guard full target body o actions s
  checked_guard full target body o actions (e ∷ es) s =
      inl (bind-state (lift (first_error repr full e)) _ s (λ a t. refl))

  -- The POST of a resource's action: a permitted one, to the target that the resource names.
  abbrev pub FiredOn :
      Dict Json → String → Dict Json → String → Options → T.State → T.State → Type 0
  FiredOn resource action_name body full_action_type o s s' =
      (actions : Dict RedfishAction) × (full : String) × (target : Json) × (discover_redfish_actions
          resource
        ≡ ok actions)
      × (resolve resource actions action_name full_action_type ≡ some (full, target))
      × (permitted (classify full) o ≡ true)
      × (s' ≡ posted target body s)

  resolved_guard :
      (uri action_name : String) (body : Dict Json) (o : Options) (resource : Dict Json)
      (actions : Dict RedfishAction) (wanted : String) (found : Option (String × Json))
      (s : T.State)
      → ((resolved repr schema T origin query uri action_name body o resource actions wanted found
            s).1
          ≡ s)
        ⊎ ((full : String) × (target : Json) × (found ≡ some (full, target))
            × (permitted (classify full) o ≡ true)
            × ((resolved repr schema T origin query uri action_name body o resource actions wanted
                  found s).1
                ≡ posted target body s))
  unfolding resolved
  resolved_guard uri action_name body o resource actions wanted none s = inl refl
  resolved_guard uri action_name body o resource actions wanted (some (full, target)) s =
      elim (bind-lift_cases (validate_action_payload schema full (lookup action_name actions) body)
        (checked repr schema T origin query full target body o actions) s) [
          | inl (errors, _, e) ↦ elim (checked_guard full target body o actions errors s) [
            | inl same ↦ inl (ap (λ p. p.1) e ∙ same)
            | inr (may, sent) ↦ inr (full, target, refl, may, ap (λ p. p.1) e ∙ sent)
          ]
          | inr same ↦ inl same
        ]

  on_resource_guard :
      (uri action_name : String) (body : Dict Json) (full_action_type : String) (o : Options)
      (resource : Dict Json) (s : T.State)
      → ((on_resource repr schema T origin query uri action_name body full_action_type o resource
            s).1
          ≡ s)
        ⊎ FiredOn resource action_name body full_action_type o s
            (on_resource repr schema T origin query uri action_name body full_action_type o resource
              s).1
  unfolding on_resource
  on_resource_guard uri action_name body full_action_type o resource s =
      elim (bind-lift_cases (discover_redfish_actions resource)
        (λ actions.
          resolved repr schema T origin query uri action_name body o resource actions
            (if is_empty full_action_type then action_name else full_action_type)
            (resolve resource actions action_name full_action_type))
        s) [
          | inl (actions, found, e) ↦
              elim (resolved_guard uri action_name body o resource actions _ _ s) [
                | inl same ↦ inl (ap (λ p. p.1) e ∙ same)
                | inr (full, target, at, may, sent) ↦
                    inr (actions, full, target, found, at, may, ap (λ p. p.1) e ∙ sent)
              ]
          | inr same ↦ inl same
        ]

  after_read_guard :
      (uri action_name : String) (body : Dict Json) (full_action_type : String) (o : Options)
      (read : Result Exn Json) (s : T.State)
      → ((after_read repr schema T origin query uri action_name body full_action_type o read s).1
          ≡ s)
        ⊎ ((v : Json) × (resource : Dict Json) × (read ≡ ok v)
            × (document v ≡ ok resource)
            × FiredOn resource action_name body full_action_type o s
                (after_read repr schema T origin query uri action_name body full_action_type o read
                  s).1)
  unfolding after_read
  after_read_guard uri action_name body full_action_type o (raised e) s = inl refl
  after_read_guard uri action_name body full_action_type o (ok v) s =
      elim (bind-lift_cases (document v)
        (on_resource repr schema T origin query uri action_name body full_action_type o) s) [
          | inl (resource, at, e) ↦
              elim (on_resource_guard uri action_name body full_action_type o resource s) [
                | inl same ↦ inl (ap (λ p. p.1) e ∙ same)
                | inr (actions, full, target, found, chosen, may, sent) ↦ inr (
                  v,
                  resource,
                  refl,
                  at,
                  (actions, full, target, found, chosen, may, ap (λ p. p.1) e ∙ sent),
                )
              ]
          | inr same ↦ inl same
        ]

  -- What a POST of `invoke_action` needs: a read that gave a resource, and a permitted action on it.
  abbrev pub Fired : String → String → Dict Json → String → Options → T.State → T.State → Type 0
  Fired uri action_name body full_action_type o s s' =
      (v : Json) × (resource : Dict Json) × ((query uri s).0 ≡ ok v)
      × (document v ≡ ok resource)
      × FiredOn resource action_name body full_action_type o (query uri s).1 s'

  -- Whatever the BMC answers, `invoke_action` leaves the state that its read of the resource left,
  -- or has sent exactly one POST: to the target that the resource's own `Actions` name for the
  -- action, with the payload given, and with flags that permit the action's level.
  pub invoke_action_guard :
      (uri action_name : String) (body : Dict Json) (full_action_type : String) (o : Options)
      (s : T.State)
      → ((invoke_action repr schema T origin query uri action_name body full_action_type o s).1
          ≡ (query uri s).1)
        ⊎ Fired uri action_name body full_action_type o s
            (invoke_action repr schema T origin query uri action_name body full_action_type o s).1
  unfolding invoke_action
  invoke_action_guard uri action_name body full_action_type o s =
      after_read_guard uri action_name body full_action_type o (query uri s).0 (query uri s).1
