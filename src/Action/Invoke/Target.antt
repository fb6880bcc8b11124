-- ===== src/Action/Invoke/Target.antt =====
-- Where `invoke_action` posts to.
use mathlib.Core.Path.{subst}
use redfish_ctl.Common.{
  String, ◌≡◌, ◌⊎◌, inl, inr, refl, sym, Option, none, some, List, All, Bool-cases,
}
use redfish_ctl.Common.Dict.{Dict, lookup}
use redfish_ctl.Common.Effect.{Result, ok, Exec}
use redfish_ctl.Common.Text.{is_empty}
use redfish_ctl.Json.{Json, dict, props, truthy, mapping, get, Fields}
use redfish_ctl.Http.{Exn, Transport}
use redfish_ctl.Action.{RedfishAction}
use redfish_ctl.Action.Discover.{discover_redfish_actions, flatten_action_targets}
use redfish_ctl.Action.Discover.Offers.{NamedEntry, NamedExtension, lookup-All}
use redfish_ctl.Action.Discover.Provenance.{discover-AllTargets, flatten-All}
use redfish_ctl.Action.Gate.{Options}
use redfish_ctl.Action.Invoke.{
  document, resolve, first_some, by_full_name, by_short_name, invoke_action,
}
use redfish_ctl.Action.Invoke.Guard.{posted, invoke_action_guard}

module _ (P : Json → Type 0) where
  -- Every target that the resource names has the property: in its `Actions`, in their `Oem`, and in
  -- the `Actions` of the extensions in its own `Oem`.
  abbrev pub NamesOnly : Dict Json → Type 0
  NamesOnly resource =
      All (NamedEntry P) (mapping (get resource "Actions"))
      × All (NamedExtension P) (mapping (get resource "Oem"))

  abbrev Holds : Option (String × Json) → Type 0
  Holds none = Unit
  Holds (some (full, target)) = P target

  short_holds :
      (action_name : String) (found : Option RedfishAction)
      → ((a : RedfishAction) → found ≡ some a → P a.target)
      → Holds (by_short_name action_name found)
  short_holds action_name none h = tt
  short_holds action_name (some a) h = elim (Bool-cases (truthy a.target)) [
    | inl there ↦ rw there (h a refl)
    | inr blank ↦ rw blank tt
  ]

  full_holds :
      (full : String) (found : Option Json)
      → ((t : Json) → found ≡ some t → P t)
      → Holds (by_full_name full found)
  full_holds full none h = tt
  full_holds full (some t) h = h t refl

  first_holds : (a b : Option (String × Json)) → Holds a → Holds b → Holds (first_some a b)
  first_holds none b h k = k
  first_holds (some x) b h k = h

  resolve-Holds :
      (resource : Dict Json) (actions : Dict RedfishAction) (action_name full : String)
      → NamesOnly resource
      → discover_redfish_actions resource ≡ ok actions
      → Holds (resolve resource actions action_name full)
  unfolding resolve
  resolve-Holds resource actions action_name full (listed, extended) found =
      let short = short_holds action_name (lookup action_name actions) (λ a at.
        lookup-All (λ (b : RedfishAction). P b.target) action_name actions a
          (discover-AllTargets P resource listed found) at) in
      elim (Bool-cases (is_empty full)) [
        | inl missing ↦ rw missing short
        | inr given ↦ rw given (
            first_holds _ _
              (full_holds full (lookup full (flatten_action_targets resource)) (λ t at.
                lookup-All P full (flatten_action_targets resource) t
                  (flatten-All P resource listed extended) at))
              short)
      ]

  read_same : {r : Result Exn Json} {v w : Json} → r ≡ ok v → r ≡ ok w → v ≡ w
  read_same h k = cc

  document_of :
      (fs : Fields) (v : Json) {resource : Dict Json}
      → v ≡ dict fs
      → document v ≡ ok resource
      → resource ≡ props fs
  unfolding document
  document_of fs v e done = cc (rw e at done)

  module _ (repr : String → String) (schema : String → Dict (List String)) (T : Transport)
      (origin : String) (query : String → Exec T.State Exn Json) where
    -- Whatever property every target that the resource names has, the target of the POST has it, if
    -- `invoke_action` sends one: no POST goes to an address that the resource does not name.
    pub invoke_action_target :
        (uri action_name : String) (body : Dict Json) (full_action_type : String) (o : Options)
        (s : T.State) (fs : Fields)
        → (query uri s).0 ≡ ok (dict fs)
        → NamesOnly (props fs)
        → ((invoke_action repr schema T origin query uri action_name body full_action_type o s).1
            ≡ (query uri s).1)
          ⊎ ((target : Json) × P target
              × ((invoke_action repr schema T origin query uri action_name body full_action_type o
                    s).1
                  ≡ posted repr schema T origin query target body (query uri s).1))
    invoke_action_target uri action_name body full_action_type o s fs read names =
        elim (invoke_action_guard repr schema T origin query uri action_name body full_action_type o
          s) [
            | inl same ↦ inl same
            | inr (v, resource, at, parsed, (actions, full, target, found, chosen, may, sent)) ↦
                inr (
                  target,
                  subst Holds chosen (
                      resolve-Holds resource actions action_name full_action_type
                        (subst NamesOnly (sym (document_of fs v (read_same at read) parsed)) names)
                        found),
                  sent,
                )
          ]
