-- ===== src/Action/Discover/Provenance.antt =====
-- The results of action discovery, and a property of the targets that a resource names.
use redfish_ctl.Common.{String, ◌≡◌, refl, Option, none, some, [], ◌∷◌, All, Bool-cases, inl, inr}
use mathlib.Core.Path.{subst}
use redfish_ctl.Common.Dict.{Dict, lookup}
use redfish_ctl.Common.Effect.{Result, ok, raised, ◌>>=ᴿ◌}
use redfish_ctl.Json.{
  Json, str, list, dict, nil, cons, null, bool, int, neg, props, truthy, mapping, get, or_null,
}
use redfish_ctl.Http.{Exn}
use redfish_ctl.Action.{RedfishAction}
use redfish_ctl.Action.Discover.{
  add_targeted, add_action, add_found_actions, found_in, get_actions, discover_redfish_actions,
  Found, or_empty, is_dict, flatten_action_targets,
}
use redfish_ctl.Action.Discover.Offers.{
  Names, NamedEntry, NamedExtension, insert-All, add_actions-All, add_extensions-All,
  unfiltered_loop-All,
}

module _ (P : Json → Type 0) where
  -- The property holds of the targets of the actions found.
  abbrev pub AllTargets : Dict RedfishAction → Type 0
  AllTargets = All (λ row. P row.1.target)

  ok_same : {A : Type 0} {a b : A} → ◌≡◌ {A = Result Exn A} (ok a) (ok b) → a ≡ b
  ok_same h = cc

  bind_ok :
      {A B : Type 0} (m : Result Exn A) (f : A → Result Exn B) {b : B}
      → (m >>=ᴿ f) ≡ ok b
      → (a : A) × (m ≡ ok a) × (f a ≡ ok b)
  bind_ok (ok a) f h = (a, refl, h)
  bind_ok (raised e) f h = cc

  add_targeted-AllTargets :
      (short full : String) (row : Dict Json) (found : Option Json) (out : Dict RedfishAction)
      → ((t : Json) → found ≡ some t → P t)
      → AllTargets out
      → AllTargets (add_targeted short full row found out)
  add_targeted-AllTargets short full row none out named h = h
  add_targeted-AllTargets short full row (some t) out named h =
      insert-All (λ (a : RedfishAction). P a.target) short _ out (named t refl) h

  add_action-AllTargets :
      (short full : String) (v : Json) (out : Dict RedfishAction) {out' : Dict RedfishAction}
      → Names P v
      → AllTargets out
      → add_action short (full, v) out ≡ ok out'
      → AllTargets out'
  unfolding add_action
  add_action-AllTargets short full (dict fs) out names h done =
      subst AllTargets (ok_same done)
        (add_targeted-AllTargets short full (props fs) _ out (λ t named. names fs t refl named) h)
  add_action-AllTargets short full (list vs) out names h done = subst AllTargets (ok_same done) h
  add_action-AllTargets short full (str s) out names h done = subst AllTargets (ok_same done) h
  add_action-AllTargets short full null out names h done = cc
  add_action-AllTargets short full (bool b) out names h done = cc
  add_action-AllTargets short full (int n) out names h done = cc
  add_action-AllTargets short full (neg n) out names h done = cc

  add_found_actions-All :
      (found : Found) (out : Dict RedfishAction) {actions : Dict RedfishAction}
      → All (λ row. Names P row.1.1) found
      → AllTargets out
      → add_found_actions found out ≡ ok actions
      → AllTargets actions
  unfolding add_found_actions
  add_found_actions-All [] out named h done = subst AllTargets (ok_same done) h
  add_found_actions-All ((short, (full, v)) ∷ found) out (own, rest) h done =
      let (next, first, later) =
        bind_ok (add_action short (full, v) out) (add_found_actions found) done in
      add_found_actions-All found next rest (add_action-AllTargets short full v out own h first)
        later

  found_in-All :
      (block : Option Json) {found : Found}
      → All (NamedEntry P) (mapping (or_null block))
      → found_in block ≡ ok found
      → All (λ row. Names P row.1.1) found
  unfolding found_in
  found_in-All none named done = subst (All (λ row. Names P row.1.1)) (ok_same done) tt
  found_in-All (some (dict fs)) named done =
      subst (All (λ row. Names P row.1.1)) (ok_same done)
        (unfiltered_loop-All P (props fs) [] named tt)
  found_in-All (some (list nil)) named done = subst (All (λ row. Names P row.1.1)) (ok_same done) tt
  found_in-All (some (str String.[])) named done =
      subst (All (λ row. Names P row.1.1)) (ok_same done) tt
  found_in-All (some (list (cons v vs))) named done = cc
  found_in-All (some (str (String.◌∷◌ c s))) named done = cc
  found_in-All (some null) named done = cc
  found_in-All (some (bool b)) named done = cc
  found_in-All (some (int n)) named done = cc
  found_in-All (some (neg n)) named done = cc

  pub discover-AllTargets :
      (resource : Dict Json) {actions : Dict RedfishAction}
      → All (NamedEntry P) (mapping (get resource "Actions"))
      → discover_redfish_actions resource ≡ ok actions
      → AllTargets actions
  unfolding discover_redfish_actions get_actions get
  discover-AllTargets resource named done =
      let (found, first, later) =
        bind_ok (get_actions resource) (λ found. add_found_actions found []) done in
      add_found_actions-All found [] (found_in-All (lookup "Actions" resource) named first) tt later

  or_empty-mapping :
      (v : Json) → All (NamedEntry P) (mapping v) → All (NamedEntry P) (mapping (or_empty v))
  or_empty-mapping v h = elim (Bool-cases (truthy v)) [
    | inl true_one ↦ rw true_one h
    | inr blank ↦ rw blank tt
  ]

  pub flatten-All :
      (resource : Dict Json)
      → All (NamedEntry P) (mapping (get resource "Actions"))
      → All (NamedExtension P) (mapping (get resource "Oem"))
      → All (λ row. P row.1) (flatten_action_targets resource)
  unfolding flatten_action_targets
  flatten-All resource named extended =
      elim (Bool-cases (is_dict (or_empty (get resource "Actions")))) [
        | inl block ↦ rw block (
            add_extensions-All P _ _ extended
              (add_actions-All P _ [] (or_empty-mapping (get resource "Actions") named) tt))
        | inr other ↦ rw other tt
      ]
