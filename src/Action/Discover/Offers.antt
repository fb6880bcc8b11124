-- ===== src/Action/Discover/Offers.antt =====
-- The loops of action discovery, and a property of the targets that a resource names.
use mathlib.Core.Path.{subst}
use redfish_ctl.Common.{
  String, ◌≡◌, refl, true, Option, none, some, [], ◌∷◌, ◌==◌, All, Bool-cases, inl, inr,
  Option-cases,
}
use redfish_ctl.Common.Dict.{Dict, lookup, insert}
use redfish_ctl.Json.{Json, dict, props, truthy, mapping, get, Fields}
use redfish_ctl.Action.Discover.{
  target_of, add_target, add_targets, add_actions, add_extensions, add_found, add_members,
  unfiltered_loop, Found, is_dict,
}

module _ {A : Type 0} (P : A → Type 0) where
  pub insert-All :
      (k : String) (v : A) (d : Dict A)
      → P v
      → All (λ row. P row.1) d
      → All (λ row. P row.1) (insert k v d)
  unfolding insert
  insert-All k v [] p h = (p, tt)
  insert-All k v ((j, w) ∷ d) p h = elim (Bool-cases (j == k)) [
    | inl same ↦ rw same (p, h.1)
    | inr other ↦ rw other (h.0, insert-All k v d p h.1)
  ]

  pub lookup-All :
      (k : String) (d : Dict A) (v : A) → All (λ row. P row.1) d → lookup k d ≡ some v → P v
  unfolding lookup
  lookup-All k [] v h found = cc
  lookup-All k ((j, w) ∷ d) v h found = elim (Bool-cases (j == k)) [
    | inl same ↦ subst P (cc (rw same at found)) h.0
    | inr other ↦ lookup-All k d v h.1 (rw other at found)
  ]

module _ (P : Json → Type 0) where
  -- A target that the value names has the property.
  abbrev pub Names : Json → Type 0
  Names v = (fs : Fields) (t : Json) → v ≡ dict fs → lookup "target" (props fs) ≡ some t → P t

  target_of_named : (v t : Json) → Names v → target_of v ≡ some t → P t
  unfolding get
  target_of_named (dict fs) t h found = elim (Option-cases (lookup "target" (props fs))) [
    | inl missing ↦ cc (rw missing at found)
    | inr (u, named) ↦ elim (Bool-cases (truthy u)) [
      | inl some_target ↦ subst P (cc (rw (named, some_target) at found)) (h fs u refl named)
      | inr blank ↦ cc (rw (named, blank) at found)
    ]
  ]
  target_of_named v t h found = cc

  add_target-All :
      (k : String) (v : Json) (out : Dict Json)
      → Names v
      → All (λ row. P row.1) out
      → All (λ row. P row.1) (add_target k (target_of v) out)
  add_target-All k v out names h = by_target (target_of v) refl
    where
      by_target :
          (found : Option Json)
          → target_of v ≡ found
          → All (λ row. P row.1) (add_target k found out)
      by_target none e = h
      by_target (some t) e = insert-All P k t out (target_of_named v t names e) h

  -- Every target that the entries name has the property.
  abbrev pub AllNamed : Dict Json → Type 0
  AllNamed = All (λ row. Names row.1)

  add_targets-All :
      (entries out : Dict Json)
      → AllNamed entries
      → All (λ row. P row.1) out
      → All (λ row. P row.1) (add_targets entries out)
  unfolding add_targets
  add_targets-All [] out named h = h
  add_targets-All ((k, v) ∷ entries) out (own, rest) h =
      add_targets-All entries _ rest (add_target-All k v out own h)

  -- An entry of `Actions`: an action, or the block `Oem` of such.
  abbrev pub NamedEntry : String × Json → Type 0
  NamedEntry (k, v) = Names v × ((k == "Oem") ≡ true → AllNamed (mapping v))

  pub add_actions-All :
      (entries out : Dict Json)
      → All NamedEntry entries
      → All (λ row. P row.1) out
      → All (λ row. P row.1) (add_actions entries out)
  unfolding add_actions
  add_actions-All [] out named h = h
  add_actions-All ((k, v) ∷ entries) out ((own, below), rest) h = elim (Bool-cases (k == "Oem")) [
    | inl oem ↦ elim (Bool-cases (is_dict v)) [
      | inl block ↦
          rw (oem, block)
            (add_actions-All entries _ rest (add_targets-All (mapping v) out (below oem) h))
      | inr other ↦ rw (oem, other) (add_actions-All entries _ rest h)
    ]
    | inr action ↦ rw action (add_actions-All entries _ rest (add_target-All k v out own h))
  ]

  -- The actions of a vendor's extension.
  abbrev pub NamedExtension : String × Json → Type 0
  NamedExtension (vendor, ext) = AllNamed (mapping (get (mapping ext) "Actions"))

  pub add_extensions-All :
      (exts out : Dict Json)
      → All NamedExtension exts
      → All (λ row. P row.1) out
      → All (λ row. P row.1) (add_extensions exts out)
  unfolding add_extensions
  add_extensions-All [] out named h = h
  add_extensions-All ((vendor, ext) ∷ exts) out (own, rest) h =
      add_extensions-All exts _ rest
        (add_targets-All (mapping (get (mapping ext) "Actions")) out own h)

  add_found-All :
      (k : String) (v : Json) (short : Option String) (out : Found)
      → Names v
      → All (λ row. Names row.1.1) out
      → All (λ row. Names row.1.1) (add_found k v short out)
  add_found-All k v none out own h = h
  add_found-All k v (some short) out own h =
      insert-All (λ described. Names described.1) short (k, v) out own h

  add_members-All :
      (entries : Dict Json) (out : Found)
      → AllNamed entries
      → All (λ row. Names row.1.1) out
      → All (λ row. Names row.1.1) (add_members entries out)
  unfolding add_members
  add_members-All [] out named h = h
  add_members-All ((k, v) ∷ entries) out (own, rest) h =
      add_members-All entries _ rest (add_found-All k v _ out own h)

  pub unfiltered_loop-All :
      (entries : Dict Json) (out : Found)
      → All NamedEntry entries
      → All (λ row. Names row.1.1) out
      → All (λ row. Names row.1.1) (unfiltered_loop entries out)
  unfolding unfiltered_loop
  unfiltered_loop-All [] out named h = h
  unfiltered_loop-All ((k, v) ∷ entries) out ((own, below), rest) h =
      elim (Bool-cases (k == "Oem")) [
        | inl oem ↦ elim (Bool-cases (is_dict v)) [
          | inl block ↦
              rw (oem, block)
                (unfiltered_loop-All entries _ rest (add_members-All (mapping v) out (below oem) h))
          | inr other ↦ rw (oem, other) (unfiltered_loop-All entries _ rest h)
        ]
        | inr action ↦
            rw action (unfiltered_loop-All entries _ rest (add_found-All k v _ out own h))
      ]
