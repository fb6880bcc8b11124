-- ===== src/Proxy/Registry.antt =====
-- redfish_ctl/proxy/core.py: the registry as a function from ids to nodes.
use redfish_ctl.Common.{
  String, ◌≡◌, ◌⊎◌, inl, inr, refl, ap, ◌∙◌, Bool, true, false, not, ◌&&◌, Option, none, some, List,
  [], ◌∷◌, ◌==◌, arith, eq_iff, Bool-cases, if◌then◌else◌, contains, distinct,
}
use mathlib.Core.Path.{subst}
use redfish_ctl.Common.Dict.{lookup, has, insert, lookup-insert}
use redfish_ctl.Common.Effect.{ok, raised}
use redfish_ctl.Proxy.{
  NodeConfig, duplicate, NodeRegistry, register, node_registry, get_node, found,
}

-- The node of an id among the nodes given.
abbrev pub find : String → List NodeConfig → Option NodeConfig
find id [] = none
find id (node ∷ nodes) = if node.id == id then some node else find id nodes

abbrev pub ids_of : List NodeConfig → List String
ids_of [] = []
ids_of (node ∷ nodes) = node.id ∷ ids_of nodes

abbrev or_found : Option NodeConfig → Option NodeConfig → Option NodeConfig
or_found none later = later
or_found (some node) later = some node

-- None of the nodes is known already.
abbrev all_new : NodeRegistry → List NodeConfig → Bool
all_new known [] = true
all_new known (node ∷ nodes) = not (has node.id known) && all_new known nodes

all_new-insert :
    (node : NodeConfig) (known : NodeRegistry) (nodes : List NodeConfig)
    → all_new (insert node.id node known) nodes
      ≡ (all_new known nodes && not (contains node.id (ids_of nodes)))
all_new-insert node known [] = refl
all_new-insert node known (n ∷ nodes) = ground (
  arith,
  all_new-insert node known nodes,
  lookup-insert node.id n.id node known,
  eq_iff node.id n.id,
  eq_iff n.id node.id,
)

find_absent :
    (id : String) (nodes : List NodeConfig)
    → contains id (ids_of nodes) ≡ false
    → find id nodes ≡ none
find_absent id [] h = refl
find_absent id (node ∷ nodes) h = ground (arith, find_absent id nodes)

found_first :
    (id : String) (node : NodeConfig) (nodes : List NodeConfig) (later : Option NodeConfig)
    → contains node.id (ids_of nodes) ≡ false
    → or_found (find id nodes) (if node.id == id then some node else later)
      ≡ or_found (if node.id == id then some node else find id nodes) later
found_first id node nodes later absent = elim (Bool-cases (node.id == id)) [
  | inl same ↦
      let e = (eq_iff node.id id).0 same in
      let gone : find id nodes ≡ none =
        find_absent id nodes (subst (λ i. contains i (ids_of nodes) ≡ false) e absent) in
      rw (same, gone) refl
  | inr other ↦ rw other refl
]

-- What the loop of the constructor gives.
register_lem :
    (nodes : List NodeConfig) (known : NodeRegistry)
    → ((all_new known nodes && distinct (ids_of nodes) ≡ true)
        × ((r : NodeRegistry) × (register nodes known ≡ ok r)
            × ((id : String) → lookup id r ≡ or_found (find id nodes) (lookup id known))))
      ⊎ ((all_new known nodes && distinct (ids_of nodes) ≡ false)
          × ((id : String) × (register nodes known ≡ raised (duplicate id))))
unfolding register
register_lem [] known = inl (refl, (known, refl, λ id. refl))
register_lem (node ∷ nodes) known = elim (Bool-cases (has node.id known)) [
  | inl twice ↦ inr (ground arith, (node.id, rw twice refl))
  | inr new_id ↦ elim (register_lem nodes (insert node.id node known)) [
    | inl (fresh, (r, e, h)) ↦ inl (
      ground (arith, all_new-insert node known nodes),
      (
        r,
        rw new_id e,
        λ id.
            h id
            ∙ (ap (or_found (find id nodes)) (lookup-insert node.id id node known)
                ∙ found_first id node nodes (lookup id known)
                    (ground (arith, all_new-insert node known nodes))),
      ),
    )
    | inr (clash, (id, e)) ↦
        inr (ground (arith, all_new-insert node known nodes), (id, rw new_id e))
  ]
]

all_new_empty : (nodes : List NodeConfig) → all_new [] nodes ≡ true
unfolding lookup
all_new_empty [] = refl
all_new_empty (node ∷ nodes) = ground (arith, all_new_empty nodes)

or_found-none : (o : Option NodeConfig) → or_found o none ≡ o
or_found-none none = refl
or_found-none (some node) = refl

-- The registry of nodes with distinct ids is the finite map from each id to its node: `get` gives the node of
-- an id, and is an error for any other id. A registry of nodes of which two have the same id is refused.
pub node_registry_refines :
    (nodes : List NodeConfig)
    → ((distinct (ids_of nodes) ≡ true)
        × ((r : NodeRegistry) × (node_registry nodes ≡ ok r)
            × ((id : String) → get_node r id ≡ found id (find id nodes))))
      ⊎ ((distinct (ids_of nodes) ≡ false)
          × ((id : String) × (node_registry nodes ≡ raised (duplicate id))))
unfolding node_registry get_node lookup
node_registry_refines nodes = elim (register_lem nodes []) [
  | inl (fresh, (r, e, h)) ↦ inl (
    ground (arith, all_new_empty nodes),
    (r, e, λ id. ap (found id) (h id ∙ or_found-none (find id nodes))),
  )
  | inr (clash, refused) ↦ inr (ground (arith, all_new_empty nodes), refused)
]
