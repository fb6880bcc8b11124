-- ===== src/Proxy/Public.antt =====
-- redfish_ctl/proxy/core.py: what list_nodes shows of the nodes.
use redfish_ctl.Common.{
  String, ◌≡◌, refl, sym, ap, ◌∙◌, Option, none, some, List, [], ◌∷◌, ◌==◌, arith, Bool-cases, inl,
  inr, Option-cases, map,
}
use redfish_ctl.Common.Dict.{lookup, has, insert, keys}
use redfish_ctl.Common.Effect.{Result, ok, raised, ◌>>=ᴿ◌}
use redfish_ctl.Common.Text.{sorted}
use redfish_ctl.Json.{Json, object, list, items}
use redfish_ctl.Proxy.{
  NodeConfig, ProxyError, public_dict, NodeRegistry, register, get_node, all_nodes, list_of,
  list_nodes, node_registry, served_nodes,
}

-- A node without its credentials.
abbrev pub hide : NodeConfig → NodeConfig
hide node = record {
  id = node.id;
  address = node.address;
  port = node.port;
  username = none;
  password = none;
  insecure = node.insecure;
  description = node.description;
}

abbrev hide_all : NodeRegistry → NodeRegistry
hide_all [] = []
hide_all ((k, node) ∷ r) = (k, hide node) ∷ hide_all r

abbrev hide_option : Option NodeConfig → Option NodeConfig
hide_option none = none
hide_option (some node) = some (hide node)

abbrev hide_result : Result ProxyError NodeRegistry → Result ProxyError NodeRegistry
hide_result (ok r) = ok (hide_all r)
hide_result (raised e) = raised e

lookup-hide_all : (k : String) (r : NodeRegistry) → lookup k (hide_all r) ≡ hide_option (lookup k r)
unfolding lookup
lookup-hide_all k [] = refl
lookup-hide_all k ((j, node) ∷ r) = ground (arith, lookup-hide_all k r)

insert-hide_all :
    (k : String) (node : NodeConfig) (r : NodeRegistry)
    → insert k (hide node) (hide_all r) ≡ hide_all (insert k node r)
unfolding insert
insert-hide_all k node [] = refl
insert-hide_all k node ((j, n) ∷ r) = elim (Bool-cases (j == k)) [
  | inl same ↦ rw same refl
  | inr other ↦ rw (other, insert-hide_all k node r) refl
]

has-hide_all : (k : String) (r : NodeRegistry) → has k (hide_all r) ≡ has k r
has-hide_all k r = elim (Option-cases (lookup k r)) [
  | inl missing ↦ rw (lookup-hide_all k r, missing) refl
  | inr (node, held) ↦ rw (lookup-hide_all k r, held) refl
]

register-hide_all :
    (nodes : List NodeConfig) (r : NodeRegistry)
    → register (map hide nodes) (hide_all r) ≡ hide_result (register nodes r)
unfolding register
register-hide_all [] r = refl
register-hide_all (node ∷ nodes) r = elim (Bool-cases (has node.id r)) [
  | inl twice ↦ rw (has-hide_all node.id r, twice) refl
  | inr new_id ↦
      rw (has-hide_all node.id r, new_id)
        (ap (register (map hide nodes)) (insert-hide_all node.id node r)
          ∙ register-hide_all nodes (insert node.id node r))
]

keys-hide_all : (r : NodeRegistry) → keys (hide_all r) ≡ keys r
keys-hide_all [] = refl
keys-hide_all ((k, node) ∷ r) = ap (λ ks. k ∷ ks) (keys-hide_all r)

abbrev shown : Result ProxyError (List NodeConfig) → Result ProxyError (List Json)
shown (ok nodes) = ok (map public_dict nodes)
shown (raised e) = raised e

shown-all_nodes :
    (r : NodeRegistry) (ids : List String)
    → shown (all_nodes (hide_all r) ids) ≡ shown (all_nodes r ids)
unfolding all_nodes get_node
shown-all_nodes r [] = refl
shown-all_nodes r (id ∷ ids) = elim (Option-cases (lookup id r)) [
  | inl missing ↦ rw (lookup-hide_all id r, missing) refl
  | inr (node, held) ↦
      rw (lookup-hide_all id r, held)
        (beside node (all_nodes (hide_all r) ids) (all_nodes r ids) (shown-all_nodes r ids))
]
  where
    beside :
        (node : NodeConfig) (a b : Result ProxyError (List NodeConfig))
        → shown a ≡ shown b
        → shown (a >>=ᴿ λ nodes. ok (hide node ∷ nodes)) ≡ shown (b >>=ᴿ λ nodes. ok (node ∷ nodes))
    beside node (ok xs) (ok ys) h = cc
    beside node (ok xs) (raised e) h = absurd cc
    beside node (raised e) (ok ys) h = absurd cc
    beside node (raised e) (raised e') h = cc

abbrev render : Result ProxyError (List Json) → Result ProxyError Json
render (ok rows) = ok (object (("nodes", list (items rows)) ∷ []))
render (raised e) = raised e

render-shown :
    (a : Result ProxyError (List NodeConfig))
    → (a >>=ᴿ λ nodes. ok (object (("nodes", list (items (map public_dict nodes))) ∷ [])))
      ≡ render (shown a)
render-shown (ok nodes) = refl
render-shown (raised e) = refl

list_nodes-hide_all : (r : NodeRegistry) → list_nodes (hide_all r) ≡ list_nodes r
unfolding list_nodes list_of
list_nodes-hide_all r =
    render-shown (all_nodes (hide_all r) (sorted (keys (hide_all r))))
    ∙ (ap render (
          ap (λ ks. shown (all_nodes (hide_all r) (sorted ks))) (keys-hide_all r)
          ∙ shown-all_nodes r (sorted (keys r)))
        ∙ sym (render-shown (all_nodes r (sorted (keys r)))))

served_nodes-hide : (nodes : List NodeConfig) → served_nodes (map hide nodes) ≡ served_nodes nodes
unfolding served_nodes node_registry
served_nodes-hide nodes =
    ap (λ r. r >>=ᴿ list_nodes) (register-hide_all nodes []) ∙ by_registry (register nodes [])
  where
    by_registry :
        (r : Result ProxyError NodeRegistry) → (hide_result r >>=ᴿ list_nodes) ≡ (r >>=ᴿ list_nodes)
    by_registry (ok r) = list_nodes-hide_all r
    by_registry (raised e) = refl

-- What a proxy answers when it is asked for its nodes does not depend on their user names and
-- passwords: nodes that differ in these alone give the same answer, or the same error.
pub served_nodes_public :
    (nodes others : List NodeConfig)
    → map hide nodes ≡ map hide others
    → served_nodes nodes ≡ served_nodes others
served_nodes_public nodes others same =
    sym (served_nodes-hide nodes) ∙ (ap served_nodes same ∙ served_nodes-hide others)
