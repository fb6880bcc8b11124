-- ===== src/Proxy.antt =====
-- redfish_ctl/proxy/core.py: the nodes of the proxy, and the commands that it issues.
pub mod Commands
pub mod Registry
pub mod Public
pub mod Total
mod Tests
use redfish_ctl.Common.{
  ℕ, String, ◌<>◌, Bool, true, false, Option, none, some, List, [], ◌∷◌, if◌then◌else◌, map,
}
use redfish_ctl.Common.Dict.{Dict, lookup, has, insert, keys}
use redfish_ctl.Common.Effect.{Result, ok, raised, ◌>>=ᴿ◌}
use redfish_ctl.Common.Text.{sorted}
use redfish_ctl.Json.{Json, bool, int, str, list, items, object, optional}

pub record NodeConfig : Type 0 where
  pub id : String
  pub address : String
  pub port : ℕ
  pub username : Option String
  pub password : Option String
  pub insecure : Bool
  pub description : Option String

-- `duplicate` is the ValueError of the registry, `node_not_found` NodeNotFound.
pub data ProxyError : Type 0 where
  duplicate node_not_found : String → ProxyError

abbrev pub public_dict : NodeConfig → Json
public_dict node = object (
    ("id", str node.id)
    ∷ ("address", str node.address)
    ∷ ("port", int node.port)
    ∷ ("insecure", bool node.insecure)
    ∷ ("description", optional node.description)
    ∷ [])

abbrev pub NodeRegistry : Type 0
NodeRegistry = Dict NodeConfig

-- The loop of the constructor.
unfoldable pub register : List NodeConfig → NodeRegistry → Result ProxyError NodeRegistry
unfolding lookup insert
register [] known = ok known
register (node ∷ nodes) known =
    let rest = register nodes (insert node.id node known) in
    if has node.id known then raised (duplicate node.id) else rest

unfoldable pub node_registry : List NodeConfig → Result ProxyError NodeRegistry
unfolding register
node_registry nodes = register nodes []

abbrev pub found : String → Option NodeConfig → Result ProxyError NodeConfig
found id none = raised (node_not_found id)
found id (some node) = ok node

-- NodeRegistry.get
unfoldable pub get_node : NodeRegistry → String → Result ProxyError NodeConfig
unfolding lookup
get_node registry id = found id (lookup id registry)

-- NodeRegistry.list
abbrev pub all_nodes : NodeRegistry → List String → Result ProxyError (List NodeConfig)
unfolding get_node
all_nodes registry [] = ok []
all_nodes registry (id ∷ ids) =
    get_node registry id >>=ᴿ λ node. all_nodes registry ids >>=ᴿ λ nodes. ok (node ∷ nodes)

unfoldable pub list_of : NodeRegistry → Result ProxyError (List NodeConfig)
unfolding all_nodes sorted
list_of registry = all_nodes registry (sorted (keys registry))

-- ReadOnlyProxy.list_nodes
unfoldable pub list_nodes : NodeRegistry → Result ProxyError Json
unfolding list_of
list_nodes registry = list_of registry >>=ᴿ λ nodes.
    ok (object (("nodes", list (items (map public_dict nodes))) ∷ []))

-- A proxy over the nodes that it is given, asked for its nodes.
unfoldable pub served_nodes : List NodeConfig → Result ProxyError Json
unfolding node_registry list_nodes
served_nodes nodes = node_registry nodes >>=ᴿ list_nodes
