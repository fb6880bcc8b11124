-- ===== src/Proxy/Tests.antt =====
-- A proxy over two nodes, and one whose commands fail.
use redfish_ctl.Common.{
  ◌≡◌, ◌⊎◌, refl, String, true, false, Option, none, some, List, [], ◌∷◌, ◌==◌, if◌then◌else◌,
}
use redfish_ctl.Common.Effect.{ok, raised}
use redfish_ctl.Json.{object, list, items, int}
use redfish_ctl.Proxy.{
  NodeConfig, duplicate, NodeRegistry, node_registry, get_node, served_nodes, public_dict, found,
}
use redfish_ctl.Proxy.Commands.{other, Managers, MetricRows, metric_rows}
use redfish_ctl.Proxy.Public.{served_nodes_public}
use redfish_ctl.Proxy.Registry.{find, node_registry_refines}
use redfish_ctl.Proxy.Total.{after_calls, metric_calls, metric_rows_total}

abbrev node : String → Option String → NodeConfig
node id password = record {
  id = id;
  address = "10.0.0.1";
  port = 443;
  username = some "root";
  password = password;
  insecure = true;
  description = none;
}

abbrev pair : Option String → List NodeConfig
pair password = node "b" password ∷ node "a" none ∷ []

sorted_nodes :
    served_nodes (pair none)
    ≡ ok (
        object (
          ("nodes", list (items (public_dict (node "a" none) ∷ public_dict (node "b" none) ∷ [])))
          ∷ []))
unfolding served_nodes
sorted_nodes = refl

served_nodes_public_example : served_nodes (pair (some "calvin")) ≡ served_nodes (pair none)
served_nodes_public_example = served_nodes_public (pair (some "calvin")) (pair none) refl

twice_is_refused : node_registry (node "a" none ∷ node "a" none ∷ []) ≡ raised (duplicate "a")
unfolding node_registry
twice_is_refused = refl

node_registry_refines_example :
    ((true ≡ true)
      × ((r : NodeRegistry) × (node_registry (pair none) ≡ ok r)
          × ((id : String) → get_node r id ≡ found id (find id (pair none)))))
    ⊎ ((true ≡ false) × ((id : String) × (node_registry (pair none) ≡ raised (duplicate id))))
node_registry_refines_example = node_registry_refines (pair none)

-- Its sensors command raises, all others answer with an error.
abbrev failing : Managers
failing = record {
  State = List String;
  make = λ n log. (ok tt, log);
  sync_invoke = λ n call log. (
    if call.name == "sensors"
        then raised (other "timed out")
        else ok (record { data_of = int 1; error = some "404" }),
    call.name ∷ log,
  );
}

all_are_issued :
    (metric_rows failing (node "a" none) true []).1
    ≡ "component-integrity" ∷ "network-adapters" ∷ "leak-detectors" ∷ "metric-reports"
      ∷ "nvlink-ports" ∷ "sensors" ∷ "thermal" ∷ "environment-metrics" ∷ []
unfolding metric_rows
all_are_issued = refl

metric_rows_total_example :
    (rows : MetricRows failing) × (metric_rows failing (node "a" none) true [] ≡ (
      ok rows,
      after_calls failing (node "a" none) (metric_calls failing (node "a" none) true) [],
    ))
metric_rows_total_example = metric_rows_total failing (node "a" none) true []
