-- ===== src/Proxy/Commands.antt =====
-- redfish_ctl/proxy/core.py: the commands of the proxy and the rows of their answers.
use redfish_ctl.Common.{
  String, Bool, false, Option, none, some, List, [], ◌∷◌, if◌then◌else◌, is_some,
}
use redfish_ctl.Common.Dict.{Dict}
use redfish_ctl.Common.Effect.{Result, ok, raised, Exec, pure, raise, lift, ◌>>=◌}
use redfish_ctl.Json.{Json, null, bool, str, list, dict, elems, props, object, get}
use redfish_ctl.Proxy.{NodeConfig, NodeRegistry, ProxyError, get_node}

-- A call `sync_invoke(ApiRequestType.<api_call>, name, **kwargs)`.
pub record Call : Type 0 where
  pub api_call : String
  pub name : String
  pub kwargs : Dict Json

-- `result.error` is the text of a true error.
pub record Answer : Type 0 where
  pub data_of : Json
  pub error : Option String

-- What the proxy raises: an unknown node, RedfishApiError, or what a command or a factory raises.
pub data Failure : Type 0 where
  unknown_node : String → Failure
  api_error other : String → Failure

-- The managers of the nodes: `make` builds one, which may raise, and the call takes the node.
pub record Managers : Type 1 where
  pub State : Type 0
  pub make : NodeConfig → Exec State Failure Unit
  pub sync_invoke : NodeConfig → Call → Exec State Failure Answer

abbrev pub list_payload : Json → List (Dict Json)
list_payload (list vs) = rows (elems vs)
  where
    rows : List Json → List (Dict Json)
    rows [] = []
    rows (dict fs ∷ vs) = props fs ∷ rows vs
    rows (_ ∷ vs) = rows vs
list_payload _ = []

abbrev pub dict_payload : Json → Dict Json
dict_payload (dict fs) = props fs
dict_payload _ = []

unfoldable pub dict_rows : Json → String → List (Dict Json)
unfolding get
dict_rows v key = list_payload (get (dict_payload v) key)

module _ (M : Managers) where
  abbrev data_or_raise : Answer → Exec M.State Failure Json
  data_or_raise answer = by_error answer.error
    where
      by_error : Option String → Exec M.State Failure Json
      by_error none = pure answer.data_of
      by_error (some e) = raise (api_error e)

  unfoldable pub raw_command : NodeConfig → Call → Exec M.State Failure Json
  raw_command node call = M.sync_invoke node call >>= data_or_raise

  abbrev pub data_or_none : Result Failure Answer × M.State → Result Failure Json × M.State
  data_or_none (raised e, t) = (ok null, t)
  data_or_none (ok answer, t) = (ok (if is_some answer.error then null else answer.data_of), t)

  -- An error and an exception alike give None.
  unfoldable pub optional_command : NodeConfig → Call → Exec M.State Failure Json
  optional_command node call s = data_or_none (M.sync_invoke node call s)

  abbrev as_failure : Result ProxyError NodeConfig → Result Failure NodeConfig
  as_failure (ok node) = ok node
  as_failure (raised (ProxyError.duplicate id)) = raised (other id)
  as_failure (raised (ProxyError.node_not_found id)) = raised (unknown_node id)

  unfoldable pub node_and_manager : NodeRegistry → String → Exec M.State Failure NodeConfig
  unfolding get_node
  node_and_manager registry id =
      lift (as_failure (get_node registry id)) >>= λ node. M.make node >>= λ _. pure node

  unfoldable pub node_gpu_metrics : NodeRegistry → String → Exec M.State Failure Json
  unfolding node_and_manager raw_command
  node_gpu_metrics registry id = node_and_manager registry id >>= λ node.
      raw_command node (record { api_call = "GpuMetrics"; name = "gpu-metrics"; kwargs = [] })
      >>= λ rows. pure (object (("id", str node.id) ∷ ("gpuMetrics", rows) ∷ []))

  -- A missing filter is the empty text.
  unfoldable pub node_bios : NodeRegistry → String → String → Exec M.State Failure Json
  unfolding node_and_manager raw_command
  node_bios registry id attr_filter = node_and_manager registry id >>= λ node.
      raw_command node (record {
        api_call = "BiosQuery";
        name = "bios_inventory";
        kwargs =
            ("attr_filter", str attr_filter)
            ∷ ("attr_only", bool false)
            ∷ ("do_deep", bool false)
            ∷ [];
      })
      >>= λ bios. pure (object (("id", str node.id) ∷ ("bios", bios) ∷ []))

  abbrev expanded : Bool → Dict Json
  expanded do_expanded = ("do_expanded", bool do_expanded) ∷ []

  -- The rows that build_metric_samples is given.
  pub record MetricRows : Type 0 where
    pub environment : List (Dict Json)
    pub thermal : List (Dict Json)
    pub sensors : List (Dict Json)
    pub nvlink : List (Dict Json)
    pub metric_reports : List (Dict Json)
    pub leak_detection : List (Dict Json)
    pub network : List (Dict Json)
    pub components : List (Dict Json)

  unfoldable pub listed :
      NodeConfig → String → String → Bool → Exec M.State Failure (List (Dict Json))
  unfolding optional_command
  listed node api_call name do_expanded =
      optional_command node
        (record { api_call = api_call; name = name; kwargs = expanded do_expanded })
      >>= λ v. pure (list_payload v)

  unfoldable pub keyed :
      NodeConfig → String → String → String → Exec M.State Failure (List (Dict Json))
  unfolding optional_command dict_rows
  keyed node api_call name key =
      optional_command node (record { api_call = api_call; name = name; kwargs = [] }) >>= λ v.
      pure (dict_rows v key)

  -- The reads of node_metric_samples, in their order; none of them stops the others.
  unfoldable pub metric_rows : NodeConfig → Bool → Exec M.State Failure MetricRows
  unfolding listed keyed
  metric_rows node do_expanded =
      keyed node "EnvironmentMetrics" "environment-metrics" "metrics" >>= λ environment.
      keyed node "Thermal" "thermal" "temperature_readings" >>= λ thermal.
      listed node "Sensors" "sensors" do_expanded >>= λ sensors.
      listed node "NvLinkPorts" "nvlink-ports" do_expanded >>= λ nvlink.
      listed node "SupermicroMetricReports" "metric-reports" do_expanded >>= λ metric_reports.
      keyed node "LeakDetectors" "leak-detectors" "detectors" >>= λ leak_detection.
      listed node "NetworkAdapters" "network-adapters" do_expanded >>= λ network.
      listed node "ComponentIntegrity" "component-integrity" do_expanded >>= λ components.
      pure (record {
        environment = environment;
        thermal = thermal;
        sensors = sensors;
        nvlink = nvlink;
        metric_reports = metric_reports;
        leak_detection = leak_detection;
        network = network;
        components = components;
      })
