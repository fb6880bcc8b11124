-- ===== src/Lib.antt =====
-- redfish_ctl drives the BMCs of servers over Redfish. This library models its core: how risky an
-- action is, how an action of a resource is found, checked and sent, how the answer to a write is
-- classified, how a desired state is reconciled, and how the Kubernetes controller of node profiles
-- plans and applies it under an approval.
--
-- Parts, with the code that each models:
--   Common      Tests on numbers and texts, lists, association lists for Python's dicts, `str` methods,
--               results, computations with a state that may raise, and a contract for these (Safe).
--   Json        The values of a decoded JSON document, Python's `bool`, `str` and `==` on them.
--   Policy      redfish_ctl/actions/action_policy.py: the whole table and `classify`.
--   Http        redfish_ctl/redfish_respond_error.py and the write path of RedfishManager
--               (redfish_ctl/redfish_manager.py: parse_error, default_error_handler,
--               default_post_success, base_request_respond, base_post, task_id_from_header).
--   Action      RedfishManager.invoke_action with all that it calls: Discover (_flatten_action_targets,
--               _get_actions, discover_redfish_actions), Validate (_validate_action_payload), Gate (the
--               fail-safe gate), Report (each value returned), Invoke (the method).
--   Reconcile   redfish_ctl/reconcile.py: Desired (DesiredState.from_mapping), Match (whether the node is
--               in the state already), Request (the commands issued), Plan (the parts and `reconcile`).
--   Controller  k8s/controller/redfish_node_profile_controller.py: Status (plan_hash, build_status), Profile
--               (reconcile_profile and the handler).
--   Task        redfish_ctl/redfish_task_state.py, RedfishManager.get_task_state and fetch_task.
--   Cache       RedfishResponseCache (redfish_ctl/redfish_manager.py) with the threads that use it.
--   Wait        redfish_ctl/cmd_wait.py: wait_for.
--   Config      redfish_ctl/config.py: env_first, the accessors in Settings, the identity of the exporter in
--               Identity. The environment is an argument, and the warnings are the state.
--   Fleet       redfish_ctl/fleet/cmd_fleet.py: Inventory (load_inventory), and read_fleet, where the order of
--               completion of the reads is an argument.
--   Ntp         redfish_ctl/manager/cmd_ntp_set.py: the servers, Plan (_ntp_plan), Apply (NtpSet.execute).
--   Proxy       redfish_ctl/proxy/core.py: NodeConfig and NodeRegistry, and Commands, which the routes issue.
--   Reset       redfish_ctl/compute/cmd_power_state.py: RebootHost.execute.
--   Query       redfish_ctl/redfish_query.py: the query string of a read.
--   Boot        redfish_ctl/boot_source/cmd_boot_one_shot.py: the payload, and OneShot (BootOneShot.execute).
--   Bios        redfish_ctl/bios/cmd_bios_profile.py: the diff, and Command (BiosProfile.execute).
--
-- Interactions: the controller calls `reconcile` twice, first as a dry run, then confirmed; `reconcile`
-- issues commands through `SyncInvoker`; `invoke_action` classifies with Policy and posts with Http. A
-- function that talks to a node passes the state of the outer world on, and returns a value or the error raised.
--
-- Parameters, for what is not in the repository or is not modelled: `Transport` is the HTTP library (requests);
-- `query` is `base_query`; `schema` is what the CSDL bundle says of an action's parameters; `repr` is Python's
-- `repr` of a text; `SyncInvoker` is the registry of commands, a protocol in the source too; `digest` is the
-- SHA-256 of the canonical JSON of the steps; `make_manager` and `credentials` are what building the manager
-- and reading the Secret may raise; a time is passed in as its formatted text; `outcome` is what the reads
-- of one node of a fleet come to; `discover` is discover_manager_ids; `is_ip_address` is whether Python's
-- ipaddress reads a text; `Managers` and `Invoker` are the registry of commands; `power_on`, `reboot`,
-- `boot_sources` and `fetch_task` are the commands and the wait that boot-one-shot uses; `managed_system_uri`,
-- `fetch_task` and `wait` are what the reset command uses.
--
-- Numbers are natural numbers of any size, as Python's are; JSON numbers with a fraction are left out. Loops
-- are recursion on the list that they run over. `show` writes n in decimal with fuel n, more than its digits.
-- The loops of `fetch_task` and `wait_for` run on fuel, one unit for a poll: with a timeout of n ticks, n + 1 are
-- enough, since a sleep of at least a tick follows each poll. A clock counts in ticks, and that of `wait_for` in
-- milliseconds, in place of seconds with a fraction. A thread of the cache that waits moves on only after a
-- notice; `copy_error` is what a deep copy of a value raises, if it does, and a copy is an equal value else.
--
-- Not modelled: the reads of the manager, vendor managers, the other subcommands, the command line, telemetry
-- and tracing, the HTTP routes of the proxy, network discovery, the endpoint controller, the mock BMC, and settings that are
-- numbers with a fraction. They are input and output for the most part, or a part that stands beside this core.
pub mod Common
pub mod Json
pub mod Policy
pub mod Http
pub mod Action
pub mod Reconcile
pub mod Controller
pub mod Task
pub mod Cache
pub mod Wait
pub mod Config
pub mod Fleet
pub mod Ntp
pub mod Proxy
pub mod Query
pub mod Reset
pub mod Boot
pub mod Bios
