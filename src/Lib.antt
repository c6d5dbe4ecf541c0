-- ===== src/Lib.antt =====
-- Verification library of the cloud-native emulator.
--
-- A controller (controller/) turns a template, which is a graph of roles with load formulas, into
-- Kubernetes objects. It resolves the signal x of every role, writes each role's configuration to
-- a ConfigMap, waits for the pods, assigns to each source pod the port at which it may connect,
-- and shapes the links between the tiers' nodes. The workers (worker/) read their configuration
-- and generate the load. While a scenario runs, a thread of the controller moves x from phase to
-- phase.
--
-- Prelude: what the modules share. Texts with their order (Prelude/Text, Prelude/Order), lists
-- over the native numbers (Prelude/Lists), Python's sorted (Prelude/Sort), int (Prelude/Int),
-- float (Prelude/Float), dict (Prelude/Dict) and set (Prelude/Sets), and calls that may raise
-- (Prelude/Result). A float is a parameter: a type with the operations that the code calls, of
-- which no law is assumed unless a theorem names it. A dict is an association list in insertion
-- order. The order in which a set is iterated is a parameter too. Json: parsed documents.
--
-- Template: the template dict, after controller/materialiser.py has checked it, as a record.
--
-- Propagation: _source_x_fn and _compute_resolved_x of controller/materialiser.py. Kahn is the
-- state of the loop; release, visit and drain are the inner body, the outer body and the loop.
-- The fuel of the loop is the number of roles, and the theorems show it is enough.
--
-- Peers: compute_peers and _compute_fanin (Peers/Services), _get_endpoint_pods and
-- _wait_for_endpoint_pods (Peers/Endpoints) and _resolve_peer_ips (Peers/Offsets, Peers/Resolve)
-- of controller/materialiser.py. What the cluster answers is an argument. The search for an
-- offset runs on fuel: one more than the largest offset in use on a target, which is never taken.
--
-- Runner: controller/runner.py. A run is a list of ticks, each with the minutes elapsed and with
-- whether a call of patch_system_x would come back; Runner/Registry has start and stop, which
-- keep one runner.
--
-- Scenario: the runtime_scenarios of a topology in controller/materialiser.py, their check
-- (_validate_runtime_scenarios, _validate_phase_x) and the timeline that Runner takes
-- (scenario_x_timeline). The check compares the numbers of the document, the timeline has floats.
--
-- Links: _parse_rtt_us, validate_latency, _parse_rate and validate_bandwidth of
-- controller/linkspec.py, on JSON values, with the two regular expressions read over code points.
-- The loops of the two validators are one definition, which takes the reading of a value.
--
-- Shaping: controller/netem.py without the execution on the nodes: nodes_by_tier is
-- _nodes_by_tier, shape_script is _shape_script with a command for each line of the script, and
-- apply_links is _apply. The class ids are 10 and up; the handles of their delays, which are the
-- digits of the class and a 0, have four digits while a node has at most 990 peers. A delay is
-- shown with six digits, as :g writes it; which way a tie goes is part of the floats.
--
-- Merge: _deep_merge (Merge), _expand_dot_keys and the pure part of patch_template (Merge/Dots) of
-- controller/materialiser.py, on JSON values. The functions are structural on the patch.
--
-- Validation: validate_template of controller/materialiser.py, on a JSON document, and the role
-- graph that is read from one.
--
-- Cluster: what controller/materialiser.py asks of the Kubernetes API: _apply and _unpin_node
-- (Cluster), _render_role and _role_config (Cluster/Roles), materialise with its three phases
-- (Cluster/Materialise), list_managed, get_managed, get_topology_doc and patch_template
-- (Cluster/Managed), teardown (Cluster/Teardown) and patch_system_x (Cluster/SystemX), and
-- _nodes_by_tier of controller/netem.py (Cluster/Nodes). Which Endpoints are read, and what the
-- reads come to, is an argument. A
-- computation takes the requests made so far to its result and the requests made then; the API
-- server is a function of these, and nothing is assumed of it but what a theorem names. The paths
-- of requests are modelled by their parts.
--
-- Topology: the documents of the newer schema in controller/materialiser.py: the checks of
-- validate_topology with _validate_app_load (Topology), _sanitize_name (Topology/Names),
-- translate_topology with _app_loads and _initial_x (Topology/Translate), and the translated dict
-- as a document with the rest of validate_topology (Topology/Document), and check_sites and
-- materialise_topology over the API server of Cluster (Topology/Sites). What the checks read is a
-- record, from which the translation is made; str() of a value and round() are arguments.
--
-- App: the handlers of controller/app.py that write (POST, PATCH and DELETE of /template), over
-- the names of the templates with ConfigMaps in the cluster and the running scenario.
--
-- Worker: worker/loads.py. Worker/Servers has _spawn_server, _recycle_server_locked and one pass of
-- _server_recycler, over processes that are numbered as they are spawned; what the pass reads of
-- the system is an argument. Worker/Ram has start_ram with its buffer as a size.
-- Worker/Cpu has _cpu_cmd, start_cpu and stop_cpu: which process makes the load, and with what
-- arguments; the two divisions with their rounding are arguments. Worker/Watcher has the debounce of
-- worker/watcher.py, with every timer that was started.
-- Worker/Config has _validate and _load_and_apply of worker/watcher.py and what configure of
-- worker/worker.py reads. Worker/Network has start_network, stop_current and configure: the state
-- is the worker's processes, servers, clients and buffer, and STATE. It stands on Worker/Servers
-- and Worker/Cpu; Worker/Network/Reach joins it to the wiring of Peers. Worker/Feedback has
-- _adjust_ram and _adjust_cpu of worker/metrics.py on that state.
--
-- Not modelled: the text of messages and of log lines, HTTP and Kubernetes requests as such, JSON
-- as text, code points beyond ASCII in durations and rates, threads other than as sequences of
-- their steps, the rest of the workers, and the parts of the program that draw, measure or provision
-- (controller/graph.py, controller/prom.py, provision/).
pub mod Prelude
pub mod Json
pub mod Template
pub mod Samples
pub mod Propagation
pub mod Peers
pub mod Runner
pub mod Links
pub mod Shaping
pub mod Worker
pub mod Merge
pub mod Scenario
pub mod Validation
pub mod Cluster
pub mod Topology
pub mod App
