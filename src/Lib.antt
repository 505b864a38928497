-- ===== src/Lib.antt =====
-- A verification library for the controllers and the command of openshift-update-experience.
--
-- The program watches the nodes, machine-config pools, cluster operators and the cluster version of
-- an OpenShift cluster and publishes, for each of them, an insight that says how far its update is.
-- A central controller evaluates nodes and keeps a state for each; it tells downstream controllers
-- of new states over two bounded channels, and the pools' controller aggregates the states of a
-- pool's nodes. Another controller writes a node's state to its insight; an older one evaluates the
-- nodes by itself. The controllers of cluster operators and of the cluster version read their objects
-- alone, and the latter also keeps the health insights. The command `oc-update-status` shows the insights.
--
-- Which file models which part:
--   * Mco: internal/mco, the view of a node that the machine-config operator has. `LayeredNodeState`
--     collects reasons while its checks run, so every check returns it beside its answer.
--   * NodeState.Conditions, Assess: internal/controller/nodestate/conditions.go and assess.go.
--     `determine_conditions` is `DetermineConditions`, cut into the parts that build the three
--     conditions, the message and the list; `evaluate_node` is `EvaluateNode`.
--   * NodeState.State, Fnv, States, Caches: state.go and caches.go beside them. A `sync.Map` is an
--     association list; its order is the order in which `Range` visits the entries, which Go leaves
--     open, so what holds of every list holds of every order.
--   * NodeState.Channel, Controller: impl.go beside them. The controller is a record that the
--     operations return; what the client answers to reads, and what a `select` finds and picks, are
--     arguments. A send on a closed channel ends in `panicked`. Controller.System has the steps that
--     the controller takes among its callers, in any order, and the states that they reach.
--   * Nodes: internal/controller/nodes/impl.go, whose `Reconciler` has caches of its own, and
--     internal/controller/nodeprogressinsight_controller.go (Provided), whose provider is the central
--     controller. Agreement and Writes set the two ways to keep an insight side by side.
--   * Pools, Operators, Versions: internal/controller/machineconfigpools,
--     internal/controller/clusteroperators with internal/clusteroperators, and
--     internal/controller/clusterversions with internal/clusterversions. A `Reconcile` returns the
--     writes that it makes and its outcome (Client). Versions.Float is what the cluster version's
--     estimate, and a pool's percentage in the command, need of a float64, an interface with laws
--     that IEEE 754 gives.
--   * Health: `reconcileHealthInsights`, `forcedHealthInsight` and `nameForHealthInsight` of
--     internal/controller/clusterversions. The cluster's health insights are a map from names to
--     statuses, which the calls change if they are answered well; the MD5 sum is a parameter, and so
--     is the order in which a set of names is walked.
--   * Cli: cmd/oc-update-status, nodes.go (Nodes, NodeTable), workerpools.go (Pools) and
--     controlplane.go (ControlPlane); the command's versions are in Versions.Updating.
--   * Api: api/v1alpha1. Cluster and Mco.Objects: the fields of the cluster's objects that are read.
--   * Meta: the part of k8s.io/apimachinery that the program uses. `meta.SetStatusCondition` and
--     `meta.FindStatusCondition` are an interface, `ConditionsApi`, with their documented behaviour
--     as its laws; label selectors are the interface `SelectorApi`, and go-cmp's comparison is a
--     parameter. Examples.Data and Examples.FixedPoint give instances of them.
--   * Prelude: Boolean tests, lists, texts and signed integers. Examples: the theorems at work on
--     concrete inputs.
--
-- Numbers: an instant is a number of nanoseconds after Go's zero time, an int32 or int64 is kept as
-- its bit pattern below 2 ^ 32 or 2 ^ 64, and the sums and products that may wrap are written with
-- the remainder; a duration is a signed integer within an int64, and Go's rounding and saturation are
-- written out. No definition needs fuel: every loop is over a list and is structural recursion.
--
-- Not modelled: metrics, logging, the wiring with controller-runtime, generated code, flags and files
-- of the command, its mock resources, and the texts of durations and the layout of its tables.
pub mod Prelude
pub mod Meta
pub mod Mco
pub mod Api
pub mod Cluster
pub mod NodeState
pub mod Nodes
pub mod Pools
pub mod Client
pub mod Cli
pub mod Operators
pub mod Versions
pub mod Health
pub mod Examples
