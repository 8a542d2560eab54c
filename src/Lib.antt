-- ===== src/Lib.antt =====
-- k8slan: virtual layer 2 LANs between the pods of a Kubernetes cluster.
--
-- A user creates a LAN resource. The operator's webhooks fill in defaults and check it, and the
-- operator's controller creates two network attachments for each spoke, one for pods (veth) and one
-- for virtual machines (macvtap). On each node a daemon registers itself on the LAN by a finalizer
-- and tells the device plugin about it by a channel; the device plugin offers the two resources of
-- each spoke, and makes the bridge, the VXLAN link and the spoke's links when a pod asks for one. When
-- the LAN is deleted, each daemon removes the LAN's network namespace, tells the device plugin, and
-- takes its finalizer back. A CNI plugin moves a spoke's veth link into its pod.
--
-- Parts, in the order of the files:
--   Base          Shared types: equality, lists, results with Go's panic as a third outcome, maps as
--                 association lists, texts as bytes, integers, `path.Join`, and actions on the system.
--   Netip         `netip.ParseAddr`, `IsMulticast` and `Compare` of Go's standard library, as the checks
--                 use them.
--   Lan           api/v1beta1/lan_types.go. Lan/Validation is `Validate`, Lan/Names the names of
--                 resources, Lan/Nads is `GetNADs`.
--   Webhook       internal/webhook/v1beta1/lan_webhook.go.
--   Controller    internal/controller/lan_controller.go; the Kubernetes client is the parameter of
--                 Controller/Api.
--   Interfaces    pkg/interfaces: Namespace is ns.go and del.go, Vxlan is vxlan.go, Macvtap and Apply are
--                 apply.go. The operating system (System) and netlink (Netlink) are parameters; Returns
--                 names those whose calls end with a result or an error and those whose `NetNS.Do` runs
--                 its function, Kernel those that keep the names of links.
--   Daemon        `LANReconciler` of dset/main.go; the client is the parameter of Daemon/Api, and what
--                 was sent on the two channels is a part of the state. Daemon/Deletion has the daemons
--                 of several nodes.
--   DevicePlugin  pkg/deviceplugin: Lister is lister.go, whose `select` is the step relation of
--                 Lister/Race; Plugin is plugin.go; Channels is the daemon and the lister over the two
--                 channels that `main` of dset/main.go makes, beside a plugin manager that receives what
--                 `report` sends; Allocation is the lister, a plugin and
--                 `Ensure` together.
--   Cni           cni/k8slanveth/main.go; the CNI libraries and the IPAM plugin are the parameter of
--                 Cni/Ipam.
--   DeepCopy      api/v1beta1/zz_generated.deepcopy.go, over a store of cells that pointers, maps and
--                 slices refer to. The structs of `metav1` are parameters.
--   Startup       cmd/main.go (Options, Operator), `main` of dset/main.go (Node), and what registers the
--                 webhook and the controllers. controller-runtime, the device plugin manager and the
--                 process are the parameter of Startup/Runtime, whose field for the device plugins takes
--                 what the lister is made of. `os.Exit(1)` is an error result of `main`.
--   Tests         Runs at the README's LAN, over small servers.
--
-- A pointer is an `Option`, and following nil is the outcome `panic`. A map of Go has no order: where
-- the program ranges over one, the model takes the order of its list. The models have no fuel but for
-- printing a number, where a digit goes with each round and the number itself is enough. Integers are
-- ℤ of Base/Int where the program has int or int32, which it only compares and prints; the
-- conversion to uint32 in Vxlan wraps.
--
-- Not modelled: log messages and the options of the logger, pauses, the parsing of the flags (the model
-- takes their values), `makeFinalizerPatch` of dset/main.go, which nothing calls, and `main` of
-- cni/k8slanveth/main.go, which only names the commands to the CNI library.
pub mod Base
pub mod Netip
pub mod Lan
pub mod Webhook
pub mod Controller
pub mod Interfaces
pub mod Daemon
pub mod DevicePlugin
pub mod Cni
pub mod DeepCopy
pub mod Startup
pub mod Tests
