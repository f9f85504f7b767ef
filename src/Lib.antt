-- ===== src/Lib.antt =====
-- faasd with a peer-to-peer catalog: a node runs functions in containers, tells its peers what it
-- runs, and sends a request to a peer where that is faster.
--
-- Catalog (pkg/provider/catalog). The catalog of a node is a map of nodes, a map of functions and
-- a ranking of the nodes. Catalog/Types has the data of catalog.go; Catalog/Local and
-- Catalog/Cluster the operations of catalog_local_level.go and catalog_cluster_level.go, under
-- the names of the source (AddAvailableFunctions is add_available_functions); Catalog/Gossip the
-- messages of info_room.go, Catalog/Stream the first message of a peer; Catalog/Rank the clients
-- and the ranking of faas_client.go; Catalog/Startup what cmd/provider.go (initSelfCatagory) and
-- p2p.go write to the catalog at the start. Catalog/Invariant states when a catalog is
-- consistent, and Catalog/Reach has the operations, as the source calls them, as the steps of a
-- relation.
--
-- Handlers (pkg/provider/handlers). Handlers/Server has the state that a handler sees: the
-- catalog, the reply, the goroutines it started, and a world for containerd, the network and the
-- disk. Handlers/Namespaces is mutate_namespaces.go, Handlers/Scale is scale.go,
-- Handlers/Lifecycle is deploy.go, update.go and delete.go, and Handlers/Trigger is trigger.go:
-- the choice of a node, the proxied request (Trigger/Proxy), the handler and its goroutines
-- (Trigger/Handler). They use the catalog by its operations. Handlers/Sessions runs requests,
-- goroutines and messages of peers one after the other. A goroutine that scale.go, trigger.go
-- or deploy.go starts is recorded with the server, and runs as a step of its own.
--
-- Handlers/Specification is the specification of a container: what deploy.go writes into it and
-- functions.go reads back, a child for labels, environment, secrets and memory each.
-- Handlers/Functions is functions.go, Handlers/Deploying the rest of deploy.go, with the record of
-- operations that Handlers/Lifecycle takes made of them; the polling for a function has eleven
-- ticks, those before its time-out. Handlers/Secrets is secret.go,
-- Handlers/Reading is read.go, replicas.go and namespaces.go, Handlers/Resolving is
-- invoke_resolver.go.
--
-- Runtime (pkg/service, pkg/cninetwork). The client of containerd, the CNI library and the disk
-- are records of calls over a world. Runtime/Network is cni_network.go, Runtime/Service is
-- service.go: tasks (Service/Running and Service/All for what runs after a supervision),
-- Service/Removal for the removal, Service/Images for images. Catalog/Polling is the loop of
-- catalog_local_level.go that supervises the functions of the node by them, and Catalog/Discovery
-- is discovery.go with the subscription of a room of info_room.go.
--
-- Proxy (pkg/proxy.go, pkg/local_resolver.go). The polls of the resolver are a list, which ends
-- with the one after which the time is over.
--
-- Depgraph (pkg/depgraph). The nodes of a graph live in a heap, a function from pointers.
-- Depgraph/Services is pkg/deployment_order.go, which builds the graph of the services.
--
-- How code is modelled (Effects). Code that changes a shared object is a function from the state
-- to an outcome and a state; the outcome is a value, a panic (nil dereference, slice bounds) or a
-- block (a send on a nil channel, or a receive of what nobody sends). The state outlives a panic, since the HTTP server recovers it.
-- A Go map is an association list, in the order in which a loop happens to visit it. A pointer in
-- the map of nodes is read and written through its key. Each operation runs to its end before the
-- next: data races between goroutines are not modelled.
--
-- Numbers. uint64 counts of replicas are natural numbers with the wrap-around modulo 2^64 written
-- out. Execution times, which the source keeps in int64 milliseconds, are natural numbers. Every
-- loop is over a finite list, but for the recursion of depgraph's resolve, which runs on fuel: a
-- graph without a cycle needs one more than its greatest rank; the attempts to connect to a peer
-- and the polls for a deployment, which the source bounds; and the digits of a number, for which
-- one more than the number is enough. ParseInt's bounds and the wrap-around of uint32 are written
-- out in Proxy.
--
-- Calls that may fail (Effects/Calls) are functions from a world to a result and a world; an error
-- is kept as whether it says that something was not found, which is all that the program looks at.
--
-- Parameters. JSON is parsed outside (a text that does not parse is none); the pinger and the
-- files with the configuration of a peer are functions; the namespace service of containerd, the
-- SDK and the deployment of containers on the node and the proxied request are the fields of
-- records; the operations of float64 are a record, and the weighted choice of the weightedrand
-- package is a function that may fail, of which one theorem takes as a hypothesis that it returns
-- one of the choices it was given; another takes what containerd says of a SetLabel that returns no
-- error, and leaves the errors open. The theorems
-- on containers take what containerd and CNI document of their calls: which of them change the
-- containers, the status of a task or the options kept, and how (IsRuntime, IsContainers, IsEngine,
-- IsRegistry and Stores), each with a concrete node in Tests. None says of the environment of a
-- container how containerd merges it with that of its image.
--
-- Not modelled: the headers that the trigger handler copies, the mdns mode of the discovery, which
-- is not selected, the supervisor, the logs, the configuration of CNI, systemd and the commands,
-- and the loop of the proxy that copies bytes, which are calls of libraries and of the system; and
-- the libraries under vendor.
pub mod Prelude
pub mod Effects
pub mod Runtime
pub mod Catalog
pub mod Handlers
pub mod Depgraph
pub mod Proxy
pub mod Tests
