-- ===== src/Lib.antt =====
-- Connectopus is an overlay network: nodes hold sessions with neighbours, flood routing updates,
-- compute a routing policy from what they know of the mesh, and pass on IPv6 packets and out-of-band
-- messages hop by hop.
--
-- Proto (pkg/proto). Proto/Ip and Proto/Subnet are tcpip.go: an IP is its bytes, a Subnet the network
-- address followed by the mask; ParseIP, Equal, CIDRMask, Prefix, NewSubnet, NewHostOnlySubnet,
-- Contains. Go's net.IPNet.Contains, net.CIDRMask and To4 are written out, net.ParseIP is an argument.
-- Proto/Message is proto.go: Msg.Type, Unmarshal and the byte layout of OOBMessage and
-- RouteOOBMessage. encoding/json is the record Json. Proto/Text is the text of addresses and subnets in
-- JSON and YAML: ParseCIDR, the marshalling methods with their inverses, and the connections of a
-- routing update.
--
-- Router (pkg/router/router.go). Router/Nodes is the router struct with New, UpdateNode, RemoveNode,
-- Nodes and a run of recalculate. recalculate is built from Router/Graph (the tables interconnect and
-- subnets), Router/Search (the loop over the priority queue) and Router/Policy (host routes, subnet
-- routes, the comparison with the old policy). Router/NextHop is NextHop. Router/Delivers puts them
-- together. A Go map is an association list whose order is the order of `range`, so the theorems hold
-- for every order. A float32 is its place in the order of the floats (Router/Float); addition is the
-- argument Adder, whose laws say that rounding keeps the order. The priority queue of
-- github.com/jupp0r/go-priority-queue is the argument Queue, of which only membership and length are
-- used, since its Insert leaves the priority of a queued element as it is. The time runner counts
-- requests and the broker is the list of what was published.
--
-- The loop of recalculate runs on fuel `budget`: twice the sum of the labels and the length of the
-- queue, which each round lowers, so that it is enough for every input (Router.Search.Loop). The walk
-- back along prev has one step more than there are nodes; on a mesh it ends before (Router.Policy).
--
-- Netopus (pkg/netopus/netopus.go). Netopus/Node is the netopus struct, with the fields of a session
-- that the node's methods read. Netopus/Updates: generateRoutingUpdate, handleRoutingUpdate, one
-- update of routeReader, floodRoutingUpdate, one round of monitorDeadNodes, UpdateConfig,
-- checkConfigsConverged, WaitForConfigConvergence. Netopus/Packets: SendPacket, sendICMPv6Error,
-- SendOOB, sendRoutingOOB, where a write to a session is a value; gvisor's header package is the record Header. SendPacket runs on
-- fuel, since it sends ICMPv6 errors by SendPacket; three units are enough. Netopus/Names: external
-- routes and names, LookupName, LookupIP. Netopus/Sessions: sendInit, initSelect, mainSelect,
-- protoLoop and RunProtocol as steps on all sessions and sessionInfo, in every order; a step is one run
-- of a select or what a goroutine does between two waits, and Netopus/Node keeps of a session only what
-- the node's methods read. Netopus/Ports is pkg/netopus/oob_conn.go: NewOOBPacketConn, ReadFrom,
-- WriteTo, Close. Netopus/Lifecycle: New with the functions that it starts, Status and LeastMTU. Every
-- external route has a function, and the time is an argument; a 64-bit sequence number and the 8-bit hop count wrap around.
--
-- Backends (pkg/backends/backends.go): the waits of RunDialer and the loop of RunListener.
-- Backends/Tcp is backend_tcp/backend_tcp.go: WriteMessage and ReadMessage on a stream of bytes, whose
-- reads arrive in any pieces, backendReadLoop of netopus on it, and in Backends/Tcp/Config the TLS
-- settings of DialerFromConfig and ListenerFromConfig. Backends/Dtls is backend_dtls/backend_dtls.go,
-- whose messages are datagrams. Backends/Settings is what both share: a chain of checks that each may
-- refuse a parameter. Backends/Registry is backend_registry: LookupBackend, RunBackend, and
-- the functions that init registers, with the error of Run, which is an argument.
-- backendReadLoop runs on fuel; one round more than there are messages is enough.
--
-- Config (pkg/config). Config is params.go, the accessors of Params; net and strconv are the record
-- Text. Config/Node is config.go: the types, ExpandFilename and FindDataDirs.
--
-- Instance (pkg/connectopus/connectopus.go). Instance/Signed: ParseAndCheckConfig and LoadConfig;
-- Instance/Signing: SignConfig. Instance/Start: RunNode up to the node's start, with the data
-- directory that it takes; a restart by the reconciler of golib is a step that calls Start again. Instance/Update: NewConfig on a running node, and the comparison that
-- decides whether the node is started again. Instance/Children: the children of a NodeCfg.
-- Instance/Items: ParentEqual of each kind of child, and the start of the name server.
-- Instance/Links: the start and stop of a tunnel device or a name space, with the registry of
-- pkg/links/netns/registry.go. The SSH agent, YAML, the file system and the clock are arguments.
--
-- Dns (pkg/dns/dns.go): the two handlers, for the names of the domain and for ip6.arpa. Services
-- (pkg/services/services.go): the start of a service and the waits of its accept loop. Control
-- (pkg/cpctl/cpctl_resolver.go): the queries Netns, Status, Config and the mutation UpdateConfig.
--
-- Prelude holds Boolean tests, lists and maps over the native numbers with their lemmas. The tests
-- and samples are in Samples and Tests of each part.
--
-- Not modelled: backend_pair and the channel runner, which only move values between goroutines; the
-- tunnel and name space devices of pkg/links and the network stack, which call the operating system
-- and gvisor; KCP, which carries streams over the out-of-band ports; the command line, the control
-- server and client, the local user interface and the generated GraphQL code, which delegate to
-- libraries; RandomSubnet, which draws bytes; deadlines of an out-of-band port; the
-- goroutines, since each operation holds the lock of the state that it changes.
pub mod Prelude
pub mod Proto
pub mod Router
pub mod Netopus
pub mod Backends
pub mod Config
pub mod Instance
pub mod Dns
pub mod Services
pub mod Control
