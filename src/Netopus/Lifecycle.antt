-- ===== src/Netopus/Lifecycle.antt =====
-- pkg/netopus/netopus.go: New with the callbacks that it starts, Status and LeastMTU.
pub mod Mtu
mod Tests
use connectopus.Prelude.{
  ℕ, ◌+◌, Bool, Option, none, some, List, [], ◌∷◌, Bytes, bytes_eq, nat_eq, ◌==◌, ltb,
  if◌then◌else◌, not, GoMap, get, put, length,
}
use connectopus.Proto.Ip.{Ip, ipv6_len}
use connectopus.Router.Float.{Cost}
use connectopus.Router.Graph.{RoutingConns, RoutingNodes}
use connectopus.Router.Nodes.{new, update_node, nodes_of}
use connectopus.Backends.Registry.{Backends, lookup_backend}
use connectopus.Netopus.Node.{Time, NodeInfo, Session, Netopus, RoutingUpdate}
use connectopus.Netopus.Updates.{is_connected, generate_routing_update, flood_targets}

pub data NewError : Type 0 where
  not_ipv6 stack_error : NewError

pub data Made : Type 0 where
  made : Netopus → Made
  refused : NewError → Made

-- New; `stack` is whether netstack.NewStackDefault succeeds, `now` is UnixNano.
unfoldable pub new_node : Ip → Bytes → Bool → Time → Bool → Made
unfolding new
new_node addr name has_func now stack =
    if not (length addr == ipv6_len)
    then refused not_ipv6
    else if not stack
    then refused stack_error
    else made (record {
      addr = addr;
      name = name;
      router = new addr;
      session_info = [];
      epoch = now;
      sequence = 0;
      known_node_info = [];
      external_routes = [];
      external_names = [];
      config_info = record { config_version = 0; config_data = []; config_signature = [] };
      has_config_func = has_func;
      oob_ports = [];
      update_requests = 0;
    })

-- The function of updateSender: the node, the update and the peers that it is flooded to. none is
-- the panic of UpdateNode.
unfoldable pub send_update : Netopus → Option (Netopus × RoutingUpdate × List Ip)
unfolding generate_routing_update update_node flood_targets
send_update n =
    let (n', ru) = generate_routing_update n in
    elim (update_node n'.addr ru.connections n'.router) [
      | none ↦ none
      | some r ↦ some (record n' { router = r }, ru, flood_targets none n'.session_info)
    ]

-- A policy from the router's broker: an update is requested once for each session.
unfoldable pub on_router_update : Netopus → Netopus
on_router_update n = record n { update_requests = n.update_requests + length n.session_info }

-- proto.Status without the times at which sessions were connected
pub record Status : Type 0 where
  pub name : Bytes
  pub addr : Ip
  pub name_to_addr : GoMap Bytes Bytes
  pub addr_to_name : GoMap Bytes Bytes
  pub router_nodes : GoMap Bytes (GoMap Bytes Cost)
  pub sessions : GoMap Bytes Bool

-- The loops of Status; the two texts are IP.String and Subnet.String.
module _ (ip_string subnet_string : Bytes → Bytes) where
  unfoldable pub names_of : GoMap Ip NodeInfo → GoMap Bytes Bytes → GoMap Bytes Bytes
  names_of [] m = m
  names_of ((k, v) ∷ kn) m = names_of kn (put v.name (ip_string k) m)

  unfoldable pub addrs_of : GoMap Ip NodeInfo → GoMap Bytes Bytes → GoMap Bytes Bytes
  addrs_of [] m = m
  addrs_of ((k, v) ∷ kn) m = addrs_of kn (put (ip_string k) v.name m)

  unfoldable pub status_conns : RoutingConns → GoMap Bytes Cost → GoMap Bytes Cost
  status_conns [] r = r
  status_conns ((k, v) ∷ conns) r = status_conns conns (put (subnet_string k) v r)

  unfoldable pub status_nodes :
      RoutingNodes → GoMap Bytes (GoMap Bytes Cost) → GoMap Bytes (GoMap Bytes Cost)
  unfolding status_conns
  status_nodes [] m = m
  status_nodes ((k, v) ∷ nodes) m = status_nodes nodes (put (ip_string k) (status_conns v []) m)

  unfoldable pub status_sessions : GoMap Ip Session → GoMap Bytes Bool → GoMap Bytes Bool
  status_sessions [] m = m
  status_sessions ((k, v) ∷ s) m =
      status_sessions s (put (ip_string k) (is_connected v.connection_state) m)

  unfoldable pub status : Netopus → Status
  unfolding names_of addrs_of status_nodes status_sessions nodes_of
  status n = record {
    name = n.name;
    addr = n.addr;
    name_to_addr = names_of n.known_node_info (put n.name (ip_string n.addr) []);
    addr_to_name = addrs_of n.known_node_info (put (ip_string n.addr) n.name []);
    router_nodes = status_nodes (nodes_of n.router) [];
    sessions = status_sessions n.session_info [];
  }

-- The loop of LeastMTU over the types of the node's backends
unfoldable pub least_of : {R : Type 0} → Backends R → List Bytes → ℕ → ℕ
unfolding lookup_backend
least_of backends [] mtu = mtu
least_of backends (type ∷ types) mtu =
    least_of backends types (elim (lookup_backend type backends) [
      | none ↦ mtu
      | some spec ↦ if ltb spec.mtu mtu then spec.mtu else mtu
    ])

-- LeastMTU
unfoldable pub least_mtu : {R : Type 0} → Backends R → List Bytes → ℕ → ℕ
unfolding least_of
least_mtu backends types default =
    let mtu = least_of backends types 65535 in if mtu == 65535 then default else mtu
