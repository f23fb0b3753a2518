-- ===== src/Router/Graph.antt =====
-- The tables that recalculate builds from the nodes before its search.
pub mod Links
use connectopus.Prelude.{
  ℕ, ◌+◌, ◌≡◌, Bool, true, false, ◌&&◌, Option, none, some, List, [], ◌∷◌, Bytes, ◌==◌, bytes_eq,
  if◌then◌else◌, nat_eq, GoMap, get, put, In,
}
use connectopus.Proto.Ip.{Ip}
use connectopus.Proto.Subnet.{Subnet, contains, subnet_prefix, subnet_ip}
use connectopus.Router.Float.{Cost}

-- proto.RoutingConns and proto.RoutingNodes
abbrev pub RoutingConns : Type 0
RoutingConns = GoMap Subnet Cost

abbrev pub RoutingNodes : Type 0
RoutingNodes = GoMap Ip RoutingConns

-- nodes[node], the missing map being empty
unfoldable pub conns_of : Ip → RoutingNodes → RoutingConns
conns_of node nodes = elim (get node nodes) [ some c ↦ c | none ↦ [] ]

-- for conn, cost := range nodes[node] { if conn.Contains(peer) { interconnect[node][peer] = cost } }
unfoldable pub link_peer : Ip → RoutingConns → GoMap Ip Cost → GoMap Ip Cost
link_peer peer [] links = links
link_peer peer ((conn, cost) ∷ conns) links =
    link_peer peer conns (if contains conn peer then put peer cost links else links)

-- for peer := range nodes { ... }
unfoldable pub link_peers : RoutingNodes → RoutingConns → GoMap Ip Cost → GoMap Ip Cost
unfolding link_peer
link_peers [] conns links = links
link_peers ((peer, _) ∷ nodes) conns links = link_peers nodes conns (link_peer peer conns links)

-- interconnect[node], for a key of nodes and for any other
unfoldable pub interconnect : RoutingNodes → Ip → GoMap Ip Cost
unfolding link_peers
interconnect nodes node = elim (get node nodes) [
  | some conns ↦ link_peers nodes conns []
  | none ↦ []
]

-- subnets[conn][node] = struct{}{}; the inner map is a list of its keys
unfoldable pub add_candidate :
    Subnet → Ip → GoMap Subnet (GoMap Ip Unit) → GoMap Subnet (GoMap Ip Unit)
add_candidate conn node subnets =
    put conn (put node tt (elim (get conn subnets) [ some c ↦ c | none ↦ [] ])) subnets

-- conn.Prefix() == 128 and conn.IP() is a key of nodes
unfoldable pub is_node_route : RoutingNodes → Subnet → Bool
is_node_route nodes conn =
    subnet_prefix conn == 128 && elim (get (subnet_ip conn) nodes) [ some _ ↦ true | none ↦ false ]

unfoldable pub add_subnets_of :
    RoutingNodes → Ip → RoutingConns → GoMap Subnet (GoMap Ip Unit) → GoMap Subnet (GoMap Ip Unit)
unfolding add_candidate is_node_route
add_subnets_of nodes node [] subnets = subnets
add_subnets_of nodes node ((conn, _) ∷ conns) subnets =
    add_subnets_of nodes node conns
      (if is_node_route nodes conn then subnets else add_candidate conn node subnets)

unfoldable pub add_subnets :
    RoutingNodes → RoutingNodes → GoMap Subnet (GoMap Ip Unit) → GoMap Subnet (GoMap Ip Unit)
unfolding add_subnets_of
add_subnets nodes [] subnets = subnets
add_subnets nodes ((node, conns) ∷ rest) subnets =
    add_subnets nodes rest (add_subnets_of nodes node conns subnets)
