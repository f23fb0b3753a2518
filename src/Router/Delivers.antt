-- ===== src/Router/Delivers.antt =====
-- The router as a whole: after a recalculation NextHop answers by cheapest walks.
use connectopus.Prelude.{
  ◌≤◌, ◌≡◌, ◌≢◌, ap, sym, ◌∙◌, ◌⊎◌, inl, inr, none, some, [], bytes_eq, get, keys, get-keys,
  keys-get, Distinct, In,
}
use connectopus.Proto.Ip.{Ip}
use connectopus.Proto.Subnet.{Subnet, new_host_only_subnet}
use connectopus.Proto.Subnet.Contains.{IsIpv6}
use connectopus.Proto.Subnet.Cidr.{IsCidr, host_only-IsCidr}
use connectopus.Router.Float.{Cost, max_cost, Adder}
use connectopus.Router.Queue.{Queue}
use connectopus.Router.Graph.{RoutingConns, RoutingNodes, interconnect}
use connectopus.Router.Graph.Links.{IsNetwork}
use connectopus.Router.Search.Labels.{Walk}
use connectopus.Router.Policy.{RoutingPolicy}
use connectopus.Router.Policy.FirstHop.{WalkVia}
use connectopus.Router.Policy.Correct.{RouteOf, new_policy_routes}
use connectopus.Router.Policy.Keys.{Keeps-new_policy}
use connectopus.Router.Nodes.{Router, run_recalculate}
use connectopus.Router.Nodes.Table.{run_recalculate_uses}
use connectopus.Router.NextHop.{next_hop}
use connectopus.Router.NextHop.Delivery.{IsTable, next_hop_host}

-- Nodes with IPv6 addresses that announce CIDR subnets at costs that are not negative.
pub record IsMesh (nodes : RoutingNodes) : Type 0 where
  pub network : IsNetwork nodes
  pub address : (v : Ip) → In v (keys nodes) → IsIpv6 v
  pub announced :
      (v : Ip) (conns : RoutingConns) (k : Subnet)
      → In (v, conns) nodes
      → In k (keys conns)
      → IsCidr k

-- What NextHop answers for a node: the first hop of a cheapest walk, or, where there is no host
-- route, every walk costs at least MaxFloat32.
abbrev pub Delivers : Adder → Ip → RoutingNodes → RoutingPolicy → Ip → Type 0
Delivers float my nodes policy dest =
    ((p : Ip) × (next_hop policy dest ≡ some p)
      × (c : Cost) × WalkVia float (interconnect nodes) my p dest c
      × ((d : Cost) → Walk float (interconnect nodes) my dest d → c ≤ d))
    ⊎ (get (new_host_only_subnet dest) policy ≡ none)
      × ((d : Cost) → Walk float (interconnect nodes) my dest d → max_cost ≤ d)

Delivers-of :
    (float : Adder) (my : Ip) (nodes : RoutingNodes) (policy table : RoutingPolicy) (dest : Ip)
    → IsTable table
    → IsIpv6 dest
    → get (new_host_only_subnet dest) table ≡ get (new_host_only_subnet dest) policy
    → RouteOf float my nodes policy dest
    → Delivers float my nodes table dest
Delivers-of float my nodes policy table dest t d same (inl (p, g, c, w, least)) =
    inl (p, next_hop_host table dest p t d (same ∙ g), c, w, least)
Delivers-of float my nodes policy table dest t d same (inr (g, far)) = inr (same ∙ g, far)

-- On a mesh a run of recalculate returns and leaves the nodes alone. After it the policy holds each
-- subnet once, CIDR subnets only, and for every other node NextHop answers with the first hop of a
-- cheapest walk, or no walk to it costs less than MaxFloat32.
pub recalculate-Delivers :
    (float : Adder) (queue : Queue) (r : Router)
    → IsMesh r.nodes
    → r.my_addr ≢ []
    → Distinct (keys r.policy)
    → (r' : Router) × (run_recalculate float queue r ≡ some r')
      × (r'.nodes ≡ r.nodes)
      × IsTable r'.policy
      × ((dest : Ip)
          → In dest (keys r.nodes)
          → dest ≢ r.my_addr
          → Delivers float r.my_addr r.nodes r'.policy dest)
recalculate-Delivers float queue r mesh named d =
    let (r', sent, run, made, _, kept, which, same) =
      run_recalculate_uses float queue r mesh.network named d in
    let (policy, found, routes) =
      new_policy_routes float queue r.my_addr r.nodes mesh.network named in
    let new : policy ≡ sent = cc in
    let keeps =
      Keeps-new_policy IsCidr float queue r.my_addr r.nodes sent
        (λ v m. host_only-IsCidr v (mesh.address v m)) mesh.announced made in
    let table : IsTable r'.policy = record {
      distinct = elim which [ inl old ↦ rw old d | inr fresh ↦ rw fresh keeps.0 ];
      cidr = λ k m.
          let (p, g) = get-keys k r'.policy m in keeps.1 k (keys-get k p sent (sym (same k) ∙ g));
    } in
    (
      r',
      run,
      kept,
      table,
      λ dest m other.
          Delivers-of float r.my_addr r.nodes policy r'.policy dest table (mesh.address dest m)
            (same (new_host_only_subnet dest) ∙ ap (get (new_host_only_subnet dest)) (sym new))
            (routes dest m other),
    )
