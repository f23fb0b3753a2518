-- ===== src/Router/Policy/Correct.antt =====
-- The new policy as a whole: its host routes, and that it is always computed.
use Prim.Native.Nat.{suc}
use connectopus.Prelude.{
  ℕ, ◌≤◌, ◌≡◌, ◌≢◌, refl, ◌∙◌, ◌⊎◌, inl, inr, none, some, [], bytes_eq, length, get, keys, In,
  Option-cases,
}
use connectopus.Proto.Ip.{Ip}
use connectopus.Proto.Subnet.{new_host_only_subnet}
use connectopus.Router.Float.{Cost, max_cost, Adder}
use connectopus.Router.Queue.{Queue}
use connectopus.Router.Graph.{RoutingNodes, interconnect, add_subnets}
use connectopus.Router.Graph.Links.{IsNetwork, interconnect-IsGraph}
use connectopus.Router.Search.{Search}
use connectopus.Router.Search.Labels.{IsGraph, Walk}
use connectopus.Router.Search.Shortest.{IsFinal, search_shortest, search-IsFinal, label-le}
use connectopus.Router.Policy.{
  RoutingPolicy, first_hop, host_routes, subnet_routes, policy_of, new_policy,
}
use connectopus.Router.Policy.FirstHop.{
  WalkVia, first_hop_returns, first_hop-WalkVia, first_hop-none,
}
use connectopus.Router.Policy.Hosts.{
  AllIpv6-of, host_routes_returns, get-host_routes-some, get-host_routes-none,
}
use connectopus.Router.Policy.Subnets.{get-subnet_routes_host}

-- The route of a node other than `my`: the first hop of a cheapest walk, or none, if every walk
-- costs at least MaxFloat32.
abbrev pub RouteOf : Adder → Ip → RoutingNodes → RoutingPolicy → Ip → Type 0
RouteOf float my nodes policy dest =
    ((p : Ip) × (get (new_host_only_subnet dest) policy ≡ some p)
      × (c : Cost) × WalkVia float (interconnect nodes) my p dest c
      × ((d : Cost) → Walk float (interconnect nodes) my dest d → c ≤ d))
    ⊎ (get (new_host_only_subnet dest) policy ≡ none)
      × ((d : Cost) → Walk float (interconnect nodes) my dest d → max_cost ≤ d)

module _ (float : Adder) (queue : Queue) (my : Ip) (nodes : RoutingNodes) (n : IsNetwork nodes)
    (named : my ≢ []) (s : Search float queue)
    (f : IsFinal float queue (interconnect nodes) my (keys nodes) s) where
  abbrev fuel : ℕ
  fuel = suc (length (keys nodes))

  graph : IsGraph (keys nodes) (interconnect nodes)
  graph = interconnect-IsGraph nodes n

  hosts_returned :
      (hosts : RoutingPolicy) × (host_routes fuel s.prev my (keys nodes) [] ≡ some hosts)
  hosts_returned = elim (Option-cases (host_routes fuel s.prev my (keys nodes) [])) [
    | inl out ↦ absurd (
        host_routes_returns fuel s.prev my (keys nodes) []
          (first_hop_returns float queue (interconnect nodes) my (keys nodes) graph s f named) out)
    | inr found ↦ found
  ]

  policy_of-hosts :
      (hosts : RoutingPolicy)
      → host_routes fuel s.prev my (keys nodes) [] ≡ some hosts
      → policy_of float queue my nodes s
        ≡ some (subnet_routes s.cost (add_subnets nodes nodes []) hosts)
  unfolding policy_of
  policy_of-hosts hosts e = rw (e, policy_of)

  route_of :
      (hosts : RoutingPolicy) (dest : Ip)
      → host_routes fuel s.prev my (keys nodes) [] ≡ some hosts
      → In dest (keys nodes)
      → dest ≢ my
      → RouteOf float my nodes (subnet_routes s.cost (add_subnets nodes nodes []) hosts) dest
  unfolding get
  route_of hosts dest e m other =
      let l = n.address dest m in
      let all = AllIpv6-of (keys nodes) n.address in
      let kept = get-subnet_routes_host s.cost nodes dest hosts l m in
      let least = λ (d : Cost) (w : Walk float (interconnect nodes) my dest d).
        label-le float queue (interconnect nodes) my (keys nodes) graph s f w in
      elim (Option-cases (first_hop fuel s.prev my dest)) [
        | inl out ↦ absurd (
            first_hop_returns float queue (interconnect nodes) my (keys nodes) graph s f named dest
              out)
        | inr (r, a) ↦ elim (Option-cases r) [
          | inr (p, b) ↦
              let c = rw b at a in
              inl (
                p,
                kept
                    ∙ get-host_routes-some fuel s.prev my dest p (keys nodes) [] hosts l all c
                        (inr m) e,
                s.cost dest,
                first_hop-WalkVia float queue (interconnect nodes) my (keys nodes) graph s f named
                    fuel dest p c,
                least,
              )
          | inl b ↦
              let c = rw b at a in
              let far =
                first_hop-none float queue (interconnect nodes) my (keys nodes) graph s f named fuel
                  dest m other c in
              inr (
                kept
                    ∙ get-host_routes-none fuel s.prev my dest (keys nodes) [] hosts l all c refl e,
                λ d w. rw (← far) (least d w),
              )
        ]
      ]

-- On nodes with IPv6 addresses and costs that are not negative, recalculate computes a policy. For
-- every node other than this one the policy either routes to the first hop of a cheapest walk to
-- it, or has no route, and then every walk to it costs at least MaxFloat32.
pub new_policy_routes :
    (float : Adder) (queue : Queue) (my : Ip) (nodes : RoutingNodes)
    → IsNetwork nodes
    → my ≢ []
    → (policy : RoutingPolicy) × (new_policy float queue my nodes ≡ some policy)
      × ((dest : Ip) → In dest (keys nodes) → dest ≢ my → RouteOf float my nodes policy dest)
unfolding new_policy
new_policy_routes float queue my nodes n named =
    let g = interconnect-IsGraph nodes n in
    let (s, found, _, _) = search_shortest float queue (interconnect nodes) my (keys nodes) g in
    let f = search-IsFinal float queue (interconnect nodes) my (keys nodes) g s found in
    let (hosts, e) = hosts_returned float queue my nodes n named s f in
    (
      subnet_routes s.cost (add_subnets nodes nodes []) hosts,
      rw (found, new_policy) (policy_of-hosts float queue my nodes n named s f hosts e),
      λ dest m other. route_of float queue my nodes n named s f hosts dest e m other,
    )
