-- ===== src/Router/Policy/Subnets.antt =====
-- The routes of the subnets that nodes announce.
use connectopus.Prelude.{
  ◌≡◌, ◌≢◌, refl, sym, ◌∙◌, inl, inr, true, false, [], ◌∷◌, bytes_eq, ◌==◌, length, GoMap, get, put,
  keys, keys-put, get-keys, get-put_ne, In, In-cons, not-In-nil, Bool-cases,
}
use connectopus.Proto.Ip.{Ip}
use connectopus.Proto.Subnet.{Subnet, new_host_only_subnet}
use connectopus.Proto.Subnet.Contains.{host_only-prefix, host_only-halves}
use connectopus.Router.Float.{Cost, max_cost}
use connectopus.Router.Graph.{
  RoutingConns, RoutingNodes, is_node_route, add_candidate, add_subnets_of, add_subnets,
}
use connectopus.Router.Policy.{RoutingPolicy, best_candidate, subnet_routes}

-- No key of the map is the host route of a node.
abbrev NoNodeRoute : RoutingNodes → GoMap Subnet (GoMap Ip Unit) → Type 0
NoNodeRoute nodes subnets = (k : Subnet) → In k (keys subnets) → is_node_route nodes k ≡ false

add_subnets_of-NoNodeRoute :
    (nodes : RoutingNodes) (node : Ip) (conns : RoutingConns)
    (subnets : GoMap Subnet (GoMap Ip Unit))
    → NoNodeRoute nodes subnets
    → NoNodeRoute nodes (add_subnets_of nodes node conns subnets)
unfolding add_subnets_of add_candidate
add_subnets_of-NoNodeRoute nodes node [] subnets h = h
add_subnets_of-NoNodeRoute nodes node ((conn, c) ∷ conns) subnets h =
    elim (Bool-cases (is_node_route nodes conn)) [
      | inl host ↦ rw host (add_subnets_of-NoNodeRoute nodes node conns subnets h)
      | inr other ↦ rw other (
          add_subnets_of-NoNodeRoute nodes node conns (add_candidate conn node subnets) (λ k m.
            elim (keys-put k conn _ subnets m) [ inl now ↦ rw now other | inr old ↦ h k old ]))
    ]

add_subnets-NoNodeRoute :
    (nodes rest : RoutingNodes) (subnets : GoMap Subnet (GoMap Ip Unit))
    → NoNodeRoute nodes subnets
    → NoNodeRoute nodes (add_subnets nodes rest subnets)
unfolding add_subnets
add_subnets-NoNodeRoute nodes [] subnets h = h
add_subnets-NoNodeRoute nodes ((node, conns) ∷ rest) subnets h =
    add_subnets-NoNodeRoute nodes rest (add_subnets_of nodes node conns subnets)
      (add_subnets_of-NoNodeRoute nodes node conns subnets h)

host-IsNodeRoute :
    (nodes : RoutingNodes) (v : Ip)
    → length v ≡ 16
    → In v (keys nodes)
    → is_node_route nodes (new_host_only_subnet v) ≡ true
unfolding is_node_route
host-IsNodeRoute nodes v l m =
    let (c, e) = get-keys v nodes m in rw (host_only-prefix v l, (host_only-halves v l).0, e)

get-subnet_routes :
    (cost : Ip → Cost) (k : Subnet) (subnets : GoMap Subnet (GoMap Ip Unit))
    (policy : RoutingPolicy)
    → (In k (keys subnets) → ⊥)
    → get k (subnet_routes cost subnets policy) ≡ get k policy
unfolding subnet_routes
get-subnet_routes cost k [] policy h = refl
get-subnet_routes cost k ((s, cands) ∷ subnets) policy h =
    let best = (best_candidate cost policy (keys cands) [] max_cost).0 in
    let ne : s ≢ k = λ e. h ((In-cons k s (keys subnets)).1 (inl (sym e))) in
    let rest = λ (p : RoutingPolicy).
      get-subnet_routes cost k subnets p (λ m. h ((In-cons k s (keys subnets)).1 (inr m))) in
    elim (Bool-cases (best == [])) [
      | inl no_best ↦ rw no_best (rest policy)
      | inr found ↦ rw found (rest (put s best policy) ∙ get-put_ne s k best policy ne)
    ]

-- The routes of subnets leave the host route of a node alone.
pub get-subnet_routes_host :
    (cost : Ip → Cost) (nodes : RoutingNodes) (v : Ip) (policy : RoutingPolicy)
    → length v ≡ 16
    → In v (keys nodes)
    → get (new_host_only_subnet v) (subnet_routes cost (add_subnets nodes nodes []) policy)
      ≡ get (new_host_only_subnet v) policy
get-subnet_routes_host cost nodes v policy l m =
    get-subnet_routes cost (new_host_only_subnet v) (add_subnets nodes nodes []) policy (λ k.
      absurd (
        let a = host-IsNodeRoute nodes v l m in
        let b =
          add_subnets-NoNodeRoute nodes nodes [] (λ x n. absurd (not-In-nil x n))
            (new_host_only_subnet v) k in
        cc))
