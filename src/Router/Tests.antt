-- ===== src/Router/Tests.antt =====
-- The router's theorems on the mesh of two nodes.
use connectopus.Prelude.{
  ℕ, ◌≤◌, ◌<◌, ◌≡◌, ◌≢◌, refl, ◌⊎◌, inl, inr, false, none, some, [], ◌∷◌, bytes_eq, bytes_beq,
  bytes_beq_iff, if◌then◌else◌, ◌==◌, ==-cases, GoMap, get, keys, In, In-cons, not-In-nil, arith,
}
use mathlib.Core.List.Memᴰ
use connectopus.Proto.Ip.{Ip}
use connectopus.Proto.Subnet.{Subnet, contains, new_host_only_subnet, cidr_mask, mask_bytes}
use connectopus.Proto.Subnet.Cidr.{host_only-IsCidr}
use connectopus.Router.Float.{Cost, zero_cost, one_cost, max_cost}
use connectopus.Router.Graph.{interconnect}
use connectopus.Router.Graph.Links.{interconnect-IsGraph}
use connectopus.Router.Search.{Search, search}
use connectopus.Router.Search.Labels.{Walk, IsGraph}
use connectopus.Router.Search.Loop.{search_ends}
use connectopus.Router.Search.Shortest.{search_shortest}
use connectopus.Router.Policy.{RoutingPolicy, new_policy, via_of, best_candidate}
use connectopus.Router.Policy.Correct.{RouteOf, new_policy_routes}
use connectopus.Router.Policy.Candidates.{unrouted_candidate_hides}
use connectopus.Router.Nodes.{Router, run_recalculate}
use connectopus.Router.Nodes.Table.{run_recalculate_uses}
use connectopus.Router.NextHop.{next_hop}
use connectopus.Router.NextHop.Longest.{IsBest, next_hop_longest}
use connectopus.Router.NextHop.Delivery.{IsTable, next_hop_order}
use connectopus.Router.Delivers.{Delivers, recalculate-Delivers}
use connectopus.Router.Samples.{
  plain_adder, list_queue, ip, ip-IsIpv6, two_nodes, two_nodes-IsNetwork, two_nodes-IsMesh,
}

abbrev sample_router : Router
sample_router = record {
  my_addr = ip 1;
  nodes = two_nodes;
  policy = [];
  requested = 0;
  published = [];
}

recalculate-Delivers_example :
    (r' : Router) × (run_recalculate plain_adder list_queue sample_router ≡ some r')
    × (r'.nodes ≡ two_nodes)
    × IsTable r'.policy
    × ((dest : Ip)
        → In dest (keys two_nodes)
        → dest ≢ ip 1
        → Delivers plain_adder (ip 1) two_nodes r'.policy dest)
recalculate-Delivers_example =
    recalculate-Delivers plain_adder list_queue sample_router two_nodes-IsMesh (λ e. cc) tt

new_policy_routes_example :
    (policy : RoutingPolicy) × (new_policy plain_adder list_queue (ip 1) two_nodes ≡ some policy)
    × ((dest : Ip)
        → In dest (keys two_nodes)
        → dest ≢ ip 1
        → RouteOf plain_adder (ip 1) two_nodes policy dest)
new_policy_routes_example =
    new_policy_routes plain_adder list_queue (ip 1) two_nodes two_nodes-IsNetwork (λ e. cc)

two_nodes-IsGraph : IsGraph (keys two_nodes) (interconnect two_nodes)
two_nodes-IsGraph = interconnect-IsGraph two_nodes two_nodes-IsNetwork

search_shortest_example :
    (t : Search plain_adder list_queue) × (search plain_adder list_queue
        (interconnect two_nodes)
        (ip 1)
        (keys two_nodes)
      ≡ some t)
    × ((v : Ip) (c : Cost) → Walk plain_adder (interconnect two_nodes) (ip 1) v c → t.cost v ≤ c)
    × ((v : Ip)
        → In v (keys two_nodes)
        → t.cost v < max_cost
        → Walk plain_adder (interconnect two_nodes) (ip 1) v (t.cost v))
search_shortest_example =
    search_shortest plain_adder list_queue (interconnect two_nodes) (ip 1) (keys two_nodes)
      two_nodes-IsGraph

-- One node with an edge to itself, of a negative cost.
abbrev self_edge : Ip → GoMap Ip Cost
self_edge u = (ip 1, 5) ∷ []

search_ends_example :
    (t : Search plain_adder list_queue) × (search plain_adder list_queue self_edge
        (ip 1)
        (ip 1 ∷ [])
      ≡ some t)
search_ends_example =
    search_ends plain_adder list_queue (ip 1 ∷ []) self_edge (λ u. (Memᴰ.head refl, tt)) (ip 1)

abbrev to_two : RoutingPolicy
to_two = (new_host_only_subnet (ip 2), ip 2) ∷ []

next_hop_longest_example :
    (next_hop to_two (ip 2) ≡ none)
      × ((k : Subnet) (v : Ip) → In (k, v) to_two → contains k (ip 2) ≡ false)
    ⊎ ((n : ℕ) × (hop : Ip) × (next_hop to_two (ip 2) ≡ some hop) × IsBest to_two (ip 2) n hop)
next_hop_longest_example = next_hop_longest to_two (ip 2)

abbrev host : ℕ → Subnet
host n = new_host_only_subnet (ip n)

abbrev hosts : ℕ → ℕ → RoutingPolicy
hosts n m = (host n, ip 9) ∷ (host m, ip 8) ∷ []

hosts_key : (n m : ℕ) (k : Subnet) → In k (keys (hosts n m)) → (k ≡ host n) ⊎ (k ≡ host m)
hosts_key n m k i = elim ((In-cons k (host n) (host m ∷ [])).0 i) [
  | inl e ↦ inl e
  | inr later ↦ elim ((In-cons k (host m) []).0 later) [
    | inl e ↦ inr e
    | inr rest ↦ absurd (not-In-nil k rest)
  ]
]

two_three-IsTable : IsTable (hosts 2 3)
unfolding new_host_only_subnet cidr_mask mask_bytes
two_three-IsTable = record {
  distinct = (
    λ i. elim ((In-cons (host 2) (host 3) []).0 i) [
      | inl e ↦ cc
      | inr rest ↦ not-In-nil (host 2) rest
    ],
    (not-In-nil (host 3), tt),
  );
  cidr = λ k i. elim (hosts_key 2 3 k i) [
    | inl e ↦ rw e (host_only-IsCidr (ip 2) (ip-IsIpv6 2 (omega arith)))
    | inr e ↦ rw e (host_only-IsCidr (ip 3) (ip-IsIpv6 3 (omega arith)))
  ];
}

abbrev swapped : RoutingPolicy
swapped = (host 3, ip 8) ∷ (host 2, ip 9) ∷ []

swapped-IsTable : IsTable swapped
unfolding new_host_only_subnet cidr_mask mask_bytes
swapped-IsTable = record {
  distinct = (
    λ i. elim ((In-cons (host 3) (host 2) []).0 i) [
      | inl e ↦ cc
      | inr rest ↦ not-In-nil (host 3) rest
    ],
    (not-In-nil (host 2), tt),
  );
  cidr = λ k i. elim (hosts_key 3 2 k i) [
    | inl e ↦ rw e (host_only-IsCidr (ip 3) (ip-IsIpv6 3 (omega arith)))
    | inr e ↦ rw e (host_only-IsCidr (ip 2) (ip-IsIpv6 2 (omega arith)))
  ];
}

same_routes : (k : Subnet) → get k (hosts 2 3) ≡ get k swapped
unfolding get new_host_only_subnet cidr_mask mask_bytes bytes_beq
same_routes k = elim (==-cases (host 2) k) [ inl (t, e) ↦ rw (← e) refl | inr (t, ne) ↦ rw t refl ]

next_hop_order_example : next_hop (hosts 2 3) (ip 3) ≡ next_hop swapped (ip 3)
next_hop_order_example =
    next_hop_order (hosts 2 3) swapped (ip 3) two_three-IsTable swapped-IsTable same_routes
      (ip-IsIpv6 3 (omega arith))

run_recalculate_uses_example :
    (r' : Router) × (sent : RoutingPolicy) × (run_recalculate plain_adder list_queue sample_router
      ≡ some r')
    × (new_policy plain_adder list_queue (ip 1) two_nodes ≡ some sent)
    × (r'.published ≡ sent ∷ [])
    × (r'.nodes ≡ two_nodes)
    × ((r'.policy ≡ []) ⊎ (r'.policy ≡ sent))
    × ((k : Subnet) → get k r'.policy ≡ get k sent)
run_recalculate_uses_example =
    run_recalculate_uses plain_adder list_queue sample_router two_nodes-IsNetwork (λ e. cc) tt

-- "" has the label 0, as in Go's map.
abbrev labels : Ip → Cost
labels v = if v == [] then zero_cost else one_cost

paid : (v : Ip) → v ≢ [] → zero_cost < labels v
paid v h = ground (arith, bytes_beq_iff v [])

unrouted_candidate_hides_example :
    (best_candidate labels to_two (ip 2 ∷ ip 3 ∷ []) [] max_cost).0 ≡ []
unfolding via_of get new_host_only_subnet cidr_mask mask_bytes bytes_beq
unrouted_candidate_hides_example =
    unrouted_candidate_hides labels to_two (ip 2 ∷ ip 3 ∷ []) (ip 3) refl
      (λ d m h. paid (via_of to_two d) h) (Memᴰ.tail (Memᴰ.head refl)) refl
