-- ===== src/Router/Policy.antt =====
-- The routing policy that recalculate derives from the labels, and its publication.
pub mod Depth
pub mod FirstHop
pub mod Hosts
pub mod Subnets
pub mod Correct
pub mod Candidates
pub mod Keys
use Prim.Native.Nat.{zero, suc}
use connectopus.Prelude.{
  ℕ, ◌+◌, Bool, true, false, not, ◌&&◌, ◌||◌, Option, none, some, List, [], ◌∷◌, bytes_eq, nat_eq,
  ◌==◌, ltb, if◌then◌else◌, GoMap, get, put, keys, length, maps_equal,
}
use connectopus.Proto.Ip.{Ip}
use connectopus.Proto.Subnet.{Subnet, new_host_only_subnet}
use connectopus.Router.Float.{Cost, zero_cost, max_cost, Adder}
use connectopus.Router.Queue.{Queue}
use connectopus.Router.Graph.{RoutingNodes, interconnect, add_subnets}
use connectopus.Router.Search.{Search, search}

-- proto.RoutingPolicy
abbrev pub RoutingPolicy : Type 0
RoutingPolicy = GoMap Subnet Ip

-- The inner `for` over p: some (some p) is the route of dest, some none is its absence, none means
-- that the fuel ran out.
unfoldable pub first_hop : ℕ → (Ip → Ip) → Ip → Ip → Option (Option Ip)
first_hop zero prev my p = none
first_hop (suc fuel) prev my p =
    let rest = first_hop fuel prev my (prev p) in
    if prev p == my then some (some p) else if prev p == [] then some none else rest

-- for dest := range nodes { ... }
unfoldable pub host_routes : ℕ → (Ip → Ip) → Ip → List Ip → RoutingPolicy → Option RoutingPolicy
unfolding first_hop
host_routes fuel prev my [] policy = some policy
host_routes fuel prev my (dest ∷ nodes) policy = elim (first_hop fuel prev my dest) [
  | none ↦ none
  | some none ↦ host_routes fuel prev my nodes policy
  | some (some p) ↦ host_routes fuel prev my nodes (put (new_host_only_subnet dest) p policy)
]

-- newPolicy[proto.NewHostOnlySubnet(candidate)], "" if there is none
unfoldable pub via_of : RoutingPolicy → Ip → Ip
via_of policy candidate = elim (get (new_host_only_subnet candidate) policy) [
  | some p ↦ p
  | none ↦ []
]

-- for candidate := range candidates { ... }, over bestCandidate and lowestCost
unfoldable pub best_candidate : (Ip → Cost) → RoutingPolicy → List Ip → Ip → Cost → Ip × Cost
unfolding via_of
best_candidate cost policy [] best lowest = (best, lowest)
best_candidate cost policy (c ∷ candidates) best lowest =
    let via = via_of policy c in
    let better = ltb (cost via) lowest in
    best_candidate cost policy candidates (if better then via else best)
      (if better then cost via else lowest)

-- for subnet, candidates := range subnets { ... }
unfoldable pub subnet_routes :
    (Ip → Cost) → GoMap Subnet (GoMap Ip Unit) → RoutingPolicy → RoutingPolicy
unfolding best_candidate
subnet_routes cost [] policy = policy
subnet_routes cost ((subnet, candidates) ∷ subnets) policy =
    let best = (best_candidate cost policy (keys candidates) [] max_cost).0 in
    subnet_routes cost subnets (if best == [] then policy else put subnet best policy)

-- *policy differs from newPolicy: another length, or a key that is missing or has another value
unfoldable pub policy_changed : RoutingPolicy → RoutingPolicy → Bool
policy_changed old new = not (maps_equal old new)

module _ (float : Adder) (queue : Queue) where
  -- The policy of the search's result.
  unfoldable pub policy_of : Ip → RoutingNodes → Search float queue → Option RoutingPolicy
  unfolding host_routes subnet_routes
  policy_of my nodes s = elim (host_routes (suc (length (keys nodes))) s.prev my (keys nodes) []) [
    | none ↦ none
    | some hosts ↦ some (subnet_routes s.cost (add_subnets nodes nodes []) hosts)
  ]

  -- recalculate up to newPolicy
  unfoldable pub new_policy : Ip → RoutingNodes → Option RoutingPolicy
  unfolding policy_of
  new_policy my nodes = elim (search float queue (interconnect nodes) my (keys nodes)) [
    | none ↦ none
    | some s ↦ policy_of my nodes s
  ]

  -- recalculate: the policy that the router keeps, and the one that it publishes
  unfoldable pub recalculate :
      Ip → RoutingNodes → RoutingPolicy → Option (RoutingPolicy × RoutingPolicy)
  recalculate my nodes policy = elim (new_policy my nodes) [
    | none ↦ none
    | some new ↦ some (if policy_changed policy new then new else policy, new)
  ]
