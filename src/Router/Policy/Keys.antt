-- ===== src/Router/Policy/Keys.antt =====
-- The keys of the new policy: each once, and only host routes of nodes and announced subnets.
use connectopus.Prelude.{
  ℕ, suc, ◌≡◌, refl, inl, inr, some, List, [], ◌∷◌, bytes_eq, ◌==◌, GoMap, put, keys, keys-put,
  Distinct, Distinct-put, In, In-cons, not-In-nil, Option-cases, Bool-cases, length,
}
use connectopus.Proto.Ip.{Ip}
use connectopus.Proto.Subnet.{Subnet, new_host_only_subnet}
use connectopus.Router.Float.{Cost, max_cost, Adder}
use connectopus.Router.Queue.{Queue}
use connectopus.Router.Graph.{
  RoutingConns, RoutingNodes, is_node_route, add_candidate, add_subnets_of, add_subnets,
  interconnect,
}
use connectopus.Router.Search.{Search, search}
use connectopus.Router.Policy.{
  RoutingPolicy, first_hop, host_routes, best_candidate, subnet_routes, policy_of, new_policy,
}

module _ (P : Subnet → Type 0) where
  -- Each key once, and each with the property.
  abbrev pub Keeps : {V : Type 0} → GoMap Subnet V → Type 0
  Keeps m = Distinct (keys m) × ((k : Subnet) → In k (keys m) → P k)

  Keeps-put :
      {V : Type 0} (k : Subnet) (v : V) (m : GoMap Subnet V) → P k → Keeps m → Keeps (put k v m)
  Keeps-put k v m p h = (
    Distinct-put k v m h.0,
    λ j i. elim (keys-put j k v m i) [ inl now ↦ rw now p | inr old ↦ h.1 j old ],
  )

  Keeps-host_routes :
      (fuel : ℕ) (prev : Ip → Ip) (my : Ip) (nodes : List Ip) (policy result : RoutingPolicy)
      → ((v : Ip) → In v nodes → P (new_host_only_subnet v))
      → Keeps policy
      → host_routes fuel prev my nodes policy ≡ some result
      → Keeps result
  unfolding host_routes
  Keeps-host_routes fuel prev my [] policy result hp h e =
      let same : policy ≡ result = cc in rw (← same) h
  Keeps-host_routes fuel prev my (v ∷ nodes) policy result hp h e =
      let later = λ (w : Ip) (m : In w nodes). hp w ((In-cons w v nodes).1 (inr m)) in
      elim (Option-cases (first_hop fuel prev my v)) [
        | inl out ↦ absurd (let c = rw (out, host_routes) at e in cc)
        | inr (r, a) ↦ elim (Option-cases r) [
          | inl b ↦
              Keeps-host_routes fuel prev my nodes policy result later h
                (rw (a, b, host_routes) at e)
          | inr (p, b) ↦
              Keeps-host_routes fuel prev my nodes (put (new_host_only_subnet v) p policy) result
                later
                (Keeps-put (new_host_only_subnet v) p policy
                  (hp v ((In-cons v v nodes).1 (inl refl))) h)
                (rw (a, b, host_routes) at e)
        ]
      ]

  Keeps-add_subnets_of :
      (nodes : RoutingNodes) (node : Ip) (conns : RoutingConns)
      (subnets : GoMap Subnet (GoMap Ip Unit))
      → ((k : Subnet) → In k (keys conns) → P k)
      → Keeps subnets
      → Keeps (add_subnets_of nodes node conns subnets)
  unfolding add_subnets_of add_candidate
  Keeps-add_subnets_of nodes node [] subnets hp h = h
  Keeps-add_subnets_of nodes node ((conn, c) ∷ conns) subnets hp h =
      let later =
        λ (k : Subnet) (m : In k (keys conns)). hp k ((In-cons k conn (keys conns)).1 (inr m)) in
      elim (Bool-cases (is_node_route nodes conn)) [
        | inl host ↦ rw host (Keeps-add_subnets_of nodes node conns subnets later h)
        | inr other ↦ rw other (
            Keeps-add_subnets_of nodes node conns (add_candidate conn node subnets) later (
              Keeps-put conn _ subnets (hp conn ((In-cons conn conn (keys conns)).1 (inl refl))) h))
      ]

  Keeps-add_subnets :
      (nodes rest : RoutingNodes) (subnets : GoMap Subnet (GoMap Ip Unit))
      → ((v : Ip) (conns : RoutingConns) (k : Subnet)
          → In (v, conns) rest
          → In k (keys conns)
          → P k)
      → Keeps subnets
      → Keeps (add_subnets nodes rest subnets)
  unfolding add_subnets
  Keeps-add_subnets nodes [] subnets hp h = h
  Keeps-add_subnets nodes ((node, conns) ∷ rest) subnets hp h =
      Keeps-add_subnets nodes rest (add_subnets_of nodes node conns subnets)
        (λ v c k m i. hp v c k ((In-cons (v, c) (node, conns) rest).1 (inr m)) i)
        (Keeps-add_subnets_of nodes node conns subnets
          (λ k i. hp node conns k ((In-cons (node, conns) (node, conns) rest).1 (inl refl)) i) h)

  Keeps-subnet_routes :
      (cost : Ip → Cost) (subnets : GoMap Subnet (GoMap Ip Unit)) (policy : RoutingPolicy)
      → ((k : Subnet) → In k (keys subnets) → P k)
      → Keeps policy
      → Keeps (subnet_routes cost subnets policy)
  unfolding subnet_routes
  Keeps-subnet_routes cost [] policy hp h = h
  Keeps-subnet_routes cost ((s, cands) ∷ subnets) policy hp h =
      let best = (best_candidate cost policy (keys cands) [] max_cost).0 in
      let later =
        λ (k : Subnet) (m : In k (keys subnets)). hp k ((In-cons k s (keys subnets)).1 (inr m)) in
      elim (Bool-cases (best == [])) [
        | inl no_best ↦ rw no_best (Keeps-subnet_routes cost subnets policy later h)
        | inr found ↦ rw found (
            Keeps-subnet_routes cost subnets (put s best policy) later
              (Keeps-put s best policy (hp s ((In-cons s s (keys subnets)).1 (inl refl))) h))
      ]

  Keeps-policy_of :
      (float : Adder) (queue : Queue) (my : Ip) (nodes : RoutingNodes) (s : Search float queue)
      (policy : RoutingPolicy)
      → ((v : Ip) → In v (keys nodes) → P (new_host_only_subnet v))
      → ((v : Ip) (conns : RoutingConns) (k : Subnet)
          → In (v, conns) nodes
          → In k (keys conns)
          → P k)
      → policy_of float queue my nodes s ≡ some policy
      → Keeps policy
  unfolding policy_of
  Keeps-policy_of float queue my nodes s policy hv hk e =
      let fuel = suc (length (keys nodes)) in
      elim (Option-cases (host_routes fuel s.prev my (keys nodes) [])) [
        | inl out ↦ absurd (let c = rw (out, policy_of) at e in cc)
        | inr (hosts, found) ↦
            let made : subnet_routes s.cost (add_subnets nodes nodes []) hosts ≡ policy =
              let c = rw (found, policy_of) at e in cc in
            rw (← made) (
              Keeps-subnet_routes s.cost (add_subnets nodes nodes []) hosts
                (Keeps-add_subnets nodes nodes [] hk (tt, λ k m. absurd (not-In-nil k m))).1
                (Keeps-host_routes fuel s.prev my (keys nodes) [] hosts hv
                  (tt, λ k m. absurd (not-In-nil k m)) found))
      ]

  -- What holds of the nodes' host routes and of all announced subnets holds of the new policy.
  pub Keeps-new_policy :
      (float : Adder) (queue : Queue) (my : Ip) (nodes : RoutingNodes) (policy : RoutingPolicy)
      → ((v : Ip) → In v (keys nodes) → P (new_host_only_subnet v))
      → ((v : Ip) (conns : RoutingConns) (k : Subnet)
          → In (v, conns) nodes
          → In k (keys conns)
          → P k)
      → new_policy float queue my nodes ≡ some policy
      → Keeps policy
  unfolding new_policy policy_of
  Keeps-new_policy float queue my nodes policy hv hk e =
      elim (Option-cases (search float queue (interconnect nodes) my (keys nodes))) [
        | inl out ↦ absurd (let c = rw (out, new_policy) at e in cc)
        | inr (s, found) ↦
            Keeps-policy_of float queue my nodes s policy hv hk (rw (found, new_policy) at e)
      ]
