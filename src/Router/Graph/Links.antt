-- ===== src/Router/Graph/Links.antt =====
-- Which links `interconnect` holds.
use connectopus.Prelude.{
  ◌≤◌, ◌≡◌, refl, ◌⊎◌, inl, inr, true, some, [], ◌∷◌, bytes_eq, length, GoMap, get, put, keys, In,
  In-cons, not-In-nil, In-put, In-get, keys-get, Bool-cases, Option-cases, arith,
}
use connectopus.Proto.Ip.{Ip}
use connectopus.Proto.Subnet.{Subnet, contains}
use connectopus.Router.Float.{Cost, zero_cost}
use connectopus.Router.Graph.{RoutingConns, RoutingNodes, link_peer, link_peers, interconnect}
use connectopus.Router.Search.Labels.{IsGraph}

-- A connection of the node that contains the peer, at this cost.
abbrev pub Link : RoutingConns → Ip → Cost → Type 0
Link conns peer c = (conn : Subnet) × In (conn, c) conns × (contains conn peer ≡ true)

link_peer-Link :
    (peer v : Ip) (c : Cost) (conns all : RoutingConns) (links : GoMap Ip Cost)
    → ((conn : Subnet) (d : Cost) → In (conn, d) conns → In (conn, d) all)
    → In (v, c) (link_peer peer conns links)
    → (v ≡ peer) × Link all peer c ⊎ In (v, c) links
unfolding link_peer
link_peer-Link peer v c [] all links sub m = inr m
link_peer-Link peer v c ((conn, d) ∷ conns) all links sub m =
    let later = λ (k : Subnet) (a : Cost) (r : In (k, a) conns).
      sub k a ((In-cons (k, a) (conn, d) conns).1 (inr r)) in
    elim (Bool-cases (contains conn peer)) [
      | inl covers ↦
          elim (link_peer-Link peer v c conns all (put peer d links) later
            (rw (covers, link_peer) at m)) [
              | inl found ↦ inl found
              | inr old ↦ elim (In-put v peer c d links old) [
                | inl (same, cost) ↦ inl (
                  same,
                  (
                    conn,
                    sub conn c (rw cost ((In-cons (conn, d) (conn, d) conns).1 (inl refl))),
                    covers,
                  ),
                )
                | inr rest ↦ inr rest
              ]
            ]
      | inr misses ↦ link_peer-Link peer v c conns all links later (rw (misses, link_peer) at m)
    ]

link_peers-Link :
    (nodes : RoutingNodes) (conns : RoutingConns) (v : Ip) (c : Cost) (links : GoMap Ip Cost)
    → In (v, c) (link_peers nodes conns links)
    → In v (keys nodes) × Link conns v c ⊎ In (v, c) links
unfolding link_peers
link_peers-Link [] conns v c links m = inr m
link_peers-Link ((peer, old) ∷ nodes) conns v c links m =
    elim (link_peers-Link nodes conns v c (link_peer peer conns links) m) [
      | inl (k, l) ↦ inl ((In-cons v peer (keys nodes)).1 (inr k), l)
      | inr r ↦ elim (link_peer-Link peer v c conns conns links (λ _ _ x. x) r) [
        | inl (same, l) ↦ inl ((In-cons v peer (keys nodes)).1 (inl same), rw same l)
        | inr rest ↦ inr rest
      ]
    ]

-- A link in the table leads from a node to a node that one of its connections contains.
pub interconnect-Link :
    (nodes : RoutingNodes) (u v : Ip) (c : Cost)
    → In (v, c) (interconnect nodes u)
    → (conns : RoutingConns) × (get u nodes ≡ some conns) × In v (keys nodes) × Link conns v c
unfolding interconnect
interconnect-Link nodes u v c m = elim (Option-cases (get u nodes)) [
  | inl e ↦ absurd (not-In-nil (v, c) (rw (e, interconnect) at m))
  | inr (conns, e) ↦ elim (link_peers-Link nodes conns v c [] (rw (e, interconnect) at m)) [
    | inl (k, l) ↦ (conns, e, k, l)
    | inr r ↦ absurd (not-In-nil (v, c) r)
  ]
]

-- What UpdateNode is given: IPv6 addresses for nodes, and costs that are not negative.
pub record IsNetwork (nodes : RoutingNodes) : Type 0 where
  pub address : (v : Ip) → In v (keys nodes) → length v ≡ 16
  pub cost :
      (v : Ip) (conns : RoutingConns) (conn : Subnet) (c : Cost)
      → In (v, conns) nodes
      → In (conn, c) conns
      → zero_cost ≤ c

pub interconnect-IsGraph :
    (nodes : RoutingNodes) → IsNetwork nodes → IsGraph (keys nodes) (interconnect nodes)
interconnect-IsGraph nodes n = record {
  no_empty = λ m. absurd (let l = n.address [] m in omega arith);
  source =
      λ u v c m. let (conns, e, k, l) = interconnect-Link nodes u v c m in keys-get u conns nodes e;
  target = λ u v c m. let (conns, e, k, l) = interconnect-Link nodes u v c m in k;
  cost = λ u v c m.
      let (conns, e, k, conn, i, t) = flat u v c m in
      n.cost u conns conn c (In-get u conns nodes e) i;
}
  where
    flat :
        (u v : Ip) (c : Cost)
        → In (v, c) (interconnect nodes u)
        → (conns : RoutingConns) × (get u nodes ≡ some conns)
          × In v (keys nodes)
          × (conn : Subnet) × In (conn, c) conns
          × (contains conn v ≡ true)
    flat u v c m =
        let (conns, e, k, l) = interconnect-Link nodes u v c m in
        let (conn, i, t) = l in (conns, e, k, conn, i, t)
