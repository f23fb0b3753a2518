-- ===== src/Router/Nodes/Table.antt =====
-- What the node table holds after an update, and what a recalculation stores and publishes.
use Prim.Native.Nat.{suc}
use connectopus.Prelude.{
  ◌≡◌, ◌≢◌, refl, sym, ◌⊎◌, ◌↔◌, inl, inr, Bool, true, false, none, some, [], ◌∷◌, bytes_eq, nat_eq,
  bytes_beq_iff, ◌==◌, if◌then◌else◌, get, put, keys, maps_equal, maps_equal-get, Distinct,
  get-put_self, get-put_ne, get-del_self, get-del_ne, Option-cases, Bool-cases, arith,
}
use connectopus.Proto.Ip.{Ip}
use connectopus.Proto.Subnet.{Subnet}
use connectopus.Router.Float.{Adder}
use connectopus.Router.Queue.{Queue}
use connectopus.Router.Graph.{RoutingConns, RoutingNodes, conns_of}
use connectopus.Router.Graph.Links.{IsNetwork}
use connectopus.Router.Policy.{RoutingPolicy, policy_changed, recalculate, new_policy}
use connectopus.Router.Policy.Correct.{new_policy_routes}
use connectopus.Router.Nodes.{Router, is_known, update_node, remove_node, run_recalculate}

conns_of-put :
    (node : Ip) (conns : RoutingConns) (nodes : RoutingNodes)
    → conns_of node (put node conns nodes) ≡ conns
unfolding conns_of
conns_of-put node conns nodes = ground (arith, get-put_self node conns nodes)

known_conns :
    (node : Ip) (conns : RoutingConns) (nodes : RoutingNodes)
    → Distinct (keys (conns_of node nodes))
    → is_known node conns nodes ≡ true
    → (k : Subnet) → get k (conns_of node nodes) ≡ get k conns
unfolding is_known conns_of
known_conns node conns nodes d known k = elim (Option-cases (get node nodes)) [
  | inl e ↦ ground arith
  | inr (old, e) ↦
      rw (e, conns_of)
        (maps_equal-get old conns (rw (e, conns_of) at d) (rw (e, is_known) at known) k)
]

-- UpdateNode panics on "" only. Otherwise the node's connections become the given ones, entry for
-- entry, those of the other nodes stay, and a recalculation is requested unless nothing changed.
pub update_node_sets :
    (node : Ip) (conns : RoutingConns) (r : Router)
    → node ≢ []
    → Distinct (keys (conns_of node r.nodes))
    → (r' : Router) × (update_node node conns r ≡ some r')
      × ((k : Subnet) → get k (conns_of node r'.nodes) ≡ get k conns)
      × ((other : Ip) → other ≢ node → get other r'.nodes ≡ get other r.nodes)
      × ((r'.requested ≡ suc r.requested) ⊎ (r' ≡ r) × (is_known node conns r.nodes ≡ true))
unfolding update_node
update_node_sets node conns r named d =
    let name : (node == []) ≡ false = ground (arith, bytes_beq_iff node []) in
    elim (Bool-cases (is_known node conns r.nodes)) [
      | inl known ↦ (
        r,
        rw (name, known),
        known_conns node conns r.nodes d known,
        λ other h. refl,
        inr (refl, known),
      )
      | inr new ↦ (
        record r { nodes = put node conns r.nodes; requested = suc r.requested },
        rw (name, new),
        λ k. rw (conns_of-put node conns r.nodes),
        λ other h. get-put_ne node other conns r.nodes (λ e. h (sym e)),
        inl refl,
      )
    ]

-- RemoveNode removes the node and no other, and requests a recalculation exactly if it was there.
pub remove_node_removes :
    (node : Ip) (r : Router)
    → (get node (remove_node node r).nodes ≡ none)
      × ((other : Ip) → other ≢ node → get other (remove_node node r).nodes ≡ get other r.nodes)
      × (((remove_node node r).requested ≡ suc r.requested) ↔ (get node r.nodes ≢ none))
unfolding remove_node
remove_node_removes node r = elim (Option-cases (get node r.nodes)) [
  | inl e ↦ (
    rw (e, remove_node) e,
    λ other h. rw (e, remove_node),
    (
      λ q. absurd (let c : r.requested ≡ suc r.requested = rw (e, remove_node) at q in omega arith),
      λ h. absurd (h e),
    ),
  )
  | inr (old, e) ↦ (
    rw (e, remove_node) (get-del_self node r.nodes),
    λ other h. rw (e, remove_node) (get-del_ne node other r.nodes (λ p. h (sym p))),
    (λ q n. cc, λ h. rw (e, remove_node)),
  )
]

recalculate_run :
    (float : Adder) (queue : Queue) (r : Router) (sent : RoutingPolicy) (b : Bool)
    → new_policy float queue r.my_addr r.nodes ≡ some sent
    → maps_equal r.policy sent ≡ b
    → run_recalculate float queue r
      ≡ some (record r { policy = if b then r.policy else sent; published = sent ∷ r.published })
unfolding run_recalculate recalculate policy_changed
recalculate_run float queue r sent true e q = ground arith
recalculate_run float queue r sent false e q = ground arith

-- A run of recalculate returns and publishes the policy that the nodes have now, and leaves the
-- nodes alone. The router then uses its old policy or the new one, and what it uses has the same
-- route as the new one, or none, for every subnet.
pub run_recalculate_uses :
    (float : Adder) (queue : Queue) (r : Router)
    → IsNetwork r.nodes
    → r.my_addr ≢ []
    → Distinct (keys r.policy)
    → (r' : Router) × (sent : RoutingPolicy) × (run_recalculate float queue r ≡ some r')
      × (new_policy float queue r.my_addr r.nodes ≡ some sent)
      × (r'.published ≡ sent ∷ r.published)
      × (r'.nodes ≡ r.nodes)
      × ((r'.policy ≡ r.policy) ⊎ (r'.policy ≡ sent))
      × ((k : Subnet) → get k r'.policy ≡ get k sent)
run_recalculate_uses float queue r net named d =
    let (sent, e, _) = new_policy_routes float queue r.my_addr r.nodes net named in
    let run_lem =
      λ (b : Bool) (q : maps_equal r.policy sent ≡ b). recalculate_run float queue r sent b e q in
    elim (Bool-cases (maps_equal r.policy sent)) [
      | inl same ↦ (
        record r { published = sent ∷ r.published },
        sent,
        run_lem true same,
        e,
        refl,
        refl,
        inl refl,
        maps_equal-get r.policy sent d same,
      )
      | inr other ↦ (
        record r { policy = sent; published = sent ∷ r.published },
        sent,
        run_lem false other,
        e,
        refl,
        refl,
        inr refl,
        λ k. refl,
      )
    ]
