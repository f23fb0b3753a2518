-- ===== src/Router/Search.antt =====
-- The loop of recalculate over the priority queue.
pub mod Loop
pub mod Labels
pub mod Relax
pub mod Shortest
use Prim.Native.Nat.{zero, suc}
use connectopus.Prelude.{
  ℕ, ◌+◌, ◌*◌, Bool, Option, none, some, List, [], ◌∷◌, bytes_eq, ◌==◌, ltb, if◌then◌else◌, GoMap,
  update,
}
use connectopus.Proto.Ip.{Ip}
use connectopus.Router.Float.{Cost, zero_cost, max_cost, Adder}
use connectopus.Router.Queue.{Queue}

-- The sum of the cost labels, which each relaxation lowers.
abbrev pub total : (Ip → Cost) → List Ip → ℕ
total cost [] = 0
total cost (v ∷ vs) = cost v + total cost vs

module _ (float : Adder) (queue : Queue) where
  -- The maps `cost` and `prev`, whose zero values are 0.0 and "", and the queue `Q`.
  pub record Search : Type 0 where
    pub cost : Ip → Cost
    pub prev : Ip → Ip
    pub pending : queue.Q

  -- The iteration for one key of `nodes` in the loop that sets up cost, prev and Q.
  unfoldable pub init_node : Ip → Ip → Search → Search
  init_node my node s =
      let c = if node == my then zero_cost else max_cost in
      record {
        cost = update s.cost node c;
        prev = update s.prev node [];
        pending = queue.insert node c s.pending;
      }

  unfoldable pub init_nodes : Ip → List Ip → Search → Search
  unfolding init_node
  init_nodes my [] s = s
  init_nodes my (node ∷ nodes) s = init_nodes my nodes (init_node my node s)

  unfoldable pub start : Ip → List Ip → Search
  unfolding init_nodes
  start my nodes = init_nodes my nodes (record {
    cost = λ _. zero_cost;
    prev = λ _. [];
    pending = queue.insert my zero_cost queue.new;
  })

  -- One neighbour of the popped node.
  unfoldable pub relax : Ip → Ip → Cost → Search → Search
  relax node neighbor edge_cost s =
      let path_cost = float.add (s.cost node) edge_cost in
      if ltb path_cost (s.cost neighbor)
      then record {
        cost = update s.cost neighbor path_cost;
        prev = update s.prev neighbor node;
        pending = queue.insert neighbor path_cost s.pending;
      }
      else s

  unfoldable pub relax_all : Ip → GoMap Ip Cost → Search → Search
  unfolding relax
  relax_all node [] s = s
  relax_all node ((neighbor, edge_cost) ∷ edges) s =
      relax_all node edges (relax node neighbor edge_cost s)

  module _ (edges : Ip → GoMap Ip Cost) where
    -- for Q.Len() > 0 { ... }; none: the fuel ran out
    unfoldable pub loop : ℕ → Search → Option Search
    unfolding relax_all
    loop zero s = none
    loop (suc fuel) s = elim (queue.pop s.pending) [
      | none ↦ some s
      | some (node, rest) ↦ loop fuel (relax_all node (edges node) (record s { pending = rest }))
    ]

    -- Enough fuel for the state `s`: see Loop.
    abbrev pub budget : List Ip → Search → ℕ
    budget nodes s = suc (2 * total s.cost nodes + queue.len s.pending)

    unfoldable pub search : Ip → List Ip → Option Search
    unfolding loop start
    search my nodes = loop (budget nodes (start my nodes)) (start my nodes)
