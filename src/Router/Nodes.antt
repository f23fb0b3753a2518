-- ===== src/Router/Nodes.antt =====
-- The router's node table: UpdateNode, RemoveNode and Nodes, and the runs of recalculate that the
-- updates ask for. A conns argument is a map, not nil: generateRoutingUpdate makes one.
pub mod Table
use Prim.Native.Nat.{suc}
use connectopus.Prelude.{
  ℕ, ◌+◌, Bool, true, false, Option, none, some, List, [], ◌∷◌, bytes_eq, nat_eq, ◌==◌,
  if◌then◌else◌, GoMap, get, put, del, maps_equal,
}
use connectopus.Proto.Ip.{Ip}
use connectopus.Router.Float.{Cost, Adder}
use connectopus.Router.Queue.{Queue}
use connectopus.Router.Graph.{RoutingConns, RoutingNodes}
use connectopus.Router.Policy.{RoutingPolicy, recalculate}

-- The router struct; `requested` counts the calls of tr.RunWithin, `published` lists what the
-- broker was given, the last first.
pub record Router : Type 0 where
  pub my_addr : Ip
  pub nodes : RoutingNodes
  pub policy : RoutingPolicy
  pub requested : ℕ
  pub published : List RoutingPolicy

-- New
unfoldable pub new : Ip → Router
new my_addr = record { my_addr = my_addr; nodes = []; policy = []; requested = 0; published = [] }

-- reflect.DeepEqual(nodes[node], conns): a missing entry reads as nil, which no map equals.
unfoldable pub is_known : Ip → RoutingConns → RoutingNodes → Bool
is_known node conns nodes = elim (get node nodes) [ none ↦ false | some old ↦ maps_equal old conns ]

-- UpdateNode; none is its panic on ""
unfoldable pub update_node : Ip → RoutingConns → Router → Option Router
unfolding is_known
update_node node conns r =
    if node == []
    then none
    else some (
        if is_known node conns r.nodes
        then r
        else record r { nodes = put node conns r.nodes; requested = suc r.requested })

-- RemoveNode
unfoldable pub remove_node : Ip → Router → Router
remove_node node r = elim (get node r.nodes) [
  | some _ ↦ record r { nodes = del node r.nodes; requested = suc r.requested }
  | none ↦ r
]

-- A run of recalculate, with the policy that it stores and the one that it publishes.
unfoldable pub run_recalculate : Adder → Queue → Router → Option Router
run_recalculate float queue r = elim (recalculate float queue r.my_addr r.nodes r.policy) [
  | none ↦ none
  | some (kept, sent) ↦ some (record r { policy = kept; published = sent ∷ r.published })
]

-- nodesCopy[k][k2] = v2, over one node's connections and over all nodes
unfoldable pub copy_conns : RoutingConns → RoutingConns → RoutingConns
copy_conns [] copy = copy
copy_conns ((k, v) ∷ conns) copy = copy_conns conns (put k v copy)

unfoldable pub copy_nodes : RoutingNodes → RoutingNodes → RoutingNodes
unfolding copy_conns
copy_nodes [] copy = copy
copy_nodes ((k, v) ∷ nodes) copy = copy_nodes nodes (put k (copy_conns v []) copy)

-- Nodes
unfoldable pub nodes_of : Router → RoutingNodes
unfolding copy_nodes
nodes_of r = copy_nodes r.nodes []
