-- ===== src/Control.antt =====
-- pkg/cpctl/cpctl_resolver.go: the answers of the control API. slices.SortFunc by a text is the
-- argument `sort`, YAML and the identifiers of a mutation are arguments too.
pub mod Netns
mod Tests
use connectopus.Prelude.{ℕ, Bool, Option, none, some, List, [], ◌∷◌, Bytes, bytes_eq, GoMap, get}
use connectopus.Proto.Subnet.{Subnet}
use connectopus.Router.Float.{Cost}
use connectopus.Config.Node.{Config, Global, Time}
use connectopus.Netopus.Lifecycle.{Status}
use connectopus.Instance.Links.{Registry, NamePid, registry_get, registry_get_all}

-- (Resolver).Netns: nil is none, for the registry, the filter and its name.
unfoldable pub netns : Option Registry → Option (Option Bytes) → List NamePid
unfolding registry_get registry_get_all
netns none filter = []
netns (some reg) none = registry_get_all reg
netns (some reg) (some none) = registry_get_all reg
netns (some reg) (some (some name)) = elim (registry_get name reg) [
  | none ↦ []
  | some pid ↦ (record { name = name; pid = pid }) ∷ []
]

pub record StatusNodeConn : Type 0 where
  pub subnet : Bytes
  pub cost : Cost

pub record StatusNode : Type 0 where
  pub addr : Bytes
  pub name : Bytes
  pub conns : List StatusNodeConn

-- Without ConnStart
pub record StatusSession : Type 0 where
  pub addr : Bytes
  pub connected : Bool

pub record StatusGlobal : Type 0 where
  pub domain : Bytes
  pub subnet : Bytes
  pub authorized_keys : List Bytes
  pub config_last_updated : Time

pub record StatusResult : Type 0 where
  pub name : Bytes
  pub addr : Bytes
  pub global : StatusGlobal
  pub nodes : List StatusNode
  pub sessions : List StatusSession

-- ns.AddrToName[routerNode]: "" where it is missing
abbrev pub text_or_empty : Option Bytes → Bytes
text_or_empty none = []
text_or_empty (some s) = s

-- A sort by the text of the elements, each kind of element having its own.
pub record Sort : Type 0 where
  pub conns : List StatusNodeConn → List StatusNodeConn
  pub nodes : List StatusNode → List StatusNode
  pub sessions : List StatusSession → List StatusSession

module _ (sort : Sort) where
  -- for node, cost := range routerRoutes
  unfoldable pub conn_rows : GoMap Bytes Cost → List StatusNodeConn
  conn_rows [] = []
  conn_rows ((node, cost) ∷ routes) = (record { subnet = node; cost = cost }) ∷ conn_rows routes

  -- for routerNode, routerRoutes := range ns.RouterNodes
  unfoldable pub node_rows : GoMap Bytes Bytes → GoMap Bytes (GoMap Bytes Cost) → List StatusNode
  unfolding conn_rows
  node_rows addr_to_name [] = []
  node_rows addr_to_name ((node, routes) ∷ nodes) =
      (record {
        addr = node;
        name = text_or_empty (get node addr_to_name);
        conns = sort.conns (conn_rows routes);
      })
      ∷ node_rows addr_to_name nodes

  unfoldable pub session_rows : GoMap Bytes Bool → List StatusSession
  session_rows [] = []
  session_rows ((addr, connected) ∷ sessions) =
      (record { addr = addr; connected = connected }) ∷ session_rows sessions

  -- (Resolver).Status; the arguments are String of the address and of the subnet.
  unfoldable pub resolve_status :
      (Bytes → Bytes) → (Subnet → Bytes) → Config → Status → StatusResult
  unfolding node_rows session_rows
  resolve_status ip_string subnet_string c ns = record {
    name = ns.name;
    addr = ip_string ns.addr;
    global = record {
      domain = c.global.domain;
      subnet = subnet_string c.global.subnet;
      authorized_keys = elim c.global.authorized_keys [ none ↦ [] | some keys ↦ keys ];
      config_last_updated = c.global.last_updated;
    };
    nodes = sort.nodes (node_rows ns.addr_to_name ns.router_nodes);
    sessions = sort.sessions (session_rows ns.sessions);
  }

-- (Resolver).Config: the YAML, none being an error of the encoder
unfoldable pub resolve_config : (Config → Option Bytes) → Config → Option Bytes
resolve_config encode cfg = encode cfg

-- (Resolver).UpdateConfig: the error of UpdateNodeConfig, or an identifier
unfoldable pub resolve_update :
    {E : Type 0} → (Bytes → Bytes → Option E) → Bytes → Bytes → Bytes → Bytes × Option E
resolve_update update new_id yaml signature = elim (update yaml signature) [
  | some e ↦ ([], some e)
  | none ↦ (new_id, none)
]
