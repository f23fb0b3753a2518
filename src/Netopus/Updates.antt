-- ===== src/Netopus/Updates.antt =====
-- pkg/netopus/netopus.go: routing updates are generated, handled, flooded, and forgotten.
-- `ip_string` is net.IP.String.
pub mod Convergence
pub mod Freshness
pub mod Once
pub mod Generated
pub mod Liveness
pub mod Flood
mod Tests
pub mod Names
use connectopus.Prelude.{
  ℕ, suc, ◌+◌, ◌%◌, ◌^◌, Bool, true, false, not, ◌&&◌, ◌||◌, Option, none, some, List, [], ◌∷◌,
  Bytes, bytes_eq, nat_eq, ◌==◌, ltb, if◌then◌else◌, GoMap, get, put, del, length,
}
use connectopus.Proto.Ip.{Ip}
use connectopus.Proto.Subnet.{new_subnet, cidr_mask}
use connectopus.Router.Graph.{RoutingConns}
use connectopus.Router.Nodes.{Router, update_node, remove_node}
use connectopus.Netopus.Node.{
  Time, minute, ConnectionState, connected, ConfigInfo, ExternalRouteInfo, ExternalNameInfo,
  NodeInfo, Session, Netopus, RoutingUpdate,
}

abbrev pub is_connected : ConnectionState → Bool
is_connected connected = true
is_connected _ = false

-- checkConfigsConverged
unfoldable pub check_configs_converged : Time → GoMap Ip NodeInfo → Bool
check_configs_converged my_version [] = true
check_configs_converged my_version ((_, v) ∷ m) =
    not (ltb v.config_version my_version) && check_configs_converged my_version m

-- The loops of generateRoutingUpdate over the sessions, the external routes and the names.
unfoldable pub session_conns : GoMap Ip Session → RoutingConns → RoutingConns
session_conns [] conns = conns
session_conns ((_, sess) ∷ s) conns = session_conns s (
    if is_connected sess.connection_state
    then put (new_subnet sess.remote_addr (cidr_mask 128 128)) sess.cost conns
    else conns)

unfoldable pub route_conns : GoMap Bytes ExternalRouteInfo → RoutingConns → RoutingConns
route_conns [] conns = conns
route_conns ((_, r) ∷ routes) conns = route_conns routes (put r.dest r.cost conns)

unfoldable pub update_names : GoMap Bytes ExternalNameInfo → GoMap Bytes Ip → GoMap Bytes Ip
update_names [] names = names
update_names ((k, v) ∷ m) names = update_names m (put k v.ip names)

-- generateRoutingUpdate, whose error is always nil; the sequence is a uint64
unfoldable pub generate_routing_update : Netopus → Netopus × RoutingUpdate
unfolding check_configs_converged session_conns route_conns update_names
generate_routing_update n =
    let ci = n.config_info in
    let converged = check_configs_converged ci.config_version n.known_node_info in
    let seq = (n.sequence + 1) % 2 ^ 64 in
    (
      record n { sequence = seq },
      record {
        origin = n.addr;
        node_name = n.name;
        update_epoch = n.epoch;
        update_sequence = seq;
        connections = route_conns n.external_routes (session_conns n.session_info []);
        names = update_names n.external_names [];
        config_version = ci.config_version;
        config_data = if converged then [] else ci.config_data;
        config_signature = if converged then [] else ci.config_signature;
      },
    )

-- The two tests of handleRoutingUpdate against what is known of the origin. Without an entry, ni
-- is the zero value.
unfoldable pub is_outdated : RoutingUpdate → Option NodeInfo → Bool
is_outdated ru none = false
is_outdated ru (some ni) =
    ltb ru.update_epoch ni.epoch
    || (ru.update_epoch == ni.epoch && ltb ru.update_sequence ni.sequence)

unfoldable pub is_duplicate : RoutingUpdate → Option NodeInfo → Bool
is_duplicate ru none = ru.update_epoch == 0 && ru.update_sequence == 0
is_duplicate ru (some ni) = ru.update_epoch == ni.epoch && ru.update_sequence == ni.sequence

-- newConfigFunc is called with the update's configuration
unfoldable pub takes_config : Netopus → RoutingUpdate → Bool
takes_config n ru =
    n.has_config_func
    && (ltb 0 (length ru.config_data)
        && (ltb 0 (length ru.config_signature)
            && ltb n.config_info.config_version ru.config_version))

-- for k, v := range msg.Names in routeReader: a name that this node added itself stays
unfoldable pub learn_names :
    Bytes → GoMap Bytes Ip → GoMap Bytes ExternalNameInfo → GoMap Bytes ExternalNameInfo
learn_names origin [] en = en
learn_names origin ((k, v) ∷ names) en =
    let own : Bool = (elim (get k en) [ none ↦ false | some r ↦ r.from_node == [] ]) in
    learn_names origin names (if own then en else put k (record { ip = v; from_node = origin }) en)

-- floodRoutingUpdate: the sessions that the update is written to
unfoldable pub flood_targets : Option Ip → GoMap Ip Session → List Ip
flood_targets except [] = []
flood_targets except ((node, sess) ∷ s) =
    let rest = flood_targets except s in
    let excepted : Bool = elim except [ none ↦ false | some via ↦ node == via ] in
    if excepted
    then rest
    else if is_connected sess.connection_state && sess.has_route_conn
    then node ∷ rest
    else rest

-- What handleRoutingUpdate does: the node, its result, and whether newConfigFunc was called.
pub record Handled : Type 0 where
  pub node : Netopus
  pub forward : Bool
  pub new_config : Bool

module _ (ip_string : Ip → Bytes) where
  unfoldable pub handle_routing_update : Time → RoutingUpdate → Netopus → Handled
  unfolding is_outdated is_duplicate takes_config
  handle_routing_update now ru n =
      let ignored : Handled = record { node = n; forward = false; new_config = false } in
      if ip_string ru.origin == ip_string n.addr
      then ignored
      else if is_outdated ru (get ru.origin n.known_node_info)
      then ignored
      else if is_duplicate ru (get ru.origin n.known_node_info)
      then ignored
      else record {
        node = record n {
          known_node_info =
              put ru.origin
                (record {
                  name = ru.node_name;
                  epoch = ru.update_epoch;
                  sequence = ru.update_sequence;
                  config_version = ru.config_version;
                  last_update = now;
                })
                n.known_node_info;
        };
        forward = true;
        new_config = takes_config n ru;
      }

  -- One update that routeReader read from the session to `via`: the node afterwards and the peers
  -- that the update is flooded to. none is the panic of UpdateNode.
  unfoldable pub read_update : Time → Ip → RoutingUpdate → Netopus → Option (Netopus × List Ip)
  unfolding handle_routing_update learn_names flood_targets
  read_update now via ru n =
      let h = handle_routing_update now ru n in
      if h.forward
      then (elim (update_node ru.origin ru.connections h.node.router) [
        | none ↦ none
        | some r ↦ some (
          record n {
            known_node_info = h.node.known_node_info;
            router = r;
            external_names = learn_names (ip_string ru.origin) ru.names n.external_names;
          },
          flood_targets (some via) n.session_info,
        )
      ])
      else some (n, [])

-- One round of monitorDeadNodes: the nodes without an update for a minute are deleted, and removed
-- from the router. Before(now - minute) is written with a sum.
unfoldable pub prune_known : Time → GoMap Ip NodeInfo → GoMap Ip NodeInfo
prune_known now [] = []
prune_known now ((node, info) ∷ m) =
    let rest = prune_known now m in
    if ltb (info.last_update + minute) now then rest else (node, info) ∷ rest

unfoldable pub prune_router : Time → GoMap Ip NodeInfo → Router → Router
prune_router now [] r = r
prune_router now ((node, info) ∷ m) r =
    prune_router now m (if ltb (info.last_update + minute) now then remove_node node r else r)

unfoldable pub monitor_dead_nodes : Time → Netopus → Netopus
unfolding prune_known prune_router
monitor_dead_nodes now n = record n {
  known_node_info = prune_known now n.known_node_info;
  router = prune_router now n.known_node_info n.router;
}

-- UpdateConfig
unfoldable pub update_config : Bytes → Bytes → Time → Netopus → Netopus
update_config cfg sig version n = record n {
  config_info = record { config_version = version; config_data = cfg; config_signature = sig };
  update_requests = suc n.update_requests;
}
