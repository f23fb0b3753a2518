-- ===== src/Netopus/Node.antt =====
-- pkg/netopus/netopus.go: the netopus struct and its parts. A time.Time is a number of
-- nanoseconds, the zero time being 0. The sessions' goroutines and channels are not part of it.
use connectopus.Prelude.{ℕ, Bool, List, Bytes, GoMap}
use connectopus.Proto.Ip.{Ip}
use connectopus.Proto.Subnet.{Subnet}
use connectopus.Router.Float.{Cost}
use connectopus.Router.Graph.{RoutingConns}
use connectopus.Router.Nodes.{Router}

abbrev pub Time : Type 0
Time = ℕ

-- time.Minute, in nanoseconds
abbrev pub minute : ℕ
minute = 60000000000

pub data ConnectionState : Type 0 where
  init connecting connected : ConnectionState

pub record ConfigInfo : Type 0 where
  pub config_version : Time
  pub config_data : Bytes
  pub config_signature : Bytes

-- externalRouteInfo; the outgoing function is known by the route's name
pub record ExternalRouteInfo : Type 0 where
  pub dest : Subnet
  pub cost : Cost

pub record ExternalNameInfo : Type 0 where
  pub ip : Ip
  pub from_node : Bytes

pub record NodeInfo : Type 0 where
  pub name : Bytes
  pub epoch : ℕ
  pub sequence : ℕ
  pub config_version : Time
  pub last_update : Time

-- The fields of protoSession that the node's own methods read.
pub record Session : Type 0 where
  pub cost : Cost
  pub remote_addr : Ip
  pub connection_state : ConnectionState
  pub has_route_conn : Bool

pub record Netopus : Type 0 where
  pub addr : Ip
  pub name : Bytes
  pub router : Router
  pub session_info : GoMap Ip Session
  pub epoch : ℕ
  pub sequence : ℕ
  pub known_node_info : GoMap Ip NodeInfo
  pub external_routes : GoMap Bytes ExternalRouteInfo
  pub external_names : GoMap Bytes ExternalNameInfo
  pub config_info : ConfigInfo
  pub has_config_func : Bool
  -- the ports of oobPorts
  pub oob_ports : List ℕ
  -- the number of calls of updateSender.RunWithin
  pub update_requests : ℕ

-- proto.RoutingUpdate
pub record RoutingUpdate : Type 0 where
  pub origin : Ip
  pub node_name : Bytes
  pub update_epoch : ℕ
  pub update_sequence : ℕ
  pub connections : RoutingConns
  pub names : GoMap Bytes Ip
  pub config_version : Time
  pub config_data : Bytes
  pub config_signature : Bytes
