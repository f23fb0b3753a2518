-- ===== src/Netopus/Names.antt =====
-- pkg/netopus/netopus.go: names, and the external routes and names that a node adds.
pub mod Lookup
use Prim.Native.Nat.{suc}
use connectopus.Prelude.{
  ℕ, ◌≡◌, Bool, true, false, Option, none, some, List, [], ◌∷◌, Bytes, bytes_eq, ◌==◌, leb, ltb,
  if◌then◌else◌, GoMap, get, put, del, length,
}
use connectopus.Proto.Ip.{Ip, equal}
use connectopus.Proto.Subnet.{Subnet}
use connectopus.Router.Float.{Cost, zero_cost, one_cost}
use connectopus.Netopus.Node.{ExternalRouteInfo, ExternalNameInfo, NodeInfo, Netopus}

-- updateSender.RunWithin
abbrev pub request_update : Netopus → Netopus
request_update n = record n { update_requests = suc n.update_requests }

-- AddExternalRoute
unfoldable pub add_external_route : Bytes → Subnet → Cost → Netopus → Netopus
add_external_route name dest cost n =
    let cost' : Cost = if leb cost zero_cost then one_cost else cost in
    request_update (record n {
      external_routes = put name (record { dest = dest; cost = cost' }) n.external_routes;
    })

-- DelExternalRoute
unfoldable pub del_external_route : Bytes → Netopus → Netopus
del_external_route name n =
    request_update (record n { external_routes = del name n.external_routes })

-- AddExternalName
unfoldable pub add_external_name : Bytes → Ip → Netopus → Netopus
add_external_name name ip n =
    request_update
      (record n { external_names = put name (record { ip = ip; from_node = [] }) n.external_names })

-- DelExternalName
unfoldable pub del_external_name : Bytes → Netopus → Netopus
del_external_name name n = request_update (record n { external_names = del name n.external_names })

-- The loop of LookupName: the first known node of that name, in the order of the map, or "".
unfoldable pub find_node : Bytes → GoMap Ip NodeInfo → Ip
find_node name [] = []
find_node name ((k, v) ∷ m) = let rest = find_node name m in if v.name == name then k else rest

-- LookupName
unfoldable pub lookup_name : Bytes → Netopus → Ip
unfolding find_node
lookup_name name n =
    if name == n.name
    then n.addr
    else (let found = find_node name n.known_node_info in
        if ltb 0 (length found)
        then found
        else (elim (get name n.external_names) [ some v ↦ v.ip | none ↦ [] ]))

-- The loop of LookupIP
unfoldable pub find_name : Ip → GoMap Bytes ExternalNameInfo → Bytes
find_name ip [] = []
find_name ip ((k, v) ∷ m) = let rest = find_name ip m in if v.ip == ip then k else rest

-- LookupIP
unfoldable pub lookup_ip : Ip → Netopus → Bytes
unfolding find_name
lookup_ip ip n = if equal ip n.addr then n.name else (elim (get ip n.known_node_info) [
  | some ni ↦ ni.name
  | none ↦ find_name ip n.external_names
])
