-- ===== src/Instance/Links.antt =====
-- pkg/connectopus/connectopus.go: the start and the end of a tunnel device, of a name space and of a
-- backend; pkg/links/netns/registry.go: the name spaces' processes by name.
pub mod Delivery
mod Tests
use connectopus.Prelude.{
  ℕ, Bool, true, false, Option, none, some, List, [], ◌∷◌, Bytes, bytes_eq, GoMap, get, put, del,
  leb, if◌then◌else◌,
}
use connectopus.Proto.Ip.{Ip}
use connectopus.Proto.Subnet.{new_host_only_subnet}
use connectopus.Router.Float.{Cost, zero_cost, one_cost}
use connectopus.Config.{Text, Params, Got, got, wrong, get_string, get_float32}
use connectopus.Config.Node.{TunDev, Namespace}
use connectopus.Backends.Settings.{type_name, cost_name}
use connectopus.Backends.Registry.{Backends, Started, run_backend}
use connectopus.Netopus.Node.{Netopus}
use connectopus.Netopus.Names.{
  add_external_route, del_external_route, add_external_name, del_external_name,
}

-- defaultCost
unfoldable pub default_cost : Cost → Cost
default_cost cost = if leb cost zero_cost then one_cost else cost

-- netns.Registry
abbrev pub Registry : Type 0
Registry = GoMap Bytes ℕ

unfoldable pub registry_add : Bytes → ℕ → Registry → Registry
registry_add name pid m = put name pid m

unfoldable pub registry_del : Bytes → Registry → Registry
registry_del name m = del name m

-- Get; none is "unknown namespace"
unfoldable pub registry_get : Bytes → Registry → Option ℕ
registry_get name m = get name m

pub record NamePid : Type 0 where
  pub name : Bytes
  pub pid : ℕ

-- GetAll
unfoldable pub registry_get_all : Registry → List NamePid
registry_get_all [] = []
registry_get_all ((k, v) ∷ m) = record { name = k; pid = v } ∷ registry_get_all m

-- (TunDevCfg).Start where tun.New succeeds
unfoldable pub start_tun_dev : Bytes → TunDev → Netopus → Netopus
unfolding default_cost add_external_route add_external_name
start_tun_dev name t n =
    add_external_name name t.address
      (add_external_route name (new_host_only_subnet t.address) (default_cost t.cost) n)

-- The end of its context
unfoldable pub stop_tun_dev : Bytes → Netopus → Netopus
unfolding del_external_route del_external_name
stop_tun_dev name n = del_external_route name (del_external_name name n)

-- (NamespaceCfg).Start where netns.New succeeds with that process, and the end of its context
unfoldable pub start_namespace : Bytes → Namespace → ℕ → Netopus × Registry → Netopus × Registry
unfolding default_cost add_external_route add_external_name registry_add
start_namespace name ns pid (n, reg) = (
  add_external_name name ns.address
      (add_external_route name (new_host_only_subnet ns.address) (default_cost ns.cost) n),
  registry_add name pid reg,
)

unfoldable pub stop_namespace : Bytes → Netopus × Registry → Netopus × Registry
unfolding del_external_route del_external_name registry_del
stop_namespace name (n, reg) =
    (del_external_route name (del_external_name name n), registry_del name reg)

-- What (BackendCfg).Start returns: the error of the cost, or what RunBackend gives.
pub data BackendStart (R : Type 0) : Type 0 where
  bad_cost : BackendStart R
  ran : Started R → BackendStart R

unfoldable pub start_backend : {R : Type 0} → Text → Backends R → Params → BackendStart R
unfolding default_cost run_backend
start_backend text backends p = elim (get_float32 text cost_name zero_cost p) [
  | wrong e ↦ bad_cost
  | got backend_cost ↦
      ran (run_backend backends (get_string type_name [] p) (default_cost backend_cost) p)
]
