-- ===== src/Instance/Children.antt =====
-- pkg/connectopus/connectopus.go: the items that the reconciler runs below a node and below a name
-- space, by name.
use connectopus.Prelude.{
  ◌≡◌, refl, ap, ◌∙◌, inl, inr, Option, none, some, [], ◌∷◌, Bytes, bytes_eq, ◌==◌, GoMap, get, put,
  put_items, get-put_items, or_else, item_of, get-put, keys, Distinct, Option-cases, if◌then◌else◌,
}
use connectopus.Config.{Params}
use connectopus.Config.Node.{
  Config, NodeConfig, Cpctl, Dns, Namespace, NamespaceService, Service, TunDev,
}

-- The reconciler.ConfigItem of a child
pub data Item : Type 0 where
  cpctl_cfg : Cpctl → Item
  dns_cfg : Dns → Item
  backend_cfg : Params → Item
  namespace_cfg : Namespace → Item
  service_cfg : Service → Item
  tun_dev_cfg : TunDev → Item

-- "cpctl" and "dns"
abbrev pub cpctl_name : Bytes
cpctl_name = 99 ∷ 112 ∷ 99 ∷ 116 ∷ 108 ∷ []

abbrev pub dns_name : Bytes
dns_name = 100 ∷ 110 ∷ 115 ∷ []

-- The children of a node that the configuration has
unfoldable pub node_children : NodeConfig → GoMap Bytes Item
unfolding put_items
node_children node =
    let children = put dns_name (dns_cfg node.dns) (put cpctl_name (cpctl_cfg node.cpctl) []) in
    let children = put_items backend_cfg node.backends children in
    let children = put_items namespace_cfg node.namespaces children in
    let children = put_items service_cfg node.services children in
    let children = put_items tun_dev_cfg node.tun_devs children in
    put_items namespace_cfg node.namespaces children

-- (NodeCfg).Children; nil is the empty map.
unfoldable pub children : Bytes → Config → GoMap Bytes Item
unfolding node_children
children identity cfg = elim (get identity cfg.nodes) [ none ↦ [] | some node ↦ node_children node ]

-- (NamespaceCfg).Children: NamespaceServiceCfg with its command.
unfoldable pub namespace_children : Namespace → GoMap Bytes Bytes
unfolding put_items
namespace_children ns = put_items (λ (s : NamespaceService). s.command) ns.services []

-- The maps of a node's configuration have each key once.
pub record IsGoMaps (node : NodeConfig) : Type 0 where
  pub backends : Distinct (keys node.backends)
  pub namespaces : Distinct (keys node.namespaces)
  pub services : Distinct (keys node.services)
  pub tun_devs : Distinct (keys node.tun_devs)

-- The item that is built in under a name.
abbrev pub built_in : Bytes → NodeConfig → Option Item
built_in name node =
    if dns_name == name
    then some (dns_cfg node.dns)
    else if cpctl_name == name
    then some (cpctl_cfg node.cpctl)
    else none

get-built_in :
    (name : Bytes) (node : NodeConfig)
    → get name (put dns_name (dns_cfg node.dns) (put cpctl_name (cpctl_cfg node.cpctl) []))
      ≡ built_in name node
unfolding get
get-built_in name node =
    get-put dns_name name (dns_cfg node.dns) (put cpctl_name (cpctl_cfg node.cpctl) [])
    ∙ ap (λ r. if dns_name == name then some (dns_cfg node.dns) else r)
        (get-put cpctl_name name (cpctl_cfg node.cpctl) [])

-- The child of a name is the name space that has it, or else the tunnel device, the service, the
-- backend, and only then the name server or the control server: of several items with one name a
-- single one runs, and a backend named "dns" takes the place of the name server.
pub get-node_children :
    (node : NodeConfig) (name : Bytes)
    → IsGoMaps node
    → get name (node_children node)
      ≡ or_else (item_of namespace_cfg (get name node.namespaces)) (
          or_else (item_of tun_dev_cfg (get name node.tun_devs)) (
            or_else
              (item_of service_cfg (get name node.services))
              (or_else (item_of backend_cfg (get name node.backends)) (built_in name node))))
unfolding node_children
get-node_children node name d =
    let c0 = put dns_name (dns_cfg node.dns) (put cpctl_name (cpctl_cfg node.cpctl) []) in
    let c1 = put_items backend_cfg node.backends c0 in
    let c2 = put_items namespace_cfg node.namespaces c1 in
    let c3 = put_items service_cfg node.services c2 in
    let c4 = put_items tun_dev_cfg node.tun_devs c3 in
    let e0 = get-built_in name node in
    let e1 = get-put_items backend_cfg node.backends c0 name d.backends in
    let e2 = get-put_items namespace_cfg node.namespaces c1 name d.namespaces in
    let e3 = get-put_items service_cfg node.services c2 name d.services in
    let e4 = get-put_items tun_dev_cfg node.tun_devs c3 name d.tun_devs in
    let e5 = get-put_items namespace_cfg node.namespaces c4 name d.namespaces in
    elim (Option-cases (get name node.namespaces)) [
      | inr (ns, there) ↦ rw there (e5 ∙ (rw there refl))
      | inl absent ↦
          let upper = rw absent at e5 in
          let lower = rw absent at e2 in
          rw absent
            (upper ∙ e4 ∙ ap (or_else _) (e3 ∙ ap (or_else _) (lower ∙ e1 ∙ ap (or_else _) e0)))
    ]
