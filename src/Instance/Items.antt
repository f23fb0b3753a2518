-- ===== src/Instance/Items.antt =====
-- pkg/connectopus/connectopus.go: whether an item below a node runs on with a new configuration, the
-- ParentEqual of each kind of item, and the start of the name server with its two listeners.
use connectopus.Prelude.{
  ℕ, Bool, true, false, ◌&&◌, Option, List, Bytes, bytes_eq, nat_eq, ◌==◌, ◌≡◌, ◌≢◌, refl, ◌⊎◌, inl,
  inr, and_true, Bool-cases, if◌then◌else◌,
}
use connectopus.Config.{Params}
use connectopus.Config.Node.{Cpctl, Dns, Namespace, Service, TunDev}
use connectopus.Netopus.Node.{Netopus}
use connectopus.Instance.Children.{
  Item, cpctl_cfg, dns_cfg, backend_cfg, namespace_cfg, service_cfg, tun_dev_cfg,
}
use connectopus.Instance.Links.{Registry, start_namespace, start_tun_dev}
use connectopus.Services.{run_service}

-- `true` where both are or neither is.
unfoldable pub same_flag : Bool → Bool → Bool
same_flag true b = b
same_flag false true = false
same_flag false false = true

-- What reflect.DeepEqual compares of two structs, field by field.
unfoldable pub services_equal : Service → Service → Bool
services_equal s ci = s.port == ci.port && s.command == ci.command

unfoldable pub tun_devs_equal : TunDev → TunDev → Bool
tun_devs_equal t ci =
    t.device_name == ci.device_name && (t.address == ci.address && t.cost == ci.cost)

unfoldable pub cpctls_equal : Cpctl → Cpctl → Bool
unfolding same_flag
cpctls_equal c ci =
    c.socket_file == ci.socket_file && (same_flag c.no_socket ci.no_socket && c.port == ci.port)

-- (NamespaceCfg).ParentEqual of two name spaces: their services are items of their own.
unfoldable pub namespaces_equal : Namespace → Namespace → Bool
namespaces_equal nc ci = ci.address == nc.address && ci.cost == nc.cost

-- ParentEqual of an item for another one; `same_params` is reflect.DeepEqual of two Params.
unfoldable pub item_equal : (Params → Params → Bool) → Item → Item → Bool
unfolding services_equal tun_devs_equal cpctls_equal namespaces_equal same_flag
item_equal same_params (cpctl_cfg c) (cpctl_cfg ci) = cpctls_equal c ci
item_equal same_params (dns_cfg d) (dns_cfg ci) = same_flag d.disable ci.disable
item_equal same_params (backend_cfg b) (backend_cfg ci) = same_params b ci
item_equal same_params (namespace_cfg nc) (namespace_cfg ci) = namespaces_equal nc ci
item_equal same_params (service_cfg s) (service_cfg ci) = services_equal s ci
item_equal same_params (tun_dev_cfg t) (tun_dev_cfg ci) = tun_devs_equal t ci
item_equal same_params _ _ = false

-- The listeners of port 53 that are open.
pub record Listeners : Type 0 where
  pub udp : Bool
  pub tcp : Bool

pub data DnsStart : Type 0 where
  disabled udp_error tcp_error run_error serving : DnsStart

-- (DnsCfg).Start: whether DialUDP, ListenTCP and Run give no error are the first arguments.
unfoldable pub start_dns : Bool → Bool → Bool → Dns → DnsStart × Listeners
start_dns dials listens runs d =
    if d.disable
    then (disabled, record { udp = false; tcp = false })
    else if dials
    then if listens
      then if runs
        then (serving, record { udp = true; tcp = true })
        else (run_error, record { udp = false; tcp = false })
      else (tcp_error, record { udp = false; tcp = false })
    else (udp_error, record { udp = false; tcp = false })

-- A name space, a tunnel device or a service that runs on with the new configuration does what a
-- start with the new configuration would do: the node's routes and names, and the port and command.
pub runs_on :
    (same_params : Params → Params → Bool)
    → ((ns ci : Namespace) (name : Bytes) (pid : ℕ) (state : Netopus × Registry)
        → item_equal same_params (namespace_cfg ns) (namespace_cfg ci) ≡ true
        → start_namespace name ns pid state ≡ start_namespace name ci pid state)
      × ((t ci : TunDev) (name : Bytes) (n : Netopus)
          → item_equal same_params (tun_dev_cfg t) (tun_dev_cfg ci) ≡ true
          → start_tun_dev name t n ≡ start_tun_dev name ci n)
      × ((s ci : Service) (split : Bytes → Option (List Bytes)) (listen : ℕ → Bool)
          → item_equal same_params (service_cfg s) (service_cfg ci) ≡ true
          → run_service split listen s ≡ run_service split listen ci)
unfolding item_equal services_equal tun_devs_equal namespaces_equal start_namespace start_tun_dev
    run_service
runs_on same_params = (
  λ ns ci name pid (n, reg) h.
      let (a, c) = and_true (ci.address == ns.address) _ h in
      rw ((bytes_eq.beq_iff _ _).0 a, (nat_eq.beq_iff _ _).0 c) refl,
  λ t ci name n h.
      let (_, r) = and_true (t.device_name == ci.device_name) _ h in
      let (a, c) = and_true (t.address == ci.address) _ r in
      rw ((bytes_eq.beq_iff _ _).0 a, (nat_eq.beq_iff _ _).0 c) refl,
  λ s ci split listen h.
      let (p, c) = and_true (s.port == ci.port) _ h in
      rw ((nat_eq.beq_iff _ _).0 p, (bytes_eq.beq_iff _ _).0 c) refl,
)

-- Both listeners of port 53 are open when the name server runs, and otherwise none is: every error
-- closes what was opened before it.
pub start_dns-listeners :
    (dials listens runs : Bool) (d : Dns)
    → ((start_dns dials listens runs d).0 ≡ serving)
        × ((start_dns dials listens runs d).1 ≡ record { udp = true; tcp = true })
      ⊎ ((start_dns dials listens runs d).0 ≢ serving)
        × ((start_dns dials listens runs d).1 ≡ record { udp = false; tcp = false })
unfolding start_dns
start_dns-listeners dials listens runs d = elim (Bool-cases d.disable) [
  | inl t ↦ rw t (inr (λ e. absurd (cc), refl))
  | inr t ↦ rw t (opened dials listens runs)
]
  where
    opened :
        (dials listens runs : Bool)
        → ((start_dns dials listens runs (record { disable = false })).0 ≡ serving)
            × ((start_dns dials listens runs (record { disable = false })).1
                ≡ record { udp = true; tcp = true })
          ⊎ ((start_dns dials listens runs (record { disable = false })).0 ≢ serving)
            × ((start_dns dials listens runs (record { disable = false })).1
                ≡ record { udp = false; tcp = false })
    opened false listens runs = inr (λ e. absurd (cc), refl)
    opened true false runs = inr (λ e. absurd (cc), refl)
    opened true true false = inr (λ e. absurd (cc), refl)
    opened true true true = inl (refl, refl)
