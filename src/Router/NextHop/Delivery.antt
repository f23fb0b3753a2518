-- ===== src/Router/NextHop/Delivery.antt =====
-- NextHop on a policy of CIDR subnets: the order of the map does not matter, and a host route wins.
use connectopus.Prelude.{
  ℕ, ◌≡◌, refl, ap, sym, ◌∙◌, inl, inr, true, false, some, bytes_eq, In, In-get, In-Distinct,
  Distinct, keys, keys_of_In, get, arith,
}
use connectopus.Proto.Ip.{Ip}
use connectopus.Proto.Subnet.{Subnet, contains, new_host_only_subnet}
use connectopus.Proto.Subnet.Contains.{IsIpv6, contains-host_only, host_only-prefix}
use connectopus.Proto.Subnet.Cidr.{IsCidr, cidr_unique, cidr-prefix, host_only-IsCidr}
use connectopus.Router.Policy.{RoutingPolicy}
use connectopus.Router.NextHop.{next_hop}
use connectopus.Router.NextHop.Longest.{IsBest, next_hop_longest}

-- A policy as the router holds it: each subnet once, and CIDR subnets only.
pub record IsTable (policy : RoutingPolicy) : Type 0 where
  pub distinct : Distinct (keys policy)
  pub cidr : (k : Subnet) → In k (keys policy) → IsCidr k

best-same :
    (p q : RoutingPolicy) (dest : Ip) (n m : ℕ) (g h : Ip)
    → IsTable p
    → IsTable q
    → ((k : Subnet) → get k p ≡ get k q)
    → IsIpv6 dest
    → IsBest p dest n g
    → IsBest q dest m h
    → g ≡ h
best-same p q dest n m g h tp tq same d bp bq =
    let gp = In-Distinct bp.route g p tp.distinct bp.member in
    let gq = In-Distinct bq.route h q tq.distinct bq.member in
    let in_q = In-get bp.route g q (sym (same bp.route) ∙ gp) in
    let in_p = In-get bq.route h p (same bq.route ∙ gq) in
    let route : bp.route ≡ bq.route =
      cidr_unique bp.route bq.route dest (tp.cidr bp.route (keys_of_In bp.route g p bp.member))
        (tq.cidr bq.route (keys_of_In bq.route h q bq.member)) d bp.covers bq.covers
        (omega (
          arith,
          bp.prefix,
          bq.prefix,
          bp.longest bq.route h in_p bq.covers,
          bq.longest bp.route g in_q bp.covers,
        )) in
    let g_q : get bq.route q ≡ some g = rw (← route) (sym (same bp.route) ∙ gp) in cc

missed :
    (p q : RoutingPolicy) (dest : Ip) (n : ℕ) (g : Ip)
    → IsTable p
    → ((k : Subnet) → get k p ≡ get k q)
    → IsBest p dest n g
    → ((k : Subnet) (v : Ip) → In (k, v) q → contains k dest ≡ false)
    → ⊥
missed p q dest n g tp same b none_ =
    let gp = In-Distinct b.route g p tp.distinct b.member in
    let c = none_ b.route g (In-get b.route g q (sym (same b.route) ∙ gp)) in let t = b.covers in cc

-- For an IPv6 destination NextHop gives the same answer, or the same failure, on every two
-- policies with the same routes, in whatever order the maps are visited.
pub next_hop_order :
    (p q : RoutingPolicy) (dest : Ip)
    → IsTable p
    → IsTable q
    → ((k : Subnet) → get k p ≡ get k q)
    → IsIpv6 dest
    → next_hop p dest ≡ next_hop q dest
next_hop_order p q dest tp tq same d = elim (next_hop_longest p dest) [
  | inl (e, none_) ↦ elim (next_hop_longest q dest) [
    | inl (f, _) ↦ e ∙ sym f
    | inr (m, h, f, b) ↦ absurd (missed q p dest m h tq (λ k. sym (same k)) b none_)
  ]
  | inr (n, g, e, b) ↦ elim (next_hop_longest q dest) [
    | inl (f, none_) ↦ absurd (missed p q dest n g tp same b none_)
    | inr (m, h, f, c) ↦ e ∙ ap some (best-same p q dest n m g h tp tq same d b c) ∙ sym f
  ]
]

-- A route to the host itself is the one that NextHop takes.
pub next_hop_host :
    (policy : RoutingPolicy) (dest p : Ip)
    → IsTable policy
    → IsIpv6 dest
    → get (new_host_only_subnet dest) policy ≡ some p
    → next_hop policy dest ≡ some p
next_hop_host policy dest p t d g =
    let host = new_host_only_subnet dest in
    let member = In-get host p policy g in
    let covers : contains host dest ≡ true = (contains-host_only dest dest d d).1 refl in
    elim (next_hop_longest policy dest) [
      | inl (e, none_) ↦ absurd (let c = none_ host p member in cc)
      | inr (n, h, e, b) ↦
          let key = t.cidr b.route (keys_of_In b.route h policy b.member) in
          let route : b.route ≡ host =
            cidr_unique b.route host dest key (host_only-IsCidr dest d) d b.covers covers (
              omega (
                arith,
                b.prefix,
                host_only-prefix dest d.len,
                cidr-prefix b.route key,
                key.fits,
                b.longest host p member covers,
              )) in
          let found : get host policy ≡ some h =
            rw (← route) (In-Distinct b.route h policy t.distinct b.member) in
          let hop : h ≡ p = cc in e ∙ ap some hop
    ]
