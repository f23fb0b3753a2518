-- ===== src/Router/Policy/Hosts.antt =====
-- The host routes of the new policy.
use connectopus.Prelude.{
  ℕ, ◌≡◌, ◌≢◌, refl, sym, ◌∙◌, ◌⊎◌, inl, inr, Option, none, some, List, [], ◌∷◌, bytes_eq, length,
  get, put, get-put_self, get-put_ne, In, In-cons, not-In-nil, ==-cases, Option-cases, arith,
}
use connectopus.Proto.Ip.{Ip}
use connectopus.Proto.Subnet.{new_host_only_subnet}
use connectopus.Proto.Subnet.Contains.{host_only-injective}
use connectopus.Router.Policy.{RoutingPolicy, first_hop, host_routes}

abbrev AllIpv6 : List Ip → Type 0
AllIpv6 [] = Unit
AllIpv6 (v ∷ nodes) = (length v ≡ 16) × AllIpv6 nodes

pub AllIpv6-of : (nodes : List Ip) → ((v : Ip) → In v nodes → length v ≡ 16) → AllIpv6 nodes
AllIpv6-of [] h = tt
AllIpv6-of (v ∷ nodes) h = (
  h v ((In-cons v v nodes).1 (inl refl)),
  AllIpv6-of nodes (λ w m. h w ((In-cons w v nodes).1 (inr m))),
)

module _ (fuel : ℕ) (prev : Ip → Ip) (my : Ip) where
  abbrev answer : Ip → Option (Option Ip)
  answer v = first_hop fuel prev my v

  answer-cases :
      (v : Ip)
      → (answer v ≡ none) ⊎ (answer v ≡ some none) ⊎ ((p : Ip) × (answer v ≡ some (some p)))
  answer-cases v = elim (Option-cases (answer v)) [
    | inl out ↦ inl out
    | inr (r, e) ↦ elim (Option-cases r) [
      | inl f ↦ inr (inl (rw f at e))
      | inr (p, f) ↦ inr (inr (p, rw f at e))
    ]
  ]

  -- The route of another node leaves this one's alone.
  get-put_other :
      (v w p : Ip) (policy : RoutingPolicy)
      → length v ≡ 16
      → length w ≡ 16
      → w ≢ v
      → get (new_host_only_subnet v) (put (new_host_only_subnet w) p policy)
        ≡ get (new_host_only_subnet v) policy
  get-put_other v w p policy lv lw ne =
      get-put_ne (new_host_only_subnet w) (new_host_only_subnet v) p policy
        (λ e. ne (host_only-injective w v lw lv e))

  pub host_routes_returns :
      (nodes : List Ip) (policy : RoutingPolicy)
      → ((v : Ip) → answer v ≢ none)
      → host_routes fuel prev my nodes policy ≢ none
  unfolding host_routes
  host_routes_returns [] policy h = λ e. cc
  host_routes_returns (v ∷ nodes) policy h = elim (answer-cases v) [
    | inl out ↦ absurd (h v out)
    | inr (inl a) ↦ rw (a, host_routes) (host_routes_returns nodes policy h)
    | inr (inr (p, a)) ↦
        rw (a, host_routes) (host_routes_returns nodes (put (new_host_only_subnet v) p policy) h)
  ]

  -- A node with a first hop gets a route, and keeps it.
  pub get-host_routes-some :
      (v p : Ip) (nodes : List Ip) (policy result : RoutingPolicy)
      → length v ≡ 16
      → AllIpv6 nodes
      → answer v ≡ some (some p)
      → (get (new_host_only_subnet v) policy ≡ some p) ⊎ In v nodes
      → host_routes fuel prev my nodes policy ≡ some result
      → get (new_host_only_subnet v) result ≡ some p
  unfolding host_routes
  get-host_routes-some v p [] policy result lv all a (inl old) h = ground arith
  get-host_routes-some v p [] policy result lv all a (inr m) h = absurd (not-In-nil v m)
  get-host_routes-some v p (w ∷ nodes) policy result lv all a have h = elim (answer-cases w) [
    | inl out ↦ ground arith
    | inr (inl b) ↦
        get-host_routes-some v p nodes policy result lv all.1 a
          (elim have [
            | inl old ↦ inl old
            | inr m ↦ elim ((In-cons v w nodes).0 m) [
              | inl now ↦ absurd (let c : answer v ≡ some none = rw now b in cc)
              | inr later ↦ inr later
            ]
          ])
          (rw (b, host_routes) at h)
    | inr (inr (q, b)) ↦
        get-host_routes-some v p nodes (put (new_host_only_subnet w) q policy) result lv all.1 a
          (elim (==-cases w v) [
            | inl (t, same) ↦
                let c : answer v ≡ some (some q) = rw (← same) b in
                let r : q ≡ p = cc in
                inl (rw (← same, ← r) (get-put_self (new_host_only_subnet w) q policy))
            | inr (t, other) ↦ elim have [
              | inl old ↦ inl (get-put_other v w q policy lv all.0 other ∙ old)
              | inr m ↦ elim ((In-cons v w nodes).0 m) [
                | inl now ↦ absurd (other (sym now))
                | inr later ↦ inr later
              ]
            ]
          ])
          (rw (b, host_routes) at h)
  ]

  -- A node without one keeps none.
  pub get-host_routes-none :
      (v : Ip) (nodes : List Ip) (policy result : RoutingPolicy)
      → length v ≡ 16
      → AllIpv6 nodes
      → answer v ≡ some none
      → get (new_host_only_subnet v) policy ≡ none
      → host_routes fuel prev my nodes policy ≡ some result
      → get (new_host_only_subnet v) result ≡ none
  unfolding host_routes
  get-host_routes-none v [] policy result lv all a old h = ground arith
  get-host_routes-none v (w ∷ nodes) policy result lv all a old h = elim (answer-cases w) [
    | inl out ↦ ground arith
    | inr (inl b) ↦
        get-host_routes-none v nodes policy result lv all.1 a old (rw (b, host_routes) at h)
    | inr (inr (q, b)) ↦
        let other : w ≢ v = λ same. let c : answer v ≡ some (some q) = rw (← same) b in cc in
        get-host_routes-none v nodes (put (new_host_only_subnet w) q policy) result lv all.1 a
          (get-put_other v w q policy lv all.0 other ∙ old) (rw (b, host_routes) at h)
  ]
