-- ===== src/Router/Policy/Candidates.antt =====
-- Which candidate the route of a subnet goes to.
use connectopus.Prelude.{
  ◌≤◌, ◌<◌, ◌≡◌, ◌≢◌, refl, ◌⊎◌, inl, inr, List, [], ◌∷◌, ltb, ltb→lt, ltb→le, In, In-cons,
  not-In-nil, Bool-cases, ==-cases, bytes_eq, arith,
}
use connectopus.Proto.Ip.{Ip}
use connectopus.Router.Float.{Cost, zero_cost, max_cost}
use connectopus.Router.Policy.{RoutingPolicy, via_of, best_candidate}

module _ (cost : Ip → Cost) (policy : RoutingPolicy) where
  -- One candidate of the loop.
  best_candidate_step :
      (c : Ip) (cands : List Ip) (best : Ip) (lowest : Cost)
      → (cost (via_of policy c) < lowest)
          × (best_candidate cost policy (c ∷ cands) best lowest
              ≡ best_candidate cost policy cands (via_of policy c) (cost (via_of policy c)))
        ⊎ (lowest ≤ cost (via_of policy c))
          × (best_candidate cost policy (c ∷ cands) best lowest
              ≡ best_candidate cost policy cands best lowest)
  unfolding best_candidate
  best_candidate_step c cands best lowest =
      elim (Bool-cases (ltb (cost (via_of policy c)) lowest)) [
        | inl better ↦ inl (ltb→lt _ _ better, rw (better, best_candidate))
        | inr worse ↦ inr (ltb→le _ _ worse, rw (worse, best_candidate))
      ]

  hidden :
      (cands : List Ip)
      → cost [] ≡ zero_cost
      → ((d : Ip) → In d cands → via_of policy d ≢ [] → zero_cost < cost (via_of policy d))
      → (best_candidate cost policy cands [] zero_cost).0 ≡ []
  unfolding best_candidate
  hidden [] z pos = refl
  hidden (d ∷ cands) z pos = elim (best_candidate_step d cands [] zero_cost) [
    | inl (less, e) ↦ absurd (elim (==-cases (via_of policy d) []) [
      | inl (_, none_) ↦ let c : cost (via_of policy d) ≡ zero_cost = rw none_ z in omega arith
      | inr (_, some_) ↦ omega (arith, pos d ((In-cons d d cands).1 (inl refl)) some_)
    ])
    | inr (_, e) ↦ rw e (hidden cands z (λ x m. pos x ((In-cons x d cands).1 (inr m))))
  ]

  hides :
      (cands : List Ip) (best : Ip) (lowest : Cost) (c : Ip)
      → cost [] ≡ zero_cost
      → ((d : Ip) → In d cands → via_of policy d ≢ [] → zero_cost < cost (via_of policy d))
      → zero_cost < lowest
      → In c cands
      → via_of policy c ≡ []
      → (best_candidate cost policy cands best lowest).0 ≡ []
  hides [] best lowest c z pos low m e = absurd (not-In-nil c m)
  hides (d ∷ cands) best lowest c z pos low m e =
      let later = λ (x : Ip) (r : In x cands). pos x ((In-cons x d cands).1 (inr r)) in
      elim (==-cases (via_of policy d) []) [
        | inl (_, none_) ↦
            let free : cost (via_of policy d) ≡ zero_cost = rw none_ z in
            elim (best_candidate_step d cands best lowest) [
              | inl (_, s) ↦ rw (s, free, none_) (hidden cands z later)
              | inr (more, _) ↦ absurd (omega arith)
            ]
        | inr (_, some_) ↦
            let paid = pos d ((In-cons d d cands).1 (inl refl)) some_ in
            let rest : In c cands = elim ((In-cons c d cands).0 m) [
              | inl now ↦ absurd (some_ (rw (← now) e))
              | inr r ↦ r
            ] in
            elim (best_candidate_step d cands best lowest) [
              | inl (_, s) ↦
                  rw s
                    (hides cands (via_of policy d) (cost (via_of policy d)) c z later paid rest e)
              | inr (_, s) ↦ rw s (hides cands best lowest c z later low rest e)
            ]
      ]

-- A candidate without a route, which the loop reads as first hop "" with label 0, hides the
-- subnet: if the first hops towards the other candidates have labels above 0, none is chosen.
pub unrouted_candidate_hides :
    (cost : Ip → Cost) (policy : RoutingPolicy) (cands : List Ip) (c : Ip)
    → cost [] ≡ zero_cost
    → ((d : Ip) → In d cands → via_of policy d ≢ [] → zero_cost < cost (via_of policy d))
    → In c cands
    → via_of policy c ≡ []
    → (best_candidate cost policy cands [] max_cost).0 ≡ []
unrouted_candidate_hides cost policy cands c z pos m e =
    hides cost policy cands [] max_cost c z pos (omega arith) m e
