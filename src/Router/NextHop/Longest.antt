-- ===== src/Router/NextHop/Longest.antt =====
-- What the loop of NextHop finds.
use connectopus.Prelude.{
  ℕ, ◌≤◌, ◌≡◌, refl, ◌⊎◌, inl, inr, true, false, ◌&&◌, Option, none, some, [], ◌∷◌, ltb, ltb→lt,
  ltb→le, if◌then◌else◌, ◌↔◌, In, In-cons_pair, not-In-nil, Bool-cases, arith, bytes_eq,
}
use mathlib.Core.List.Memᴰ
use connectopus.Proto.Ip.{Ip}
use connectopus.Proto.Subnet.{Subnet, contains, subnet_prefix}
use connectopus.Router.Policy.{RoutingPolicy}
use connectopus.Router.NextHop.{is_longer, longest_match, next_hop}

-- The best route of a policy for a destination, and its prefix.
pub record IsBest (policy : RoutingPolicy) (dest : Ip) (n : ℕ) (hop : Ip) : Type 0 where
  pub route : Subnet
  pub member : In (route, hop) policy
  pub covers : contains route dest ≡ true
  pub prefix : subnet_prefix route ≡ n
  pub longest :
      (k : Subnet) (v : Ip) → In (k, v) policy → contains k dest ≡ true → subnet_prefix k ≤ n

-- What is known of the loop's variables after it has gone through `seen`.
abbrev Found : RoutingPolicy → Ip → Option (ℕ × Ip) → Type 0
Found seen dest none = (k : Subnet) (v : Ip) → In (k, v) seen → contains k dest ≡ false
Found seen dest (some (n, hop)) = IsBest seen dest n hop

module _ (dest : Ip) (k : Subnet) (v : Ip) (seen : RoutingPolicy) where
  abbrev after : Option (ℕ × Ip) → Option (ℕ × Ip)
  after found =
      if contains k dest && is_longer (subnet_prefix k) found
      then some (subnet_prefix k, v)
      else found

  Found-step :
      (found : Option (ℕ × Ip)) → Found seen dest found → Found ((k, v) ∷ seen) dest (after found)
  unfolding is_longer
  Found-step none f = elim (Bool-cases (contains k dest)) [
    | inl yes_ ↦ rw yes_ (record {
      route = k;
      member = Memᴰ.head refl;
      covers = yes_;
      prefix = refl;
      longest = λ j w m c. elim (In-cons_pair j w k v seen m) [
        | inl (p, _) ↦ rw p (omega arith)
        | inr r ↦ absurd (let n = f j w r in cc)
      ];
    })
    | inr no_ ↦
        rw no_
          (λ j w m. elim (In-cons_pair j w k v seen m) [ inl (p, _) ↦ rw p no_ | inr r ↦ f j w r ])
  ]
  Found-step (some (n, hop)) f = elim (Bool-cases (contains k dest)) [
    | inr no_ ↦ rw no_ (record {
      route = f.route;
      member = Memᴰ.tail f.member;
      covers = f.covers;
      prefix = f.prefix;
      longest = λ j w m c. elim (In-cons_pair j w k v seen m) [
        | inl (p, _) ↦ absurd (let d : contains k dest ≡ true = rw (← p) c in cc)
        | inr r ↦ f.longest j w r c
      ];
    })
    | inl yes_ ↦ elim (Bool-cases (ltb n (subnet_prefix k))) [
      | inl longer ↦
          rw (yes_, longer)
            (record {
              route = k;
              member = Memᴰ.head refl;
              covers = yes_;
              prefix = refl;
              longest = λ j w m c. elim (In-cons_pair j w k v seen m) [
                | inl (p, _) ↦ rw p (omega arith)
                | inr r ↦ omega (arith, f.longest j w r c, ltb→lt _ _ longer)
              ];
            })
      | inr shorter ↦
          rw (yes_, shorter)
            (record {
              route = f.route;
              member = Memᴰ.tail f.member;
              covers = f.covers;
              prefix = f.prefix;
              longest = λ j w m c. elim (In-cons_pair j w k v seen m) [
                | inl (p, _) ↦ rw p (ltb→le _ _ shorter)
                | inr r ↦ f.longest j w r c
              ];
            })
    ]
  ]

-- `all` holds the same entries as two other lists together.
abbrev Joins : RoutingPolicy → RoutingPolicy → RoutingPolicy → Type 0
Joins all rest seen = (k : Subnet) (v : Ip) → In (k, v) all ↔ (In (k, v) rest ⊎ In (k, v) seen)

Found-join :
    (dest : Ip) (seen all : RoutingPolicy) (found : Option (ℕ × Ip))
    → Joins all [] seen
    → Found seen dest found
    → Found all dest found
Found-join dest seen all none j f =
    λ k v m. elim ((j k v).0 m) [ inl r ↦ absurd (not-In-nil (k, v) r) | inr s ↦ f k v s ]
Found-join dest seen all (some (n, hop)) j f = record {
  route = f.route;
  member = (j f.route hop).1 (inr f.member);
  covers = f.covers;
  prefix = f.prefix;
  longest = λ k v m c. elim ((j k v).0 m) [
    | inl r ↦ absurd (not-In-nil (k, v) r)
    | inr s ↦ f.longest k v s c
  ];
}

longest_match-Found :
    (dest : Ip) (rest seen all : RoutingPolicy) (found : Option (ℕ × Ip))
    → Joins all rest seen
    → Found seen dest found
    → Found all dest (longest_match dest rest found)
unfolding longest_match
longest_match-Found dest [] seen all found j f = Found-join dest seen all found j f
longest_match-Found dest ((k, v) ∷ rest) seen all found j f =
    longest_match-Found dest rest ((k, v) ∷ seen) all (after dest k v seen found)
      (λ i w. (
        λ m. elim ((j i w).0 m) [
          | inl r ↦ elim (In-cons_pair i w k v rest r) [
            | inl (p, q) ↦ inr (rw (p, q) (Memᴰ.head refl))
            | inr later ↦ inl later
          ]
          | inr s ↦ inr (Memᴰ.tail s)
        ],
        λ h. elim h [
          | inl later ↦ (j i w).1 (inl (Memᴰ.tail later))
          | inr s ↦ elim (In-cons_pair i w k v seen s) [
            | inl (p, q) ↦ (j i w).1 (inl (rw (p, q) (Memᴰ.head refl)))
            | inr older ↦ (j i w).1 (inr older)
          ]
        ],
      ))
      (Found-step dest k v seen found f)

-- NextHop fails exactly when no subnet of the policy contains the destination. Otherwise it returns
-- the hop of a route that contains it, and no route that contains it has a longer prefix.
pub next_hop_longest :
    (policy : RoutingPolicy) (dest : Ip)
    → (next_hop policy dest ≡ none)
        × ((k : Subnet) (v : Ip) → In (k, v) policy → contains k dest ≡ false)
      ⊎ ((n : ℕ) × (hop : Ip) × (next_hop policy dest ≡ some hop) × IsBest policy dest n hop)
unfolding next_hop
next_hop_longest policy dest =
    let whole =
      longest_match-Found dest policy [] policy none
        (λ k v. (inl, λ h. elim h [ inl m ↦ m | inr s ↦ absurd (not-In-nil (k, v) s) ]))
        (λ k v m. absurd (not-In-nil (k, v) m)) in
    result (longest_match dest policy none) refl whole
  where
    result :
        (r : Option (ℕ × Ip))
        → longest_match dest policy none ≡ r
        → Found policy dest r
        → (next_hop policy dest ≡ none)
            × ((k : Subnet) (v : Ip) → In (k, v) policy → contains k dest ≡ false)
          ⊎ ((n : ℕ) × (hop : Ip) × (next_hop policy dest ≡ some hop) × IsBest policy dest n hop)
    result none e f = inl (rw (e, next_hop), f)
    result (some (n, hop)) e f = inr (n, hop, rw (e, next_hop), f)
