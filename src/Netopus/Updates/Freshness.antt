-- ===== src/Netopus/Updates/Freshness.antt =====
-- Which routing updates a node accepts.
use connectopus.Prelude.{
  ℕ, ◌≤◌, ◌<◌, ◌≡◌, ◌≢◌, refl, sym, ◌∙◌, ◌⊎◌, ◌↔◌, inl, inr, true, false, Option, none, some, Bytes,
  bytes_eq, nat_eq, get, get-put_self, get-put_ne, ◌==◌, ==-cases, Bool-cases, arith,
}
use connectopus.Proto.Ip.{Ip}
use connectopus.Netopus.Node.{Time, NodeInfo, Netopus, RoutingUpdate}
use connectopus.Netopus.Updates.{is_outdated, is_duplicate, handle_routing_update}

-- The order of updates of one origin: by epoch, then by sequence number.
abbrev pub Newer : ℕ → ℕ → ℕ → ℕ → Type 0
Newer epoch sequence e s = (e < epoch) ⊎ (e ≡ epoch) × (s < sequence)

-- The update is newer than what is known of its origin; from an unknown origin it is newer than 0/0.
abbrev pub IsNews : RoutingUpdate → Option NodeInfo → Type 0
IsNews ru none = Newer ru.update_epoch ru.update_sequence 0 0
IsNews ru (some ni) = Newer ru.update_epoch ru.update_sequence ni.epoch ni.sequence

-- The node has an entry for the origin, and this epoch and sequence number are not newer.
abbrev pub Knows : Ip → ℕ → ℕ → Netopus → Type 0
Knows origin epoch sequence n =
    (ni : NodeInfo) × (get origin n.known_node_info ≡ some ni)
    × ((epoch < ni.epoch) ⊎ (epoch ≡ ni.epoch) × (sequence ≤ ni.sequence))

IsNews-tests :
    (ru : RoutingUpdate) (o : Option NodeInfo)
    → (is_outdated ru o ≡ false) × (is_duplicate ru o ≡ false) ↔ IsNews ru o
unfolding is_outdated is_duplicate
IsNews-tests ru none = ground arith
IsNews-tests ru (some ni) = ground arith

module _ (ip_string : Ip → Bytes) where
  -- Handling an update leaves the node's address.
  pub handle-addr :
      (now : Time) (ru : RoutingUpdate) (n : Netopus)
      → (handle_routing_update ip_string now ru n).node.addr ≡ n.addr
  unfolding handle_routing_update
  handle-addr now ru n =
      let o = get ru.origin n.known_node_info in
      elim (Bool-cases (ip_string ru.origin == ip_string n.addr)) [
        | inl self ↦ rw self refl
        | inr t ↦ elim (Bool-cases (is_outdated ru o)) [
          | inl old ↦ rw (t, old) refl
          | inr not_old ↦ elim (Bool-cases (is_duplicate ru o)) [
            | inl dup ↦ rw (t, not_old, dup) refl
            | inr fresh ↦ rw (t, not_old, fresh) refl
          ]
        ]
      ]

  -- The two ends that handling an update can have.
  handled :
      (now : Time) (ru : RoutingUpdate) (n : Netopus)
      → let h = handle_routing_update ip_string now ru n in
        (h.forward ≡ false)
          × (h.node ≡ n)
          × ((ip_string ru.origin ≢ ip_string n.addr) × IsNews ru (get ru.origin n.known_node_info)
              → ⊥)
        ⊎ (h.forward ≡ true)
          × (ip_string ru.origin ≢ ip_string n.addr)
          × IsNews ru (get ru.origin n.known_node_info)
          × (get ru.origin h.node.known_node_info
              ≡ some (record {
                name = ru.node_name;
                epoch = ru.update_epoch;
                sequence = ru.update_sequence;
                config_version = ru.config_version;
                last_update = now;
              }))
          × ((other : Ip)
              → other ≢ ru.origin
              → get other h.node.known_node_info ≡ get other n.known_node_info)
  unfolding handle_routing_update
  handled now ru n =
      let o = get ru.origin n.known_node_info in
      elim (==-cases (ip_string ru.origin) (ip_string n.addr)) [
        | inl (t, self) ↦ rw t (inl (refl, refl, λ w. w.0 self))
        | inr (t, ne) ↦ elim (Bool-cases (is_outdated ru o)) [
          | inl old ↦ rw (t, old) (inl (refl, refl, λ w. cc ((IsNews-tests ru o).1 w.1).0))
          | inr not_old ↦ elim (Bool-cases (is_duplicate ru o)) [
            | inl dup ↦
                rw (t, not_old, dup) (inl (refl, refl, λ w. cc ((IsNews-tests ru o).1 w.1).1))
            | inr fresh ↦
                rw (t, not_old, fresh)
                  (inr (
                    refl,
                    ne,
                    (IsNews-tests ru o).0 (not_old, fresh),
                    get-put_self ru.origin _ n.known_node_info,
                    λ other h. get-put_ne ru.origin other _ n.known_node_info (λ e. h (sym e)),
                  ))
          ]
        ]
      ]

  -- An update is forwarded, and its origin's entry replaced by its contents, exactly if its origin
  -- does not print as this node's address and it is newer than what is known of the origin.
  -- Otherwise nothing changes.
  pub forward_iff_IsNews :
      (now : Time) (ru : RoutingUpdate) (n : Netopus)
      → let h = handle_routing_update ip_string now ru n in
        ((h.forward ≡ true)
          ↔ (ip_string ru.origin ≢ ip_string n.addr) × IsNews ru (get ru.origin n.known_node_info))
        × (h.forward ≡ false → h.node ≡ n)
        × (h.forward ≡ true
            → get ru.origin h.node.known_node_info
              ≡ some (record {
                name = ru.node_name;
                epoch = ru.update_epoch;
                sequence = ru.update_sequence;
                config_version = ru.config_version;
                last_update = now;
              }))
        × ((other : Ip)
            → other ≢ ru.origin
            → get other h.node.known_node_info ≡ get other n.known_node_info)
  forward_iff_IsNews now ru n = elim (handled now ru n) [
    | inl (f, same, why) ↦
        ((λ t. absurd (cc), λ w. absurd (why w)), λ _. same, λ t. absurd (cc), λ other h. rw same)
    | inr (t, ne, news, here, rest) ↦ ((λ _. (ne, news), λ _. t), λ f. absurd (cc), λ _. here, rest)
  ]

  -- Nothing that the node handles later takes back what it knows.
  pub Knows-handle :
      (origin : Ip) (e s : ℕ) (now : Time) (ru : RoutingUpdate) (n : Netopus)
      → Knows origin e s n
      → Knows origin e s (handle_routing_update ip_string now ru n).node
  Knows-handle origin e s now ru n (ni, g, le) = elim (handled now ru n) [
    | inl (f, same, why) ↦ rw same (ni, g, le)
    | inr (t, ne, news, here, rest) ↦ elim (==-cases origin ru.origin) [
      | inr (_, other) ↦ (ni, rest origin other ∙ g, le)
      | inl (_, same) ↦
          let old : get ru.origin n.known_node_info ≡ some ni = rw (← same) g in
          let newer : IsNews ru (some ni) = rw old at news in
          (
            record {
              name = ru.node_name;
              epoch = ru.update_epoch;
              sequence = ru.update_sequence;
              config_version = ru.config_version;
              last_update = now;
            },
            rw same here,
            ground arith,
          )
    ]
  ]

  pub Knows-not_news :
      (now : Time) (ru : RoutingUpdate) (n : Netopus)
      → Knows ru.origin ru.update_epoch ru.update_sequence n
      → (handle_routing_update ip_string now ru n).forward ≡ false
  Knows-not_news now ru n (ni, g, le) = elim (handled now ru n) [
    | inl (f, _, _) ↦ f
    | inr (t, ne, news, _, _) ↦
        let newer : IsNews ru (some ni) = rw g at news in absurd (ground arith)
  ]
