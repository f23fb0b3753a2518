-- ===== src/Netopus/Updates/Liveness.antt =====
-- monitorDeadNodes.
use connectopus.Prelude.{
  ◌+◌, ◌≤◌, ◌<◌, ◌≡◌, refl, ap, sym, ◌∙◌, ◌⊎◌, ◌↔◌, inl, inr, Bool, true, false, Option, none, some,
  [], ◌∷◌, bytes_eq, ltb, ltb→lt, ltb→le, if◌then◌else◌, GoMap, get, keys, keys-get, Distinct,
  In-get, In-Distinct, ==-cases, In, In-cons_pair, Option-cases, Bool-cases, arith,
}
use mathlib.Core.List.Memᴰ
use connectopus.Proto.Ip.{Ip}
use connectopus.Router.Nodes.{Router, remove_node}
use connectopus.Router.Nodes.Table.{remove_node_removes}
use connectopus.Netopus.Node.{Time, minute, NodeInfo, Netopus}
use connectopus.Netopus.Updates.{prune_known, prune_router, monitor_dead_nodes}

-- The node's last update is more than a minute old.
unfoldable pub is_dead : Time → NodeInfo → Bool
is_dead now i = ltb (i.last_update + minute) now

unfoldable pub kept : Time → Option NodeInfo → Option NodeInfo
unfolding is_dead
kept now none = none
kept now (some i) = if is_dead now i then none else some i

get-prune_known :
    (now : Time) (node : Ip) (m : GoMap Ip NodeInfo)
    → Distinct (keys m)
    → get node (prune_known now m) ≡ kept now (get node m)
unfolding get prune_known kept
get-prune_known now node [] d = refl
get-prune_known now node ((k, i) ∷ m) d =
    let rest = get-prune_known now node m d.1 in
    elim (==-cases k node) [
      | inr (t, ne) ↦ elim (Bool-cases (ltb (i.last_update + minute) now)) [
        | inl dead ↦ rw (t, dead) rest
        | inr live ↦ rw (t, live, t) rest
      ]
      | inl (t, p) ↦ elim (Bool-cases (ltb (i.last_update + minute) now)) [
        | inr live ↦ rw (t, live, t) refl
        | inl dead ↦ elim (Option-cases (get node m)) [
          | inr (v, g) ↦ absurd (d.0 (rw p (keys-get node v m g)))
          | inl absent ↦ rw (t, dead) (rest ∙ rw absent refl)
        ]
      ]
    ]

-- The router's nodes after the round: without those that are dead.
nodes-prune_router :
    (now : Time) (node : Ip) (m : GoMap Ip NodeInfo) (r : Router)
    → (get node (prune_router now m r).nodes ≡ get node r.nodes)
        × ((i : NodeInfo) → In (node, i) m → is_dead now i ≡ false)
      ⊎ (get node (prune_router now m r).nodes ≡ none)
        × ((i : NodeInfo) × In (node, i) m × (is_dead now i ≡ true))
unfolding prune_router is_dead
nodes-prune_router now node [] r = inl (refl, λ i m. absurd (Memᴰ.not-nil m))
nodes-prune_router now node ((k, v) ∷ m) r = elim (Bool-cases (ltb (v.last_update + minute) now)) [
  | inr live ↦
      rw (live, prune_router)
        (elim (nodes-prune_router now node m r) [
          | inl (same, all) ↦ inl (
            same,
            λ i h. elim (In-cons_pair node i k v m h) [
              | inl (p, q) ↦ rw q live
              | inr later ↦ all i later
            ],
          )
          | inr (gone, (i, h, dead)) ↦ inr (gone, (i, Memᴰ.tail h, dead))
        ])
  | inl dead ↦
      rw (dead, prune_router)
        (elim (nodes-prune_router now node m (remove_node k r)) [
          | inr (gone, (i, h, old)) ↦ inr (gone, (i, Memᴰ.tail h, old))
          | inl (same, all) ↦ elim (==-cases k node) [
            | inl (t, p) ↦ inr (
              same ∙ rw p ((remove_node_removes node r).0),
              (v, Memᴰ.head (ap (λ x. (x, v)) (sym p)), dead),
            )
            | inr (t, ne) ↦ inl (
              same ∙ (remove_node_removes k r).1 node (λ e. ne (sym e)),
              λ i h. elim (In-cons_pair node i k v m h) [
                | inl (p, q) ↦ absurd (ne (sym p))
                | inr later ↦ all i later
              ],
            )
          ]
        ])
]

-- After a round a node is still known exactly if its last update is at most a minute old, with the
-- same information. The nodes that are more than a minute old are gone from the router too, whose
-- other nodes keep their connections.
pub monitor_dead_nodes-get :
    (now : Time) (n : Netopus) (node : Ip)
    → Distinct (keys n.known_node_info)
    → let n' = monitor_dead_nodes now n in
      ((i : NodeInfo)
        → (get node n'.known_node_info ≡ some i)
          ↔ (get node n.known_node_info ≡ some i) × (now ≤ i.last_update + minute))
      × ((i : NodeInfo)
          → get node n.known_node_info ≡ some i
          → i.last_update + minute < now
          → get node n'.router.nodes ≡ none)
      × (((i : NodeInfo) → get node n.known_node_info ≡ some i → now ≤ i.last_update + minute)
          → get node n'.router.nodes ≡ get node n.router.nodes)
unfolding monitor_dead_nodes kept is_dead
monitor_dead_nodes-get now n node d =
    let known = get-prune_known now node n.known_node_info d in
    let router = nodes-prune_router now node n.known_node_info n.router in
    (
      λ i. elim (Option-cases (get node n.known_node_info)) [
        | inl absent ↦ rw (known, absent) (λ e. cc, λ (e, _). cc)
        | inr (v, g) ↦ elim (Bool-cases (ltb (v.last_update + minute) now)) [
          | inl dead ↦
              rw (known, g, dead)
                (
                  λ e. cc,
                  λ (e, le). absurd (
                      let same : v ≡ i = cc in
                      let l : now ≤ v.last_update + minute = rw same le in
                      omega (arith, ltb→lt _ _ dead, l)),
                )
          | inr live ↦
              rw (known, g, live)
                (λ e. (e, let same : v ≡ i = cc in rw (← same) (ltb→le _ _ live)), λ (e, le). e)
        ]
      ],
      λ i g old. elim router [
        | inl (same, all) ↦ absurd (
            let live = all i (In-get node i n.known_node_info g) in
            omega (arith, old, ltb→le _ _ live))
        | inr (gone, _) ↦ gone
      ],
      λ young. elim router [
        | inl (same, all) ↦ same
        | inr (gone, (i, h, dead)) ↦ absurd (
            let le = young i (In-Distinct node i n.known_node_info d h) in
            omega (arith, le, ltb→lt _ _ dead))
      ],
    )
