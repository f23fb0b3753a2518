-- ===== src/Netopus/Updates/Names.antt =====
-- External names that routing updates carry from node to node.
use connectopus.Prelude.{
  suc, ◌^◌, ◌<◌, ◌≤◌, ◌≡◌, ◌≢◌, refl, sym, ap, ◌∙◌, ◌⊎◌, inl, inr, true, Option, none, some, [],
  ◌∷◌, Bytes, bytes_eq, ◌==◌, ==-cases, Bool-cases, Option-cases, some-injective, GoMap, get, put,
  get-put_self, get-put_ne, In-put, keys, keys-get, Distinct, put_items, or_else, item_of,
  get-put_items, Distinct-put_items,
}
use connectopus.Proto.Ip.{Ip}
use connectopus.Router.Nodes.{update_node}
use connectopus.Netopus.Node.{Time, NodeInfo, ExternalNameInfo, Netopus, RoutingUpdate}
use connectopus.Netopus.Names.{lookup_name}
use connectopus.Netopus.Names.Lookup.{NoNode, external}
use connectopus.Netopus.Updates.{
  generate_routing_update, update_names, learn_names, handle_routing_update, is_outdated,
  is_duplicate, read_update, flood_targets,
}
use connectopus.Netopus.Updates.Generated.{generated_is_news}

update_names-items :
    (m : GoMap Bytes ExternalNameInfo) (names : GoMap Bytes Ip)
    → update_names m names ≡ put_items (λ (v : ExternalNameInfo). v.ip) m names
unfolding update_names put_items
update_names-items [] names = refl
update_names-items ((k, v) ∷ m) names = update_names-items m (put k v.ip names)

-- A name that is not in the update.
learn_names-unlisted :
    (origin name : Bytes) (names : GoMap Bytes Ip) (en : GoMap Bytes ExternalNameInfo)
    → get name names ≡ none
    → get name (learn_names origin names en) ≡ get name en
unfolding learn_names get
learn_names-unlisted origin name [] en h = refl
learn_names-unlisted origin name ((k, v) ∷ names) en h = elim (==-cases k name) [
  | inl (t, _) ↦ absurd (let clash = rw (t, get) at h in cc)
  | inr (t, ne) ↦
      let rest = rw (t, get) at h in
      let other = get-put_ne k name (record { ip = v; from_node = origin }) en ne in
      elim (Option-cases (get k en)) [
        | inl new ↦ rw new (learn_names-unlisted origin name names _ rest ∙ other)
        | inr (old, known) ↦ rw known (elim (Bool-cases (old.from_node == [])) [
          | inl mine ↦ rw mine (learn_names-unlisted origin name names en rest)
          | inr theirs ↦ rw theirs (learn_names-unlisted origin name names _ rest ∙ other)
        ])
      ]
]

-- A name of the update, where the node has not added it itself.
learn_names-listed :
    (origin name : Bytes) (ip : Ip) (names : GoMap Bytes Ip) (en : GoMap Bytes ExternalNameInfo)
    → Distinct (keys names)
    → get name names ≡ some ip
    → ((r : ExternalNameInfo) → get name en ≡ some r → r.from_node ≢ [])
    → get name (learn_names origin names en) ≡ some (record { ip = ip; from_node = origin })
unfolding learn_names get
learn_names-listed origin name ip [] en d h foreign = absurd (cc)
learn_names-listed origin name ip ((k, v) ∷ names) en d h foreign = elim (==-cases k name) [
  | inl (t, e) ↦
      let same : v ≡ ip = some-injective (rw (t, get) at h) in
      let entry : ExternalNameInfo = record { ip = v; from_node = origin } in
      let put_here : get name (put k entry en) ≡ some (record { ip = ip; from_node = origin }) =
        rw (e, same) (get-put_self name _ en) in
      let unlisted : get name names ≡ none = elim (Option-cases (get name names)) [
        | inl absent ↦ absent
        | inr (w, there) ↦ absurd (d.0 (rw e (keys-get name w names there)))
      ] in
      let done = learn_names-unlisted origin name names (put k entry en) unlisted ∙ put_here in
      elim (Option-cases (get k en)) [
        | inl new ↦ rw new done
        | inr (old, known) ↦ elim (==-cases old.from_node []) [
          | inl (_, mine) ↦ absurd (foreign old (rw e at known) mine)
          | inr (theirs, _) ↦ rw (known, theirs) done
        ]
      ]
  | inr (t, ne) ↦
      let rest = rw (t, get) at h in
      let other = get-put_ne k name (record { ip = v; from_node = origin }) en ne in
      let after =
        learn_names-listed origin name ip names (put k (record { ip = v; from_node = origin }) en)
          d.1 rest (λ r g. foreign r (sym other ∙ g)) in
      elim (Option-cases (get k en)) [
        | inl new ↦ rw new after
        | inr (old, known) ↦ elim (Bool-cases (old.from_node == [])) [
          | inl mine ↦
              rw (known, mine) (learn_names-listed origin name ip names en d.1 rest foreign)
          | inr theirs ↦ rw (known, theirs) after
        ]
      ]
]

-- The entry of the origin, where the update is forwarded.
known_after : Time → RoutingUpdate → GoMap Ip NodeInfo → GoMap Ip NodeInfo
known_after now ru known =
    put ru.origin
      (record {
        name = ru.node_name;
        epoch = ru.update_epoch;
        sequence = ru.update_sequence;
        config_version = ru.config_version;
        last_update = now;
      })
      known

module _ (ip_string : Ip → Bytes) where
  forwarded-known :
      (now : Time) (ru : RoutingUpdate) (n : Netopus)
      → (handle_routing_update ip_string now ru n).forward ≡ true
      → (handle_routing_update ip_string now ru n).node.known_node_info
        ≡ known_after now ru n.known_node_info
  unfolding handle_routing_update known_after
  forwarded-known now ru n h = elim (Bool-cases (ip_string ru.origin == ip_string n.addr)) [
    | inl self ↦ absurd (let clash = rw (self, handle_routing_update) at h in cc)
    | inr other ↦ elim (Bool-cases (is_outdated ru (get ru.origin n.known_node_info))) [
      | inl old ↦ absurd (let clash = rw (other, old, handle_routing_update) at h in cc)
      | inr fresh ↦ elim (Bool-cases (is_duplicate ru (get ru.origin n.known_node_info))) [
        | inl dup ↦ absurd (let clash = rw (other, fresh, dup, handle_routing_update) at h in cc)
        | inr new ↦ rw (other, fresh, new) refl
      ]
    ]
  ]

  -- A node after an update that it forwards.
  record Informed (now : Time) (ru : RoutingUpdate) (n n' : Netopus) : Type 0 where
    pub names : n'.external_names ≡ learn_names (ip_string ru.origin) ru.names n.external_names
    pub known : n'.known_node_info ≡ known_after now ru n.known_node_info
    pub name : n'.name ≡ n.name

  read_update-Informed :
      (now : Time) (via : Ip) (ru : RoutingUpdate) (n : Netopus)
      → (handle_routing_update ip_string now ru n).forward ≡ true
      → ru.origin ≢ []
      → (n' : Netopus) × (read_update ip_string now via ru n
          ≡ some (n', flood_targets (some via) n.session_info))
        × Informed now ru n n'
  unfolding read_update update_node
  read_update-Informed now via ru n h named =
      let after = (handle_routing_update ip_string now ru n).node in
      elim (==-cases ru.origin []) [
        | inl (_, e) ↦ absurd (named e)
        | inr (t, _) ↦ elim (Option-cases (update_node ru.origin ru.connections after.router)) [
          | inl panics ↦ absurd (let clash = rw (t, update_node) at panics in cc)
          | inr (r, sets) ↦ (
            record n {
              known_node_info = after.known_node_info;
              router = r;
              external_names = learn_names (ip_string ru.origin) ru.names n.external_names;
            },
            rw (h, sets) refl,
            record { names = refl; known = forwarded-known now ru n h; name = refl },
          )
        ]
      ]

  Informed-NoNode :
      (now : Time) (ru : RoutingUpdate) (name : Bytes) (n n' : Netopus)
      → Informed now ru n n'
      → ru.node_name ≢ name
      → NoNode name n
      → NoNode name n'
  unfolding known_after
  Informed-NoNode now ru name n n' informed other (own, none_) = (
    λ e. own (e ∙ informed.name),
    λ k ni i e.
        elim (In-put k ru.origin ni _ n.known_node_info (rw (informed.known, known_after) at i)) [
          | inl (_, same) ↦ other (sym (ap (λ ni. ni.name) same) ∙ e)
          | inr before ↦ none_ k ni before e
        ],
  )

  -- The update that a node sends next, with what a peer needs to take it as news.
  pub record Hears (n peer : Netopus) : Type 0 where
    pub has_address : n.addr ≢ []
    pub sequence_fits : suc n.sequence < 2 ^ 64
    pub other : ip_string n.addr ≢ ip_string peer.addr
    pub not_newer :
        (ni : NodeInfo)
        → get n.addr peer.known_node_info ≡ some ni
        → (ni.epoch < n.epoch) ⊎ (ni.epoch ≡ n.epoch) × (ni.sequence ≤ n.sequence)
    pub go_map : Distinct (keys n.external_names)

  -- A peer that reads a node's next update resolves every external name of the node to the node's
  -- address for it, where it has not added that name itself and no node has it; a name that the
  -- node does not have, because it has deleted it or never had it, resolves as before the update.
  pub read_update-names :
      (now : Time) (via : Ip) (name : Bytes) (n peer : Netopus)
      → Hears n peer
      → NoNode name peer
      → n.name ≢ name
      → ((r : ExternalNameInfo) → get name peer.external_names ≡ some r → r.from_node ≢ [])
      → (peer' : Netopus) × (read_update ip_string now via (generate_routing_update n).1 peer
          ≡ some (peer', flood_targets (some via) peer.session_info))
        × ((v : ExternalNameInfo)
            → get name n.external_names ≡ some v
            → lookup_name name peer' ≡ v.ip)
        × (get name n.external_names ≡ none → lookup_name name peer' ≡ lookup_name name peer)
  unfolding generate_routing_update get
  read_update-names now via name n peer hears free differs foreign =
      let ru = (generate_routing_update n).1 in
      let news =
        generated_is_news ip_string n peer now hears.sequence_fits hears.other hears.not_newer in
      let (peer', read, informed) = read_update-Informed now via ru peer news.0 hears.has_address in
      let free' = Informed-NoNode now ru name peer peer' informed differs free in
      let listed : get name ru.names
          ≡ item_of (λ (v : ExternalNameInfo). v.ip) (get name n.external_names) =
        ap (get name) (update_names-items n.external_names [])
        ∙ get-put_items (λ (v : ExternalNameInfo). v.ip) n.external_names [] name hears.go_map
        ∙ or_none _ in
      let once : Distinct (keys ru.names) =
        rw (update_names-items n.external_names [])
          (Distinct-put_items (λ (v : ExternalNameInfo). v.ip) n.external_names [] tt) in
      (
        peer',
        read,
        λ v there. external name peer' _ free' (
            ap (get name) informed.names
            ∙ learn_names-listed (ip_string n.addr) name v.ip ru.names peer.external_names once
                (listed ∙ (rw there refl)) foreign),
        λ absent.
            external name peer' _ free' (
              ap (get name) informed.names
              ∙ learn_names-unlisted (ip_string n.addr) name ru.names peer.external_names
                  (listed ∙ (rw absent refl)))
            ∙ sym (external name peer _ free refl),
      )
    where
      or_none : (o : Option Ip) → or_else o (get name []) ≡ o
      or_none none = refl
      or_none (some a) = refl
