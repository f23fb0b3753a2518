-- ===== src/Netopus/Names/Lookup.antt =====
-- LookupName and LookupIP after names are added and deleted.
use connectopus.Prelude.{
  ℕ, ◌≡◌, ◌≢◌, refl, sym, ◌⊎◌, inl, inr, false, Option, none, some, [], ◌∷◌, Bytes, bytes_eq,
  bytes_beq_iff, ◌==◌, ltb, GoMap, get, get-put_self, get-put_ne, get-del_self, get-del_ne, In,
  length, ==-cases, Option-cases, Bool-cases, arith,
}
use mathlib.Core.List.Memᴰ
use connectopus.Proto.Ip.{Ip}
use connectopus.Netopus.Node.{ExternalNameInfo, NodeInfo, Netopus}
use connectopus.Netopus.Names.{add_external_name, del_external_name, find_node, lookup_name}

-- No node has this name.
abbrev pub NoNode : Bytes → Netopus → Type 0
NoNode name n =
    (name ≢ n.name) × ((k : Ip) (ni : NodeInfo) → In (k, ni) n.known_node_info → ni.name ≢ name)

find_node-none :
    (name : Bytes) (m : GoMap Ip NodeInfo)
    → ((k : Ip) (ni : NodeInfo) → In (k, ni) m → ni.name ≢ name)
    → find_node name m ≡ []
unfolding find_node
find_node-none name [] h = refl
find_node-none name ((k, v) ∷ m) h = elim (==-cases v.name name) [
  | inl (t, p) ↦ absurd (h k v (Memᴰ.head refl) p)
  | inr (t, p) ↦ rw t (find_node-none name m (λ j ni i. h j ni (Memᴰ.tail i)))
]

-- A node's name that the lookup finds is one of a known node with that name.
find_node-In :
    (name : Bytes) (m : GoMap Ip NodeInfo)
    → (find_node name m ≡ []) ⊎ ((ni : NodeInfo) × In (find_node name m, ni) m × (ni.name ≡ name))
unfolding find_node
find_node-In name [] = inl refl
find_node-In name ((k, v) ∷ m) = elim (==-cases v.name name) [
  | inl (t, p) ↦ rw t (inr (v, Memᴰ.head refl, p))
  | inr (t, p) ↦ rw t (elim (find_node-In name m) [
    | inl none_ ↦ inl none_
    | inr (ni, i, q) ↦ inr (ni, Memᴰ.tail i, q)
  ])
]

pub external :
    (name : Bytes) (n : Netopus) (o : Option ExternalNameInfo)
    → NoNode name n
    → get name n.external_names ≡ o
    → lookup_name name n ≡ (elim o [ some v ↦ v.ip | none ↦ [] ])
unfolding lookup_name
external name n o (other, no_node) g =
    let differs : (name == n.name) ≡ false = ground (arith, bytes_beq_iff name n.name) in
    rw (differs, find_node-none name n.known_node_info no_node, g) refl

lookup_with :
    (name : Bytes) (n : Netopus) (en : GoMap Bytes ExternalNameInfo) (k : ℕ)
    → get name en ≡ get name n.external_names
    → lookup_name name (record n { external_names = en; update_requests = k }) ≡ lookup_name name n
unfolding lookup_name
lookup_with name n en k same = rw same refl

-- A name that is added resolves to its address, and one that is deleted to none, where no node has
-- the name: a node's own name takes precedence. Other external names stay as they were.
pub lookup_name-external :
    (name : Bytes) (ip : Ip) (n : Netopus)
    → NoNode name n
    → (lookup_name name (add_external_name name ip n) ≡ ip)
      × (lookup_name name (del_external_name name n) ≡ [])
      × ((other : Bytes)
          → other ≢ name
          → (lookup_name other (add_external_name name ip n) ≡ lookup_name other n)
            × (lookup_name other (del_external_name name n) ≡ lookup_name other n))
unfolding add_external_name del_external_name
lookup_name-external name ip n free = (
  external name (add_external_name name ip n) _ free (get-put_self name _ n.external_names),
  external name (del_external_name name n) _ free (get-del_self name n.external_names),
  λ other ne. (
    lookup_with other n _ _ (get-put_ne name other _ n.external_names (λ e. ne (sym e))),
    lookup_with other n _ _ (get-del_ne name other n.external_names (λ e. ne (sym e))),
  ),
)

-- Of a name that LookupName resolves, the address is the node's own, that of a known node with this
-- name, or that of the external name.
pub lookup_name_sound :
    (name : Bytes) (n : Netopus)
    → lookup_name name n ≢ []
    → (name ≡ n.name) × (lookup_name name n ≡ n.addr)
      ⊎ ((ni : NodeInfo) × In (lookup_name name n, ni) n.known_node_info × (ni.name ≡ name))
      ⊎ ((v : ExternalNameInfo) × (get name n.external_names ≡ some v)
          × (lookup_name name n ≡ v.ip))
unfolding lookup_name
lookup_name_sound name n found = elim (==-cases name n.name) [
  | inl (t, own) ↦ inl (own, rw t refl)
  | inr (t, other) ↦ elim (Bool-cases (ltb 0 (length (find_node name n.known_node_info)))) [
    | inl some_ ↦ elim (find_node-In name n.known_node_info) [
      | inr (ni, i, q) ↦ rw (t, some_) (inr (inl (ni, i, q)))
      | inl none_ ↦ absurd (let clash = rw none_ at some_ in cc)
    ]
    | inr empty ↦ elim (Option-cases (get name n.external_names)) [
      | inl no_name ↦ absurd (found (rw (t, empty, no_name) refl))
      | inr (v, g) ↦ inr (inr (v, g, rw (t, empty, g) refl))
    ]
  ]
]
