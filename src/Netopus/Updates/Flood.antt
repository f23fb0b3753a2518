-- ===== src/Netopus/Updates/Flood.antt =====
-- To whom an update is flooded, and which names a node learns from it.
use connectopus.Prelude.{
  ◌≡◌, ◌≢◌, ap, sym, ◌∙◌, ◌↔◌, inl, inr, true, ◌&&◌, some, [], ◌∷◌, Bytes, bytes_eq, bytes_beq_iff,
  ◌==◌, GoMap, get, put, get-put_ne, ==-cases, In, In-cons, In-cons_pair, not-In-nil, Option-cases,
  Bool-cases, arith,
}
use mathlib.Core.List.Memᴰ
use connectopus.Proto.Ip.{Ip}
use connectopus.Netopus.Node.{ExternalNameInfo, Session}
use connectopus.Netopus.Updates.{is_connected, flood_targets, learn_names}

pair_eq :
    {node peer : Ip} {sess : Session}
    → node ≡ peer
    → ◌≡◌ {A = Ip × Session} (node, sess) (peer, sess)
pair_eq {node} {peer} {sess} p = ap (λ x. (x, sess)) p

-- An update from the peer `via` is written to exactly the other peers whose session is connected
-- and has its routing connection.
pub flooded_iff :
    (via node : Ip) (s : GoMap Ip Session)
    → In node (flood_targets (some via) s) ↔ (
        (sess : Session) × In (node, sess) s
        × (node ≢ via)
        × (is_connected sess.connection_state ≡ true)
        × (sess.has_route_conn ≡ true))
unfolding flood_targets
flooded_iff via node [] =
    (λ i. absurd (not-In-nil node i), λ (x, i, _, _, _). absurd (Memᴰ.not-nil i))
flooded_iff via node ((peer, sess) ∷ s) = elim (==-cases peer via) [
  | inl (t, is_via) ↦ rw t (
    λ i. let (se, m, ne, c, r) = (flooded_iff via node s).0 i in (se, Memᴰ.tail m, ne, c, r),
    λ (se, m, ne, c, r). elim (In-cons_pair node se peer sess s m) [
      | inl (p, q) ↦ absurd (ne (p ∙ is_via))
      | inr later ↦ (flooded_iff via node s).1 (se, later, ne, c, r)
    ],
  )
  | inr (t, not_via) ↦
      elim (Bool-cases (is_connected sess.connection_state && sess.has_route_conn)) [
        | inl up ↦
            rw (t, up)
              (
                λ i. elim ((In-cons node peer (flood_targets (some via) s)).0 i) [
                  | inl p ↦ (
                    sess,
                    Memᴰ.head (pair_eq p),
                    λ e. not_via (sym p ∙ e),
                    ground arith,
                    ground arith,
                  )
                  | inr later ↦
                      let (se, m, ne, c, r) = (flooded_iff via node s).0 later in
                      (se, Memᴰ.tail m, ne, c, r)
                ],
                λ (se, m, ne, c, r). elim (In-cons_pair node se peer sess s m) [
                  | inl (p, q) ↦ Memᴰ.head p
                  | inr later ↦ Memᴰ.tail ((flooded_iff via node s).1 (se, later, ne, c, r))
                ],
              )
        | inr down ↦
            rw (t, down)
              (
                λ i.
                    let (se, m, ne, c, r) = (flooded_iff via node s).0 i in
                    (se, Memᴰ.tail m, ne, c, r),
                λ (se, m, ne, c, r). elim (In-cons_pair node se peer sess s m) [
                  | inl (p, q) ↦ absurd (
                      let c' : is_connected sess.connection_state ≡ true = rw (← q) c in
                      let r' : sess.has_route_conn ≡ true = rw (← q) r in ground arith)
                  | inr later ↦ (flooded_iff via node s).1 (se, later, ne, c, r)
                ],
              )
      ]
]

-- A name that the node added itself, with no node that it came from, keeps its address.
pub learn_names-own :
    (origin k : Bytes) (names : GoMap Bytes Ip) (en : GoMap Bytes ExternalNameInfo)
    (r : ExternalNameInfo)
    → get k en ≡ some r
    → r.from_node ≡ []
    → get k (learn_names origin names en) ≡ some r
unfolding learn_names
learn_names-own origin k [] en r g own = g
learn_names-own origin k ((j, v) ∷ names) en r g own = elim (==-cases j k) [
  | inl (t, p) ↦
      rw (p, g, (bytes_beq_iff r.from_node []).1 own) (learn_names-own origin k names en r g own)
  | inr (t, ne) ↦
      let after : get k (put j (record { ip = v; from_node = origin }) en) ≡ some r =
        get-put_ne j k _ en ne ∙ g in
      elim (Option-cases (get j en)) [
        | inl new ↦ rw new (learn_names-own origin k names _ r after own)
        | inr (old, known) ↦ rw known (elim (Bool-cases (old.from_node == [])) [
          | inl mine ↦ rw mine (learn_names-own origin k names en r g own)
          | inr theirs ↦ rw theirs (learn_names-own origin k names _ r after own)
        ])
      ]
]
