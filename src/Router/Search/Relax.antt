-- ===== src/Router/Search/Relax.antt =====
-- One relaxation keeps what holds of the labels.
use connectopus.Prelude.{
  ◌≤◌, ◌<◌, ◌≡◌, ◌≢◌, subst, sym, ◌⊎◌, inl, inr, List, [], ◌∷◌, bytes_eq, ltb, ltb→lt, ltb→le,
  GoMap, update, update_self, update_ne, In, In-cons, ==-cases, Bool-cases, arith,
}
use native.Mathlib.Nat.{le_trans}
use connectopus.Proto.Ip.{Ip}
use connectopus.Router.Float.{Cost, zero_cost, max_cost, Adder}
use connectopus.Router.Queue.{Queue}
use connectopus.Router.Search.{Search, relax, relax_all}
use connectopus.Router.Search.Labels.{IsGraph, Chain, root, back, Labelled, Inv, Closed}

-- Every edge of the first list is one of the second.
abbrev pub Within : GoMap Ip Cost → GoMap Ip Cost → Type 0
Within [] es = Unit
Within (p ∷ todo) es = In p es × Within todo es

module _ (float : Adder) (queue : Queue) (edges : Ip → GoMap Ip Cost) (my : Ip) (nodes : List Ip)
    (g : IsGraph nodes edges) where
  module _ (u w : Ip) (e : Cost) (edge : In (w, e) (edges u)) (s : Search float queue)
      (inv : Inv float queue edges my nodes s) (less : float.add (s.cost u) e < s.cost w) where
    -- The state after the relaxation of the edge.
    after : Search float queue
    after = record {
      cost = update s.cost w (float.add (s.cost u) e);
      prev = update s.prev w u;
      pending = queue.insert w (float.add (s.cost u) e) s.pending;
    }

    source_le : s.cost u ≤ float.add (s.cost u) e
    source_le = float.add_grows (s.cost u) e (inv.not_negative u) (g.cost u w e edge)

    my-ne : w ≢ my
    my-ne same =
        let c : s.cost w ≡ zero_cost = rw same inv.start_cost in
        omega (arith, source_le, inv.not_negative u)

    source-ne : w ≢ u
    source-ne same = let c : s.cost w ≡ s.cost u = rw same in omega (arith, source_le)

    source-ne-nil : u ≢ []
    source-ne-nil same = g.no_empty (subst (λ x. In x nodes) same (g.source u w e edge))

    -- The chain from a node with a smaller label does not pass through `w`.
    Chain-below :
        {x : Ip} → Chain my s.prev x → s.cost x < s.cost w → Chain my (update s.prev w u) x
    Chain-below (root r) h = root r
    Chain-below (back {v} p c) h =
        let (e', m, le) = inv.labelled v p in
        let grows =
          float.add_grows (s.cost (s.prev v)) e' (inv.not_negative (s.prev v))
            (g.cost (s.prev v) v e' m) in
        let other : w ≢ v = λ same. absurd (let c : s.cost w ≡ s.cost v = rw same in omega arith) in
        let kept = update_ne s.prev w v u other in
        back (rw kept p) (rw kept (Chain-below c (omega (arith, grows, le))))

    Chain-source : Chain my (update s.prev w u) u
    Chain-source =
        let low : s.cost u < s.cost w = omega (arith, source_le) in
        elim (inv.reached u (g.source u w e edge) (omega (arith, inv.bounded w))) [
          | inl r ↦ root r
          | inr p ↦ Chain-below (inv.chained u p) low
        ]

    Chain-after : {x : Ip} → Chain my s.prev x → Chain my (update s.prev w u) x
    Chain-after (root r) = root r
    Chain-after (back {v} p c) =
        let rest = Chain-after c in
        elim (==-cases w v) [
          | inl (t, same) ↦
              let new : update s.prev w u v ≡ u = rw (← same) (update_self s.prev w u) in
              back (rw new source-ne-nil) (rw new Chain-source)
          | inr (t, other) ↦
              let kept = update_ne s.prev w v u other in back (rw kept p) (rw kept rest)
        ]

    -- The labels of a node after the relaxation: the new ones, or the old ones.
    labels_after :
        (v : Ip)
        → (w ≡ v) × (after.cost v ≡ float.add (s.cost u) e) × (after.prev v ≡ u)
          ⊎ (w ≢ v) × (after.cost v ≡ s.cost v) × (after.prev v ≡ s.prev v)
    unfolding after
    labels_after v = elim (==-cases w v) [
      | inl (t, same) ↦ inl (
        same,
        rw (← same) (update_self s.cost w (float.add (s.cost u) e)),
        rw (← same) (update_self s.prev w u),
      )
      | inr (t, other) ↦
          inr (
            other,
            update_ne s.cost w v (float.add (s.cost u) e) other,
            update_ne s.prev w v u other,
          )
    ]

    cost_falls : (v : Ip) → after.cost v ≤ s.cost v
    cost_falls v = elim (labels_after v) [
      | inl (same, c, p) ↦ let old : s.cost w ≡ s.cost v = rw same in omega arith
      | inr (other, c, p) ↦ omega arith
    ]

    not_negative_after : (v : Ip) → zero_cost ≤ after.cost v
    not_negative_after v = elim (labels_after v) [
      | inl (same, c, p) ↦ omega (arith, source_le, inv.not_negative u)
      | inr (other, c, p) ↦ omega (arith, inv.not_negative v)
    ]

    -- The edge of an old label still serves, since its source's cost has not grown.
    kept_label :
        (v : Ip)
        → s.prev v ≢ []
        → s.cost v ≡ after.cost v
        → after.prev v ≡ s.prev v
        → Labelled float queue edges my after v
    kept_label v p c q =
        let (e', m, le) = inv.labelled v p in
        let mono =
          float.add_mono (after.cost (s.prev v)) (s.cost (s.prev v)) e'
            (not_negative_after (s.prev v)) (g.cost (s.prev v) v e' m) (cost_falls (s.prev v)) in
        (e', rw q m, rw q (omega (arith, mono, le)))

    Labelled-after : (v : Ip) → after.prev v ≢ [] → Labelled float queue edges my after v
    Labelled-after v p = elim (labels_after v) [
      | inl (same, c, q) ↦
          let kept : after.cost u ≡ s.cost u = elim (labels_after u) [
            | inl (clash, _, _) ↦ absurd (source-ne clash)
            | inr (other, k, _) ↦ k
          ] in
          (e, rw (q, ← same) edge, rw (q, kept, c) (omega arith))
      | inr (other, c, q) ↦ kept_label v (rw q at p) (sym c) q
    ]

    reached_after : (v : Ip) → In v nodes → after.cost v < max_cost → (v ≡ my) ⊎ (after.prev v ≢ [])
    reached_after v m h = elim (labels_after v) [
      | inl (same, c, q) ↦ inr (rw q source-ne-nil)
      | inr (other, c, q) ↦ rw q (inv.reached v m (omega arith))
    ]

    chained_after : (v : Ip) → after.prev v ≢ [] → Chain my after.prev v
    unfolding after
    chained_after v p = elim (labels_after v) [
      | inl (same, c, q) ↦ back p (rw q Chain-source)
      | inr (other, c, q) ↦ Chain-after (inv.chained v (rw q at p))
    ]

    start_after : (after.cost my ≡ zero_cost) × (after.prev my ≡ [])
    start_after = elim (labels_after my) [
      | inl (same, c, q) ↦ absurd (my-ne same)
      | inr (other, c, q) ↦ (rw c inv.start_cost, rw q inv.start_prev)
    ]

    after-Inv : Inv float queue edges my nodes after
    after-Inv = record {
      start_cost = start_after.0;
      start_prev = start_after.1;
      not_negative = not_negative_after;
      bounded = λ v. omega (arith, cost_falls v, inv.bounded v);
      reached = reached_after;
      labelled = Labelled-after;
      chained = chained_after;
    }

    edge_relaxed :
        (x v : Ip) (e' : Cost)
        → x ≡ u
        → ◌≡◌ {A = Ip × Cost} (v, e') (w, e)
        → after.cost v ≤ float.add (s.cost x) e'
    edge_relaxed x v e' from now =
        let target : w ≡ v = cc in
        let cost : float.add (s.cost x) e' ≡ float.add (s.cost u) e = cc in
        elim (labels_after v) [
          | inl (_, c, _) ↦ omega arith
          | inr (other, _, _) ↦ absurd (other target)
        ]

    -- The edge is looked at: its target may wait in the queue, and no other edge is disturbed.
    after-Closed :
        (todo : GoMap Ip Cost)
        → Closed float queue edges my u ((w, e) ∷ todo) s
        → Closed float queue edges my u todo after
    unfolding after
    after-Closed todo closed x v e' m = elim (labels_after x) [
      | inl (same, _, _) ↦
          inl (rw (← same) (queue.insert_holds w (float.add (s.cost u) e) s.pending))
      | inr (other, kept, _) ↦ elim (closed x v e' m) [
        | inl waits ↦ inl (queue.insert_keeps x w (float.add (s.cost u) e) s.pending waits)
        | inr (inl le) ↦ inr (inl (rw kept (le_trans (cost_falls v) le)))
        | inr (inr (from, seen)) ↦ elim ((In-cons (v, e') (w, e) todo).0 seen) [
          | inl now ↦ inr (inl (rw kept (edge_relaxed x v e' from now)))
          | inr later ↦ inr (inr (from, later))
        ]
      ]
    ]

  module _ (u w : Ip) (e : Cost) (edge : In (w, e) (edges u)) (s : Search float queue)
      (inv : Inv float queue edges my nodes s) where
    pub relax-Inv : Inv float queue edges my nodes (relax float queue u w e s)
    unfolding relax after
    relax-Inv = elim (Bool-cases (ltb (float.add (s.cost u) e) (s.cost w))) [
      | inl less ↦ rw less (after-Inv u w e edge s inv (ltb→lt _ _ less))
      | inr not_less ↦ rw not_less inv
    ]

    pub relax-Closed :
        (todo : GoMap Ip Cost)
        → Closed float queue edges my u ((w, e) ∷ todo) s
        → Closed float queue edges my u todo (relax float queue u w e s)
    unfolding relax after
    relax-Closed todo closed = elim (Bool-cases (ltb (float.add (s.cost u) e) (s.cost w))) [
      | inl less ↦ rw less (after-Closed u w e edge s inv (ltb→lt _ _ less) todo closed)
      | inr not_less ↦ rw not_less (λ x v e' m. elim (closed x v e' m) [
        | inl waits ↦ inl waits
        | inr (inl le) ↦ inr (inl le)
        | inr (inr (from, seen)) ↦ elim ((In-cons (v, e') (w, e) todo).0 seen) [
          | inl now ↦ inr (inl (already (ltb→le _ _ not_less) x v e' from now))
          | inr later ↦ inr (inr (from, later))
        ]
      ])
    ]
      where
        already :
            s.cost w ≤ float.add (s.cost u) e
            → (x v : Ip) (e' : Cost) → x ≡ u
            → ◌≡◌ {A = Ip × Cost} (v, e') (w, e)
            → s.cost v ≤ float.add (s.cost x) e'
        already le x v e' from now =
            let target : s.cost v ≡ s.cost w = cc in
            let cost : float.add (s.cost x) e' ≡ float.add (s.cost u) e = cc in omega arith

  -- A round over edges of `u`.
  pub relax_all-keeps :
      (u : Ip) (todo : GoMap Ip Cost) (s : Search float queue)
      → Within todo (edges u)
      → Inv float queue edges my nodes s
      → Closed float queue edges my u todo s
      → Inv float queue edges my nodes (relax_all float queue u todo s)
        × Closed float queue edges my u [] (relax_all float queue u todo s)
  unfolding relax_all
  relax_all-keeps u [] s sub inv closed = (inv, closed)
  relax_all-keeps u ((w, e) ∷ todo) s sub inv closed =
      relax_all-keeps u todo (relax float queue u w e s) sub.1 (relax-Inv u w e sub.0 s inv)
        (relax-Closed u w e sub.0 s inv todo closed)
