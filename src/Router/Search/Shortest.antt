-- ===== src/Router/Search/Shortest.antt =====
-- When the queue is empty the labels are the costs of shortest walks.
use native.Mathlib.Nat.{le_antisymm}
use connectopus.Prelude.{
  ◌≤◌, ◌<◌, ◌≡◌, ◌≢◌, subst, refl, ◌⊎◌, inl, inr, some, List, [], ◌∷◌, bytes_eq, bytes_beq_iff,
  ◌==◌, if◌then◌else◌, GoMap, update, In, In-cons, not-In-nil, arith,
}
use connectopus.Proto.Ip.{Ip}
use connectopus.Router.Float.{Cost, zero_cost, max_cost, Adder}
use connectopus.Router.Queue.{Queue}
use connectopus.Router.Search.{Search, init_node, init_nodes, start, relax_all, budget, search}
use connectopus.Router.Search.Labels.{IsGraph, Walk, here, step, Chain, root, back, Inv, Closed}
use connectopus.Router.Search.Relax.{Within, relax_all-keeps}
use connectopus.Router.Search.Loop.{loop_rule, search_ends, AllIn}

Within-all : (todo es : GoMap Ip Cost) → ((p : Ip × Cost) → In p todo → In p es) → Within todo es
Within-all [] es h = tt
Within-all (p ∷ todo) es h = (
  h p ((In-cons p p todo).1 (inl refl)),
  Within-all todo es (λ q m. h q ((In-cons q p todo).1 (inr m))),
)

module _ (float : Adder) (queue : Queue) (edges : Ip → GoMap Ip Cost) (my : Ip) where
  -- The labels while they are set up, with the nodes that have been seen.
  record Fresh (s : Search float queue) : Type 0 where
    start_cost : s.cost my ≡ zero_cost
    no_prev : (v : Ip) → s.prev v ≡ []
    low : (v : Ip) → zero_cost ≤ s.cost v
    high : (v : Ip) → s.cost v ≤ max_cost

  Fresh-init_node :
      (node : Ip) (s : Search float queue) → Fresh s → Fresh (init_node float queue my node s)
  unfolding init_node update
  Fresh-init_node node s f = record {
    start_cost = ground (arith, f.start_cost, bytes_beq_iff node my);
    no_prev = λ v. ground (arith, f.no_prev v);
    low = λ v. ground (arith, f.low v);
    high = λ v. ground (arith, f.high v);
  }

  Fresh-init_nodes :
      (nodes : List Ip) (s : Search float queue)
      → Fresh s
      → Fresh (init_nodes float queue my nodes s)
  unfolding init_nodes
  Fresh-init_nodes [] s f = f
  Fresh-init_nodes (node ∷ nodes) s f =
      Fresh-init_nodes nodes (init_node float queue my node s) (Fresh-init_node node s f)

  -- Every node is given the cost 0 or the largest, and is put into the queue.
  abbrev Ready : Search float queue → Ip → Type 0
  Ready s v = ((v ≡ my) ⊎ (s.cost v ≡ max_cost)) × queue.Holds v s.pending

  Ready-cost :
      (node v : Ip) (s : Search float queue)
      → (v ≡ node) ⊎ Ready s v
      → (v ≡ my) ⊎ ((init_node float queue my node s).cost v ≡ max_cost)
  unfolding init_node update
  Ready-cost node v s h = ground (arith, bytes_beq_iff node my, bytes_beq_iff node v)

  Ready-init_node :
      (node v : Ip) (s : Search float queue)
      → (v ≡ node) ⊎ Ready s v
      → Ready (init_node float queue my node s) v
  unfolding init_node
  Ready-init_node node v s h =
      let c : Cost = if node == my then zero_cost else max_cost in
      (
        Ready-cost node v s h,
        elim h [
          | inl now ↦ rw now (queue.insert_holds node c s.pending)
          | inr r ↦ queue.insert_keeps v node c s.pending r.1
        ],
      )

  Ready-init_nodes :
      (nodes : List Ip) (v : Ip) (s : Search float queue)
      → Ready s v ⊎ In v nodes
      → Ready (init_nodes float queue my nodes s) v
  unfolding init_nodes
  Ready-init_nodes [] v s (inl r) = r
  Ready-init_nodes [] v s (inr m) = absurd (not-In-nil v m)
  Ready-init_nodes (node ∷ nodes) v s (inl r) =
      Ready-init_nodes nodes v (init_node float queue my node s)
        (inl (Ready-init_node node v s (inr r)))
  Ready-init_nodes (node ∷ nodes) v s (inr m) = elim ((In-cons v node nodes).0 m) [
    | inl now ↦
        Ready-init_nodes nodes v (init_node float queue my node s)
          (inl (Ready-init_node node v s (inl now)))
    | inr later ↦ Ready-init_nodes nodes v (init_node float queue my node s) (inr later)
  ]

  Fresh-start : (nodes : List Ip) → Fresh (start float queue my nodes)
  unfolding start
  Fresh-start nodes = Fresh-init_nodes nodes _ (record {
    start_cost = refl;
    no_prev = λ v. refl;
    low = λ v. omega arith;
    high = λ v. omega arith;
  })

  Ready-start : (nodes : List Ip) (v : Ip) → In v nodes → Ready (start float queue my nodes) v
  unfolding start
  Ready-start nodes v m = Ready-init_nodes nodes v _ (inr m)

  start-Inv : (nodes : List Ip) → Inv float queue edges my nodes (start float queue my nodes)
  start-Inv nodes =
      let f = Fresh-start nodes in
      record {
        start_cost = f.start_cost;
        start_prev = f.no_prev my;
        not_negative = f.low;
        bounded = f.high;
        reached = λ v m h. elim (Ready-start nodes v m).0 [
          | inl r ↦ inl r
          | inr c ↦ absurd (omega arith)
        ];
        labelled = λ v p. absurd (p (f.no_prev v));
        chained = λ v p. absurd (p (f.no_prev v));
      }

  start-Closed :
      (nodes : List Ip)
      → IsGraph nodes edges
      → Closed float queue edges my my [] (start float queue my nodes)
  start-Closed nodes g x v e m = inl (Ready-start nodes x (g.source x v e m)).1

  -- What holds after every round, and what the empty queue adds.
  abbrev Between : List Ip → Search float queue → Type 0
  Between nodes s = Inv float queue edges my nodes s × Closed float queue edges my my [] s

  round-keeps :
      (nodes : List Ip)
      → IsGraph nodes edges
      → (s : Search float queue) (u : Ip) (rest : queue.Q) → queue.pop s.pending ≡ some (u, rest)
      → Between nodes s
      → Between nodes (relax_all float queue u (edges u) (record s { pending = rest }))
  round-keeps nodes g s u rest e (inv, closed) =
      let popped = record s { pending = rest } in
      let (inv', closed') =
        relax_all-keeps float queue edges my nodes g u (edges u) popped
          (Within-all (edges u) (edges u) (λ p m. m))
          (record {
            start_cost = inv.start_cost;
            start_prev = inv.start_prev;
            not_negative = inv.not_negative;
            bounded = inv.bounded;
            reached = inv.reached;
            labelled = inv.labelled;
            chained = inv.chained;
          })
          (λ x v c m. elim (closed x v c m) [
            | inl waits ↦ elim (queue.pop_keeps x u s.pending rest e waits) [
              | inl now ↦ inr (inr (now, subst (λ y. In (v, c) (edges y)) now m))
              | inr later ↦ inl later
            ]
            | inr (inl le) ↦ inr (inl le)
            | inr (inr (_, seen)) ↦ absurd (not-In-nil (v, c) seen)
          ]) in
      (
        inv',
        λ x v c m. elim (closed' x v c m) [
          | inl waits ↦ inl waits
          | inr (inl le) ↦ inr (inl le)
          | inr (inr (_, seen)) ↦ absurd (not-In-nil (v, c) seen)
        ],
      )

  -- A state in which no edge can lower a label any more.
  pub record IsFinal (nodes : List Ip) (s : Search float queue) : Type 0 where
    pub inv : Inv float queue edges my nodes s
    pub relaxed : (u v : Ip) (e : Cost) → In (v, e) (edges u) → s.cost v ≤ float.add (s.cost u) e

  pub search-IsFinal :
      (nodes : List Ip)
      → IsGraph nodes edges
      → (t : Search float queue) → search float queue edges my nodes ≡ some t
      → IsFinal nodes t
  unfolding search
  search-IsFinal nodes g t h =
      let ((inv, closed), empty) =
        loop_rule float queue edges (Between nodes) (round-keeps nodes g)
          (budget float queue edges nodes (start float queue my nodes)) (start float queue my nodes)
          t (start-Inv nodes, start-Closed nodes g) h in
      record {
        inv = inv;
        relaxed = λ u v e m. elim (closed u v e m) [
          | inl waits ↦ absurd (queue.pop_empty u t.pending empty waits)
          | inr (inl le) ↦ le
          | inr (inr (_, seen)) ↦ absurd (not-In-nil (v, e) seen)
        ];
      }

  module _ (nodes : List Ip) (g : IsGraph nodes edges) (s : Search float queue)
      (f : IsFinal nodes s) where
    Walk-low : {v : Ip} {c : Cost} → Walk float edges my v c → zero_cost ≤ c
    Walk-low here = omega arith
    Walk-low (step {u} {v} {c} {e} w m) =
        omega (arith, Walk-low w, float.add_grows c e (Walk-low w) (g.cost u v e m))

    -- No walk costs less than the label of the node where it ends.
    pub label-le : {v : Ip} {c : Cost} → Walk float edges my v c → s.cost v ≤ c
    label-le here = omega (arith, f.inv.start_cost)
    label-le (step {u} {v} {c} {e} w m) =
        let mono =
          float.add_mono (s.cost u) c e (f.inv.not_negative u) (g.cost u v e m) (label-le w) in
        omega (arith, mono, f.relaxed u v e m)

    -- The edge back along `prev` accounts for the label.
    pub label-eq :
        (v : Ip)
        → s.prev v ≢ []
        → (e : Cost) × In (v, e) (edges (s.prev v)) × (s.cost v ≡ float.add (s.cost (s.prev v)) e)
    label-eq v p =
        let (e, m, le) = f.inv.labelled v p in (e, m, le_antisymm (f.relaxed (s.prev v) v e m) le)

    pub Chain-Walk : {v : Ip} → Chain my s.prev v → Walk float edges my v (s.cost v)
    Chain-Walk (root r) = rw (r, f.inv.start_cost) here
    Chain-Walk (back {v} p c) = let (e, m, eq) = label-eq v p in rw eq (step (Chain-Walk c) m)

    pub reached-Walk :
        (v : Ip) → In v nodes → s.cost v < max_cost → Walk float edges my v (s.cost v)
    reached-Walk v m h = elim (f.inv.reached v m h) [
      | inl r ↦ rw (r, f.inv.start_cost) here
      | inr p ↦ Chain-Walk (f.inv.chained v p)
    ]

-- On a graph whose edges lead from node to node and have costs that are not negative, the search
-- returns. The label of each node is then at most the cost of every walk to it, and a label below
-- MaxFloat32 is the cost of a walk. Walks are summed as the code sums them, by float32 addition.
pub search_shortest :
    (float : Adder) (queue : Queue) (edges : Ip → GoMap Ip Cost) (my : Ip) (nodes : List Ip)
    → IsGraph nodes edges
    → (t : Search float queue) × (search float queue edges my nodes ≡ some t)
      × ((v : Ip) (c : Cost) → Walk float edges my v c → t.cost v ≤ c)
      × ((v : Ip) → In v nodes → t.cost v < max_cost → Walk float edges my v (t.cost v))
search_shortest float queue edges my nodes g =
    let (t, h) = search_ends float queue nodes edges (λ u. targets (edges u) u (λ p m. m)) my in
    let f = search-IsFinal float queue edges my nodes g t h in
    (
      t,
      h,
      λ v c w. label-le float queue edges my nodes g t f w,
      reached-Walk float queue edges my nodes g t f,
    )
  where
    targets :
        (es : GoMap Ip Cost) (u : Ip)
        → ((p : Ip × Cost) → In p es → In p (edges u))
        → AllIn float queue nodes es
    targets [] u h = tt
    targets ((v, e) ∷ es) u h = (
      g.target u v e (h (v, e) ((In-cons (v, e) (v, e) es).1 (inl refl))),
      targets es u (λ q m. h q ((In-cons q (v, e) es).1 (inr m))),
    )
