-- ===== src/Router/Policy/FirstHop.antt =====
-- The walk back along `prev`: it ends, and it finds the first hop of a cheapest walk.
use Prim.Native.Nat.{zero, suc}
use connectopus.Prelude.{
  ℕ, ◌≤◌, ◌<◌, ◌≡◌, ◌≢◌, refl, inl, inr, none, some, List, [], bytes_eq, bytes_beq_iff, dec_lt,
  length, GoMap, In, ==-cases, arith,
}
use connectopus.Proto.Ip.{Ip}
use connectopus.Router.Float.{Cost, zero_cost, max_cost, Adder}
use connectopus.Router.Queue.{Queue}
use connectopus.Router.Search.{Search}
use connectopus.Router.Search.Labels.{IsGraph, Walk, here, step, Chain, root, back}
use connectopus.Router.Search.Shortest.{IsFinal, label-eq}
use connectopus.Router.Policy.{first_hop}
use connectopus.Router.Policy.Depth.{depth, depth-le-length}

-- The walks from `my` whose first edge leads to `p`.
pub data WalkVia (float : Adder) (edges : Ip → GoMap Ip Cost) (my p : Ip) : Ip → Cost → Type 0 where
  first : {e : Cost} → In (p, e) (edges my) → WalkVia float edges my p p (float.add zero_cost e)
  onward :
      {u v : Ip} {c e : Cost}
      → WalkVia float edges my p u c
      → In (v, e) (edges u)
      → WalkVia float edges my p v (float.add c e)

-- A walk to another node has a first hop.
pub Walk-first :
    {float : Adder} {edges : Ip → GoMap Ip Cost} {my p : Ip} {v : Ip} {c : Cost}
    → WalkVia float edges my p v c
    → Walk float edges my v c
Walk-first (first m) = step here m
Walk-first (onward w m) = step (Walk-first w) m

module _ (float : Adder) (queue : Queue) (edges : Ip → GoMap Ip Cost) (my : Ip) (nodes : List Ip)
    (g : IsGraph nodes edges) (s : Search float queue) (f : IsFinal float queue edges my nodes s)
    (named : my ≢ []) where
  prev-In : (v : Ip) → s.prev v ≢ [] → In v nodes
  prev-In v p = let (e, m, _) = f.inv.labelled v p in g.target (s.prev v) v e m

  depth-le : {v : Ip} (c : Chain my s.prev v) → depth my s.prev f.inv.start_prev c ≤ length nodes
  depth-le c =
      depth-le-length my s.prev f.inv.start_prev (depth my s.prev f.inv.start_prev c) nodes
        (λ x _ p _. prev-In x p) c refl

  first_hop_ends :
      (fuel : ℕ) {v : Ip} (c : Chain my s.prev v)
      → depth my s.prev f.inv.start_prev c < fuel
      → first_hop fuel s.prev my v ≢ none
  unfolding first_hop depth
  first_hop_ends zero c h = absurd (omega arith)
  first_hop_ends (suc fuel) (root {v} r) h =
      let empty : s.prev v ≡ [] = rw (r, f.inv.start_prev) in
      ground (arith, bytes_beq_iff (s.prev v) [])
  first_hop_ends (suc fuel) (back {v} p c) h =
      let rest = first_hop_ends fuel c (omega arith) in ground (arith, bytes_beq_iff (s.prev v) [])

  -- Every node of the list has an answer within one step more than there are nodes.
  pub first_hop_returns : (v : Ip) → first_hop (suc (length nodes)) s.prev my v ≢ none
  unfolding first_hop
  first_hop_returns v = elim (==-cases (s.prev v) []) [
    | inl (t, empty) ↦ ground (arith, bytes_beq_iff (s.prev v) [])
    | inr (t, p) ↦
        let c = f.inv.chained v p in
        first_hop_ends (suc (length nodes)) c (omega (arith, depth-le c))
  ]

  pub first_hop-WalkVia :
      (fuel : ℕ) (v p : Ip)
      → first_hop fuel s.prev my v ≡ some (some p)
      → WalkVia float edges my p v (s.cost v)
  unfolding first_hop
  first_hop-WalkVia zero v p h = cc
  first_hop-WalkVia (suc fuel) v p h = elim (==-cases (s.prev v) my) [
    | inl (t, direct) ↦
        let same : v ≡ p = ground arith in
        let (e, m, eq) = label-eq float queue edges my nodes g s f v (rw direct named) in
        let cost : s.cost v ≡ float.add zero_cost e = rw (eq, direct, f.inv.start_cost) in
        rw (cost, ← same) (first (rw direct at m))
    | inr (t, other) ↦ elim (==-cases (s.prev v) []) [
      | inl (t', empty) ↦ ground arith
      | inr (t', p') ↦
          let (e, m, eq) = label-eq float queue edges my nodes g s f v p' in
          rw eq (onward (first_hop-WalkVia fuel (s.prev v) p (ground arith)) m)
    ]
  ]

  pub first_hop-none :
      (fuel : ℕ) (v : Ip)
      → In v nodes
      → v ≢ my
      → first_hop fuel s.prev my v ≡ some none
      → s.cost v ≡ max_cost
  unfolding first_hop
  first_hop-none zero v m h e = cc
  first_hop-none (suc fuel) v m h e = elim (==-cases (s.prev v) my) [
    | inl (t, direct) ↦ ground arith
    | inr (t, other) ↦ elim (==-cases (s.prev v) []) [
      | inl (t', empty) ↦ elim (dec_lt (s.cost v) max_cost) [
        | yes low ↦ elim (f.inv.reached v m low) [ inl r ↦ absurd (h r) | inr p ↦ absurd (p empty) ]
        | no high ↦ omega (arith, f.inv.bounded v)
      ]
      | inr (t', p') ↦
          let (c, edge, eq) = label-eq float queue edges my nodes g s f v p' in
          let far =
            first_hop-none fuel (s.prev v) (g.source (s.prev v) v c edge) other (ground arith) in
          omega (
            arith,
            f.inv.bounded v,
            float.add_grows (s.cost (s.prev v)) c (f.inv.not_negative (s.prev v))
                (g.cost (s.prev v) v c edge),
          )
    ]
  ]
