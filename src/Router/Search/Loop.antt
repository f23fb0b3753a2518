-- ===== src/Router/Search/Loop.antt =====
-- The search ends: a relaxation lowers a label and queues at most one node.
use Prim.Native.Nat.{zero, suc}
use connectopus.Prelude.{
  ℕ, ◌+◌, ◌*◌, ◌≤◌, ◌<◌, ◌≡◌, subst, inl, inr, none, some, List, [], ◌∷◌, bytes_eq, GoMap, update,
  update_self, update_ne, In, In-cons, not-In-nil, ==-cases, Option-cases, arith,
}
use connectopus.Proto.Ip.{Ip}
use connectopus.Router.Float.{Cost, Adder}
use connectopus.Router.Queue.{Queue}
use connectopus.Router.Search.{Search, total, relax, relax_all, loop, budget, search, start}

pub total-update_le :
    (cost : Ip → Cost) (v : Ip) (c : Cost) (nodes : List Ip)
    → c ≤ cost v
    → total (update cost v c) nodes ≤ total cost nodes
total-update_le cost v c [] h = omega arith
total-update_le cost v c (x ∷ nodes) h = elim (==-cases v x) [
  | inl (t, e) ↦ ground (arith, update_self cost v c, total-update_le cost v c nodes h)
  | inr (t, e) ↦ omega (arith, update_ne cost v x c e, total-update_le cost v c nodes h)
]

pub total-update_lt :
    (cost : Ip → Cost) (v : Ip) (c : Cost) (nodes : List Ip)
    → c < cost v
    → In v nodes
    → total (update cost v c) nodes < total cost nodes
total-update_lt cost v c [] h m = absurd (not-In-nil v m)
total-update_lt cost v c (x ∷ nodes) h m = elim (==-cases v x) [
  | inl (t, e) ↦ ground (arith, update_self cost v c, total-update_le cost v c nodes)
  | inr (t, e) ↦
      ground (arith, update_ne cost v x c e, In-cons v x nodes, total-update_lt cost v c nodes)
]

module _ (float : Adder) (queue : Queue) (nodes : List Ip) where
  -- Twice the labels, and the length of the queue.
  abbrev pub work : Search float queue → ℕ
  work s = 2 * total s.cost nodes + queue.len s.pending

  relax-work :
      (u v : Ip) (e : Cost) (s : Search float queue)
      → In v nodes
      → work (relax float queue u v e s) ≤ work s
  unfolding relax
  relax-work u v e s m =
      let path = float.add (s.cost u) e in
      ground (arith, total-update_lt s.cost v path nodes, queue.insert_len v path s.pending)

  abbrev pub AllIn : GoMap Ip Cost → Type 0
  AllIn [] = Unit
  AllIn ((v, e) ∷ edges) = In v nodes × AllIn edges

  relax_all-work :
      (u : Ip) (edges : GoMap Ip Cost) (s : Search float queue)
      → AllIn edges
      → work (relax_all float queue u edges s) ≤ work s
  unfolding relax_all
  relax_all-work u [] s h = omega arith
  relax_all-work u ((v, e) ∷ edges) s h =
      omega (arith, relax-work u v e s h.0, relax_all-work u edges (relax float queue u v e s) h.1)

  module _ (edges : Ip → GoMap Ip Cost) (inside : (u : Ip) → AllIn (edges u)) where
    loop_ends :
        (fuel : ℕ) (s : Search float queue)
        → work s < fuel
        → (t : Search float queue) × (loop float queue edges fuel s ≡ some t)
    unfolding loop
    loop_ends zero s h = elim h [ ]
    loop_ends (suc fuel) s h = elim (Option-cases (queue.pop s.pending)) [
      | inl empty ↦ (s, rw (empty, loop))
      | inr ((u, rest), e) ↦
          rw (e, loop)
            (loop_ends fuel (relax_all float queue u (edges u) (record s { pending = rest })) (
              omega (
                arith,
                queue.pop_len u s.pending rest e,
                relax_all-work u (edges u) (record s { pending = rest }) (inside u),
              )))
    ]

    -- The loop over the queue ends within its budget, whatever order the queue hands nodes out in
    -- and whatever the edges cost, if every edge leads to a node of the list.
    pub search_ends :
        (my : Ip) → (t : Search float queue) × (search float queue edges my nodes ≡ some t)
    unfolding search
    search_ends my =
        loop_ends (budget float queue edges nodes (start float queue my nodes))
          (start float queue my nodes) (omega arith)

-- An invariant that one round keeps holds when the queue is empty.
pub loop_rule {ℓ} :
    (float : Adder) (queue : Queue) (edges : Ip → GoMap Ip Cost) (P : Search float queue → Type ℓ)
    → ((s : Search float queue) (u : Ip) (rest : queue.Q)
        → queue.pop s.pending ≡ some (u, rest)
        → P s
        → P (relax_all float queue u (edges u) (record s { pending = rest })))
    → (fuel : ℕ) (s t : Search float queue) → P s
    → loop float queue edges fuel s ≡ some t
    → P t × (queue.pop t.pending ≡ none)
unfolding loop
loop_rule float queue edges P keep zero s t p h = cc
loop_rule float queue edges P keep (suc fuel) s t p h = elim (Option-cases (queue.pop s.pending)) [
  | inl empty ↦
      let found : some s ≡ some t = rw (empty, loop) at h in
      let same : s ≡ t = cc in subst (λ x. P x × (queue.pop x.pending ≡ none)) same (p, empty)
  | inr ((u, rest), e) ↦
      loop_rule float queue edges P keep fuel
        (relax_all float queue u (edges u) (record s { pending = rest })) t (keep s u rest e p)
        (rw (e, loop) at h)
]
