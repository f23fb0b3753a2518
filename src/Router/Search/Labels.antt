-- ===== src/Router/Search/Labels.antt =====
-- What holds of the labels between two rounds of the search.
use connectopus.Prelude.{◌≤◌, ◌<◌, ◌≡◌, ◌≢◌, ◌⊎◌, List, [], bytes_eq, GoMap, In}
use connectopus.Proto.Ip.{Ip}
use connectopus.Router.Float.{Cost, zero_cost, max_cost, Adder}
use connectopus.Router.Queue.{Queue}
use connectopus.Router.Search.{Search}

-- The graph that the search runs on: `nodes` are the keys, without "", and an edge leads from a
-- node to a node and has a cost that is not negative.
pub record IsGraph (nodes : List Ip) (edges : Ip → GoMap Ip Cost) : Type 0 where
  pub no_empty : In [] nodes → ⊥
  pub source : (u v : Ip) (e : Cost) → In (v, e) (edges u) → In u nodes
  pub target : (u v : Ip) (e : Cost) → In (v, e) (edges u) → In v nodes
  pub cost : (u v : Ip) (e : Cost) → In (v, e) (edges u) → zero_cost ≤ e

-- The walks from `my`, with their costs added up in the order in which they are walked.
pub data Walk (float : Adder) (edges : Ip → GoMap Ip Cost) (my : Ip) : Ip → Cost → Type 0 where
  here : Walk float edges my my zero_cost
  step :
      {u v : Ip} {c e : Cost}
      → Walk float edges my u c
      → In (v, e) (edges u)
      → Walk float edges my v (float.add c e)

-- The way back from a node to `my`, along `prev`.
pub data Chain (my : Ip) (prev : Ip → Ip) : Ip → Type 0 where
  root : {v : Ip} → v ≡ my → Chain my prev v
  back : {v : Ip} → prev v ≢ [] → Chain my prev (prev v) → Chain my prev v

module _ (float : Adder) (queue : Queue) (edges : Ip → GoMap Ip Cost) (my : Ip) where
  -- The edge by which a node was labelled, with the cost that its source has had since.
  abbrev pub Labelled : Search float queue → Ip → Type 0
  Labelled s v =
      (e : Cost) × In (v, e) (edges (s.prev v)) × (float.add (s.cost (s.prev v)) e ≤ s.cost v)

  pub record Inv (nodes : List Ip) (s : Search float queue) : Type 0 where
    pub start_cost : s.cost my ≡ zero_cost
    pub start_prev : s.prev my ≡ []
    pub not_negative : (v : Ip) → zero_cost ≤ s.cost v
    pub bounded : (v : Ip) → s.cost v ≤ max_cost
    pub reached : (v : Ip) → In v nodes → s.cost v < max_cost → (v ≡ my) ⊎ (s.prev v ≢ [])
    pub labelled : (v : Ip) → s.prev v ≢ [] → Labelled s v
    pub chained : (v : Ip) → s.prev v ≢ [] → Chain my s.prev v

  -- The edges of `u` in `todo` are still to be looked at; from a node that does not wait in the
  -- queue all others have been.
  abbrev pub Closed : Ip → GoMap Ip Cost → Search float queue → Type 0
  Closed u todo s =
      (x v : Ip) (e : Cost)
      → In (v, e) (edges x)
      → queue.Holds x s.pending ⊎ (s.cost v ≤ float.add (s.cost x) e) ⊎ (x ≡ u) × In (v, e) todo
