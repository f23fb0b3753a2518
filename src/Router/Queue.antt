-- ===== src/Router/Queue.antt =====
-- The priority queue of github.com/jupp0r/go-priority-queue. Insert documents that it does nothing
-- on an element that is in the queue. Nothing below relies on which element Pop returns.
use connectopus.Prelude.{ℕ, suc, ◌≤◌, ◌≡◌, ◌⊎◌, Option, none, some}
use connectopus.Proto.Ip.{Ip}
use connectopus.Router.Float.{Cost}

pub record Queue : Type 1 where
  pub Q : Type 0
  pub new : Q
  pub insert : Ip → Cost → Q → Q
  -- Pop; none is its error on an empty queue
  pub pop : Q → Option (Ip × Q)
  pub len : Q → ℕ
  pub Holds : Ip → Q → Type 0
  pub insert_holds : (v : Ip) (p : Cost) (q : Q) → Holds v (insert v p q)
  pub insert_keeps : (x v : Ip) (p : Cost) (q : Q) → Holds x q → Holds x (insert v p q)
  pub insert_len : (v : Ip) (p : Cost) (q : Q) → len (insert v p q) ≤ suc (len q)
  pub pop_empty : (x : Ip) (q : Q) → pop q ≡ none → Holds x q → ⊥
  pub pop_keeps : (x v : Ip) (q q' : Q) → pop q ≡ some (v, q') → Holds x q → (x ≡ v) ⊎ Holds x q'
  pub pop_len : (v : Ip) (q q' : Q) → pop q ≡ some (v, q') → len q ≡ suc (len q')
