-- ===== src/Router/Policy/Depth.antt =====
-- A chain of `prev` is no longer than the list of nodes.
use Prim.Native.Nat.{zero, suc}
use connectopus.Prelude.{
  ℕ, ◌≤◌, ◌≡◌, ◌≢◌, refl, ap, List, [], bytes_eq, length, In, remove, length-remove_lt, In-remove,
  arith,
}
use connectopus.Proto.Ip.{Ip}
use connectopus.Router.Search.Labels.{Chain, root, back}

module _ (my : Ip) (prev : Ip → Ip) (start : prev my ≡ []) where
  unfoldable pub depth : {v : Ip} → Chain my prev v → ℕ
  depth (root r) = 0
  depth (back p c) = suc (depth c)

  -- The depth is the node's, since only `my` ends a chain.
  depth_unique : {v w : Ip} (c : Chain my prev v) (d : Chain my prev w) → v ≡ w → depth c ≡ depth d
  unfolding depth
  depth_unique (root r) (root r') e = refl
  depth_unique (root r) (back p d) e = absurd (p (rw (← e, r) start))
  depth_unique (back {v} p c) (root r) e = absurd (p (rw (e, r) start))
  depth_unique (back p c) (back p' d) e = ap suc (depth_unique c d (ap prev e))

  pub depth-le-length :
      (n : ℕ) (nodes : List Ip)
      → ((x : Ip) (c : Chain my prev x) → prev x ≢ [] → depth c ≤ n → In x nodes)
      → {v : Ip} (c : Chain my prev v) → depth c ≡ n
      → n ≤ length nodes
  unfolding depth
  depth-le-length zero nodes h c e = omega arith
  depth-le-length (suc n) nodes h (root r) e = absurd (omega arith)
  depth-le-length (suc n) nodes h (back {v} p c) e =
      let here = h v (back p c) p (omega arith) in
      let fewer =
        depth-le-length n (remove v nodes)
          (λ x d q le.
            In-remove v x nodes
              (λ same. absurd (let u = depth_unique (back p c) d same in omega arith))
              (h x d q (omega arith)))
          c (omega arith) in
      omega (arith, fewer, length-remove_lt v nodes here)
