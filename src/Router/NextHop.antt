-- ===== src/Router/NextHop.antt =====
-- (*router).NextHop: the route with the longest prefix among those that contain the destination.
pub mod Longest
pub mod Delivery
use connectopus.Prelude.{
  ℕ, Bool, true, false, Option, none, some, List, [], ◌∷◌, ltb, if◌then◌else◌, ◌&&◌,
}
use connectopus.Proto.Ip.{Ip}
use connectopus.Proto.Subnet.{contains, subnet_prefix}
use connectopus.Router.Policy.{RoutingPolicy}

-- prefix > longestPrefix, where longestPrefix begins as -1, here none
unfoldable pub is_longer : ℕ → Option (ℕ × Ip) → Bool
is_longer prefix none = true
is_longer prefix (some (longest, hop)) = ltb longest prefix

-- The loop over the policy, with longestPrefix and hop.
unfoldable pub longest_match : Ip → RoutingPolicy → Option (ℕ × Ip) → Option (ℕ × Ip)
unfolding is_longer
longest_match dest [] found = found
longest_match dest ((k, v) ∷ policy) found = longest_match dest policy (
    if contains k dest && is_longer (subnet_prefix k) found
    then some (subnet_prefix k, v)
    else found)

-- NextHop; none is ErrNoRouteToHost
unfoldable pub next_hop : RoutingPolicy → Ip → Option Ip
unfolding longest_match
next_hop policy dest = elim (longest_match dest policy none) [
  | none ↦ none
  | some (longest, hop) ↦ some hop
]
