-- ===== src/Router/Tables.antt =====
-- The table that `add_route` builds from the routes it is given, and the route found in it.
use tcp_impliment.Common.{ℕ, ◌≤◌, ◌-◌, ◌/◌, ◌^◌, ◌≡◌, true, List, [], ◌∷◌, ◌⊎◌, is_some}
use tcp_impliment.Router.{RoutNode, insert_route}

-- The network of the route has the address: the first bits, as many as the prefix is long, agree.
abbrev pub Covers : ℕ → RoutNode → Type 0
Covers ip x =
    (x.prefix_length ≡ 0)
    ⊎ (x.route_prefix / 2 ^ (32 - x.prefix_length) ≡ ip / 2 ^ (32 - x.prefix_length))

abbrev pub Among : RoutNode → List RoutNode → Type 0
Among x [] = ⊥
Among x (y ∷ ys) = (y ≡ x) ⊎ Among x ys

-- The routes given, the last one first, added to an empty table in their order.
abbrev pub table : List RoutNode → List RoutNode
table [] = []
table (x ∷ xs) = insert_route x (table xs)

-- A route with a next hop was added whose prefix is as long, but of another network.
pub record Shadowed (added : List RoutNode) (ip : ℕ) (x : RoutNode) : Type 0 where
  pub other : RoutNode
  pub given : Among other added
  pub indirect : is_some other.next_hop ≡ true
  pub as_long : other.prefix_length ≡ x.prefix_length
  pub elsewhere : Covers ip other → ⊥

-- A route that is not put into the table, and the one that keeps it out.
pub record KeptOut (x y : RoutNode) : Type 0 where
  pub new_indirect : is_some x.next_hop ≡ true
  pub old_indirect : is_some y.next_hop ≡ true
  pub same : y.prefix_length ≡ x.prefix_length

abbrev Represented : RoutNode → List RoutNode → Type 0
Represented x xs = Among x xs ⊎ ((y : RoutNode) × Among y xs × KeptOut x y)

-- The best of the routes added: it has the address, and any other that has it has a next hop and is
-- not longer, unless one of the same length for another network was added.
pub record IsBest (added : List RoutNode) (ip : ℕ) (r : RoutNode) : Type 0 where
  pub given : Among r added
  pub covers : Covers ip r
  pub best :
      (x : RoutNode)
      → Among x added
      → Covers ip x
      → (is_some x.next_hop ≡ true) × ((x.prefix_length ≤ r.prefix_length) ⊎ Shadowed added ip x)
