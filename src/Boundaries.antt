-- ===== src/Boundaries.antt =====
-- ipam/space/space.go, the slice algorithms: a set of addresses as a sorted slice of boundaries.
-- Even elements are the inclusive starts of ranges and odd elements their exclusive ends.
pub mod Cuts
pub mod Members
pub mod Spans
pub mod Tally
use weave.Base.{
  ℕ, ◌+◌, ◌%◌, Bool, not, List, [], ◌∷◌, ◌++◌, ltb, leb, ◌==◌, if◌then◌else◌, length, get_or, take,
  drop,
}
use weave.Base.Search.{search}

unfoldable pub first_greater : List ℕ → ℕ → ℕ
unfolding search
first_greater a x = search (length a) (λ i. ltb x (get_or a i 0))

unfoldable pub first_greater_or_eq : List ℕ → ℕ → ℕ
unfolding search
first_greater_or_eq a x = search (length a) (λ i. leb x (get_or a i 0))

-- Do the ranges contain the given address?
unfoldable pub contains : List ℕ → ℕ → Bool
unfolding first_greater
contains addrs addr = not (first_greater addrs addr % 2 == 0)

-- a boundary is included if its position agrees with the sense: 0 to add, 1 to subtract
unfoldable pub boundary : ℕ → ℕ → ℕ → List ℕ
boundary pos sense x = if pos % 2 == sense then x ∷ [] else []

unfoldable pub add_sub : List ℕ → ℕ → ℕ → ℕ → List ℕ
unfolding first_greater first_greater_or_eq boundary
add_sub addrs start end sense =
    let start_pos = first_greater_or_eq addrs start in
    let end_pos = first_greater (drop start_pos addrs) end + start_pos in
    take start_pos addrs
    ++ (boundary start_pos sense start ++ (boundary end_pos sense end ++ drop end_pos addrs))

unfoldable pub add : List ℕ → ℕ → ℕ → List ℕ
unfolding add_sub
add addrs start end = add_sub addrs start end 0

unfoldable pub subtract : List ℕ → ℕ → ℕ → List ℕ
unfolding add_sub
subtract addrs start end = add_sub addrs start end 1
