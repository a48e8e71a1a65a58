-- ===== src/Entries/Order.antt =====
-- Sorted entries, and looking one up.
use weave.Base.{
  ℕ, suc, ◌≤◌, ◌<◌, ◌≡◌, refl, List, [], ◌∷◌, ltb, ◌==◌, if◌then◌else◌, Option, none, some, arith,
}
use weave.Entries.{Entry}

-- tokens ascending without repetition, from `lo` on
abbrev pub IsSortedFrom : ℕ → List Entry → Type 0
IsSortedFrom lo [] = Unit
IsSortedFrom lo (e ∷ es) = (lo ≤ e.token) × IsSortedFrom (suc e.token) es

pub IsSortedFrom-mono : {m n : ℕ} (es : List Entry) → m ≤ n → IsSortedFrom n es → IsSortedFrom m es
IsSortedFrom-mono [] h s = tt
IsSortedFrom-mono (e ∷ es) h s = (omega arith, s.1)

-- the entry with a token
unfoldable pub lookup : ℕ → List Entry → Option Entry
lookup k [] = none
lookup k (e ∷ es) = if e.token == k then some e else lookup k es

pub lookup_below : (lo k : ℕ) (es : List Entry) → IsSortedFrom lo es → k < lo → lookup k es ≡ none
unfolding lookup
lookup_below lo k [] s h = refl
lookup_below lo k (e ∷ es) s h = ground (arith, lookup_below (suc e.token) k es s.1)

-- the owner of an address: of the last entry at or before it, and `before` where there is none
unfoldable pub owner_from : Option ℕ → List Entry → ℕ → Option ℕ
owner_from before [] x = before
owner_from before (e ∷ es) x = if ltb x e.token then before else owner_from (some e.peer) es x

pub owner_from_below :
    (lo x : ℕ) (before : Option ℕ) (es : List Entry)
    → IsSortedFrom lo es
    → x < lo
    → owner_from before es x ≡ before
unfolding owner_from
owner_from_below lo x before [] s h = refl
owner_from_below lo x before (e ∷ es) s h = ground arith
