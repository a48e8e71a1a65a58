-- ===== src/Ring/Claim/Whole.antt =====
-- ClaimForPeers as a whole: its assertions hold.
use mathlib.Core.Path.{subst}
use weave.Base.{
  sym, ap, ◌∙◌, ◌++◌, ℕ, ◌+◌, ◌%◌, ◌≤◌, ◌<◌, ◌≡◌, refl, true, List, [], ◌∷◌, ◌==◌, ok, arith,
  length, word,
}
use weave.Address
use weave.Entries.{Entry}
use weave.Ring.{Ring, Update, distance, next_token}
use weave.Ring.Claim.{subdivide, assert_last, claim_for_peers}
use weave.Ring.Claim.Tiles.{Tiles, Tiles-sorted, AreBelow, subdivide-Tiles}
use weave.Ring.Valid.{AreValid, FreeFits, first_or}
use weave.Ring.Owner.{IsValid, assert_invariants-ok, ranges_before-ok, updates_after-ok, updates_of}

Tiles-FreeFits :
    (start end from : ℕ) (es : List Entry)
    → Tiles from end es
    → start ≤ from
    → end < word
    → FreeFits start end start es
unfolding next_token distance
Tiles-FreeFits start end from [] t h w = absurd t
Tiles-FreeFits start end from (e ∷ []) t h w = (ground arith, tt)
Tiles-FreeFits start end from (e ∷ f ∷ es) t h w =
    (ground arith, Tiles-FreeFits start end f.token (f ∷ es) t.3 (omega arith) w)

Tiles-start :
    (start end : ℕ) (e : Entry) (es : List Entry) → Tiles start end (e ∷ es) → e.token ≡ start
Tiles-start start end e [] t = t.0
Tiles-start start end e (f ∷ es) t = t.0

Tiles-AreValid :
    (start end : ℕ) (es : List Entry) → Tiles start end es → end < word → AreValid start end es
unfolding first_or
Tiles-AreValid start end [] t w = absurd t
Tiles-AreValid start end (e ∷ es) t w =
    let (s, h) = Tiles-sorted start end (e ∷ es) t in
    let first = Tiles-start start end e es t in
    record {
      sorted = s;
      below_end = h;
      fits =
          subst (λ f. FreeFits start end f (e ∷ es)) (sym first)
            (Tiles-FreeFits start end start (e ∷ es) t (omega arith) w);
    }

Tiles-assert_last :
    {E : Type 0} (from end : ℕ) (es : List Entry)
    → Tiles from end es
    → end < word
    → assert_last {E = E} end es ≡ ok tt
unfolding assert_last Address.add
Tiles-assert_last from end [] t w = absurd t
Tiles-assert_last from end (e ∷ []) t w =
    let whole : ((e.token + e.free) % word == end) ≡ true = ground arith in rw whole
Tiles-assert_last from end (e ∷ f ∷ es) t w = Tiles-assert_last f.token end (f ∷ es) t.3 w

-- the empty ring
[]-IsValid : (r : Ring) → r.entries ≡ [] → IsValid r
[]-IsValid r e = rw e (record { sorted = tt; below_end = tt; fits = tt })

claimed : Ring → List ℕ → List Entry → Ring
claimed r peers es = record r { entries = es; seeds = peers }

claim_run :
    {E : Type 0} (r : Ring) (peers : List ℕ) (es : List Entry)
    → r.entries ≡ []
    → subdivide {E = E} (length peers) r.entries r.start r.end peers ≡ ok es
    → Tiles r.start r.end es
    → r.end < word
    → (us : List Update) × (claim_for_peers {E = E} r peers ≡ ok (claimed r peers es, us))
unfolding claim_for_peers claimed
claim_run {E} r peers es e run t w =
    let t' = claimed r peers es in
    let (prev, f) = ranges_before-ok {E = E} r r.peer ([]-IsValid r e) in
    let v : IsValid t' = Tiles-AreValid r.start r.end es t w in
    let empty : (length r.entries == 0) ≡ true = ground arith in
    (
      updates_of t' r.peer prev,
      rw (
        empty,
        f,
        run,
        Tiles-assert_last {E = E} r.start r.end es t w,
        assert_invariants-ok {E = E} t' v,
        updates_after-ok {E = E} t' r.peer prev v,
      ),
    )

-- ClaimForPeers on an empty ring with a non-empty range and at least one peer does not panic: its final assertions hold. It leaves a valid ring seeded with the peers, whose entries tile the whole range: the first starts at the ring's start, none reaches into the next, and the last one's free space ends at the ring's end.
pub claim_for_peers_correct :
    {E : Type 0} (r : Ring) (peers : List ℕ)
    → r.entries ≡ []
    → r.start < r.end
    → r.end < word
    → 0 < length peers
    → (t : Ring) × (us : List Update) × (claim_for_peers {E = E} r peers ≡ ok (t, us))
      × IsValid t
      × Tiles r.start r.end t.entries
      × (t.seeds ≡ peers)
unfolding claim_for_peers
claim_for_peers_correct {E} r peers e lt w p =
    let none_yet : AreBelow r.start r.entries = rw e (record { sorted = tt; below = tt }) in
    let (new, run, tiles) =
      subdivide-Tiles {E = E} (length peers) r.entries r.start r.end peers none_yet lt w p
        (omega arith) in
    let (us, f) = claim_run {E = E} r peers new e (run ∙ ap (λ es. ok (es ++ new)) e) tiles w in
    (
      claimed r peers new,
      us,
      f,
      unfold claimed in (Tiles-AreValid r.start r.end new tiles w),
      unfold claimed in tiles,
      unfold claimed in refl,
    )
