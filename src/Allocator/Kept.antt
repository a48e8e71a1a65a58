-- ===== src/Allocator/Kept.antt =====
-- Which addresses the allocator's space has, in use or free, is changed by none of its operations.
use mathlib.Core.Path.{subst}
use weave.Base.{
  ℕ, ◌≡◌, refl, ◌∙◌, sym, ap, if◌then◌else◌, Bool, true, ◌||◌, List, [], ◌∷◌, ltb, ◌+◌, ◌==◌, arith,
  Bool-cases, inl, inr, ==→eq,
}
use weave.Address.{Cidr}
use weave.Space.{Space}
use weave.Space.Invariant.{owned, is_free, Taken}
use weave.Allocator.{
  Allocator, Dead, delete, free, prune_owned, container_died, container_destroyed,
  remove_dead_containers, dead_loop, drop_dead, container_died_timeout, has_owned_by_container,
  give_back, give_back_all,
}
use weave.Allocator.Backed.{
  IsBacked, GivenBack, give_back_all-GivenBack, remove_owned-cases, delete-IsBacked, forget_dead,
}
use weave.Allocator.Deletes.{delete-GivenBack}
use weave.Allocator.Prune.{prune_loop-gives}
use weave.Allocator.Try.{Allocate, Claim, Answer, RingOwner, resurrect}
use weave.Allocator.Requests.{Allocated, again, outside, fresh, full}
use weave.Allocator.Claimed.{
  Claimed, filed_outside, taken_over, kept_outside, filed_inside, not_there, kept_inside, unsettled,
  elsewhere,
}

-- the two spaces have the same addresses
abbrev pub Kept : Space → Space → Type 0
Kept s t = (b : ℕ) → (owned t b || is_free t b) ≡ (owned s b || is_free s b)

Taken-Kept : (s t : Space) (a : ℕ) → Taken s a t → Kept s t
Taken-Kept s t a h b =
    let at : (b == a) ≡ true → is_free s b ≡ true =
      λ e. ap (is_free s) (==→eq b a e) ∙ h.was_free in
    ground (arith, h.owned_after b, h.free_after b, at)

GivenBack-Kept : (s t : Space) (cs : List Cidr) → GivenBack s cs t → Kept s t
GivenBack-Kept s t cs g b = ground (arith, g.owned_after b, g.free_after b)

same-Kept : (s t : Space) → t ≡ s → Kept s t
same-Kept s t e b = ap (λ (u : Space). owned u b || is_free u b) e

pub Allocated-Kept :
    {string : ℕ → ℕ} {gone' : Bool} {x : Allocator} {g : Allocate} {y : Allocator}
    {answers : List Answer} {done : Bool}
    → Allocated string gone' x g y answers done
    → Kept x.space y.space
Allocated-Kept (Allocated.gone c) = λ b. refl
Allocated-Kept (again a c r h) = λ b. unfold resurrect in refl
Allocated-Kept (outside c n o) = λ b. refl
Allocated-Kept {x = x} (fresh a y c n o lo hi least unfiled taken has f d) =
    Taken-Kept x.space y.space a taken
Allocated-Kept (full c n o none_free) = λ b. refl

pub Claimed-Kept :
    {string : ℕ → ℕ} {gone' sent : Bool} {owner : RingOwner} {c : Claim} {x : Allocator}
    {y : Allocator} {answers : List Answer} {done : Bool}
    → Claimed string gone' sent owner c x y answers done
    → Kept x.space y.space
Claimed-Kept (Claimed.gone ans c h) = λ b. refl
Claimed-Kept {x = x} (filed_outside y ans c o f n s h) = same-Kept x.space y.space s
Claimed-Kept {x = x} (taken_over y ans i d c o h n t k f s r) = same-Kept x.space y.space s
Claimed-Kept (kept_outside ans i c o h d r) = λ b. refl
Claimed-Kept {c = c} {x = x} (filed_inside y ans n o u f w taken h) =
    Taken-Kept x.space y.space c.cidr.addr taken
Claimed-Kept (not_there ans c i u f n h) = λ b. unfold resurrect in refl
Claimed-Kept (kept_inside ans i c n u h r) = λ b. unfold resurrect in refl
Claimed-Kept (unsettled ans c i u h n) = λ b. unfold resurrect in refl
Claimed-Kept (elsewhere ans p c i u s h n) = λ b. unfold resurrect in refl

module _ (x : Allocator) (v : IsBacked x) where
  pub delete-Kept : (ident : ℕ) → Kept x.space (delete ident x).0.space
  delete-Kept ident = GivenBack-Kept x.space _ _ (delete-GivenBack ident x v)

  pub free-Kept : (ident a : ℕ) → Kept x.space (free ident a x).0.space
  unfolding free give_back_all
  free-Kept ident a = elim (remove_owned-cases ident a x) [
    | inl (absent, e) ↦ rw e (λ b. refl)
    | inr (t, e, n, f) ↦
        let c : Cidr = record { addr = a; prefix_len = 0 } in
        rw e (
          GivenBack-Kept x.space (give_back a x.space) (c ∷ [])
            (give_back_all-GivenBack (c ∷ []) x.space v.valid))
  ]

  pub prune_owned-Kept : (ids : List ℕ) → Kept x.space (prune_owned ids x).space
  unfolding prune_owned
  prune_owned-Kept ids =
      let (cs, e, n, f) = prune_loop-gives ids x.owned x.space in
      rw e (GivenBack-Kept x.space _ cs (give_back_all-GivenBack cs x.space v.valid))

  pub container_destroyed-Kept : (ident : ℕ) → Kept x.space (container_destroyed ident x).space
  unfolding container_destroyed
  container_destroyed-Kept ident = elim (Bool-cases (has_owned_by_container ident x)) [
    | inl h ↦ rw h (delete-Kept ident)
    | inr h ↦ rw h (λ b. refl)
  ]

  pub container_died-Kept : (now ident : ℕ) → Kept x.space (container_died now ident x).space
  unfolding container_died
  container_died-Kept now ident = elim (Bool-cases (has_owned_by_container ident x)) [
    | inl h ↦ rw h (λ b. refl)
    | inr h ↦ rw h (λ b. refl)
  ]

dead_loop-Kept :
    (now : ℕ) (d : Dead) (x : Allocator) → IsBacked x → Kept x.space (dead_loop now d x).space
unfolding dead_loop
dead_loop-Kept now [] x v = λ b. refl
dead_loop-Kept now ((i, t) ∷ d) x v = elim (Bool-cases (ltb (t + container_died_timeout) now)) [
  | inl h ↦
      let y = (delete i x).0 in
      let w = forget_dead y (drop_dead i y.dead) (delete-IsBacked i x v) in
      let gone : Allocator = record y { dead = drop_dead i y.dead } in
      subst (λ (z : Allocator). Kept x.space (dead_loop now d z).space)
        (sym (ap (λ (b : Bool). if b then gone else x) h))
        (λ b. dead_loop-Kept now d gone w b ∙ delete-Kept x v i b)
  | inr h ↦
      let y = (delete i x).0 in
      let gone : Allocator = record y { dead = drop_dead i y.dead } in
      subst (λ (z : Allocator). Kept x.space (dead_loop now d z).space)
        (sym (ap (λ (b : Bool). if b then gone else x) h)) (dead_loop-Kept now d x v)
]

pub remove_dead_containers-Kept :
    (x : Allocator) → IsBacked x → (now : ℕ) → Kept x.space (remove_dead_containers now x).space
unfolding remove_dead_containers
remove_dead_containers-Kept x v now = dead_loop-Kept now x.dead x v
