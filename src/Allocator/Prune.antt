-- ===== src/Allocator/Prune.antt =====
-- PruneOwned, removeDeadContainers and the events of the container runtime keep the allocator backed.
use weave.Base.{
  ℕ, sym, ◌+◌, ◌≤◌, ◌≡◌, refl, ◌∙◌, not, ◌||◌, List, [], ◌∷◌, ◌++◌, ltb, arith, Bool-cases, inl,
  inr,
}
use weave.Address.{Cidr}
use weave.Space.{Space}
use weave.Allocator.{
  Allocator, Owned, Dead, is_among, give_back_all, delete, prune_loop, prune_owned, drop_dead,
  dead_loop, remove_dead_containers, container_destroyed, container_died, container_started,
  container_died_timeout, has_owned_by_container,
}
use weave.Allocator.Owned.{count, filed, entries, count-append}
use weave.Allocator.Backed.{
  IsBacked, give_back_all-append, given_back-IsBacked, forget_dead, delete-IsBacked,
}

-- the loop gives back exactly what it files no longer
pub prune_loop-gives :
    (ids : List ℕ) (t : Owned) (s : Space)
    → (cs : List Cidr) × ((prune_loop ids t s).1 ≡ give_back_all cs s)
      × ((i : ℕ) → entries i (prune_loop ids t s).0 ≤ entries i t)
      × ((b : ℕ) → filed b (prune_loop ids t s).0 + count b cs ≡ filed b t)
unfolding prune_loop filed entries count give_back_all
prune_loop-gives ids [] s = ([], refl, λ i. omega arith, λ b. refl)
prune_loop-gives ids ((i, d) ∷ t) s = elim (Bool-cases (not d.is_container || is_among i ids)) [
  | inl kept ↦
      let (cs, e, n, f) = prune_loop-gives ids t s in
      (cs, rw kept e, λ j. rw kept (omega (arith, n j)), λ b. rw kept (omega (arith, f b)))
  | inr gone ↦
      let (cs, e, n, f) = prune_loop-gives ids t (give_back_all d.cidrs s) in
      (
        d.cidrs ++ cs,
        rw gone (e ∙ sym (give_back_all-append d.cidrs cs s)),
        λ j. rw gone (omega (arith, n j)),
        λ b. rw gone (omega (arith, f b, count-append b d.cidrs cs)),
      )
]

pub prune_owned-IsBacked :
    (ids : List ℕ) (x : Allocator) → IsBacked x → IsBacked (prune_owned ids x)
unfolding prune_owned
prune_owned-IsBacked ids x v =
    let (cs, e, n, f) = prune_loop-gives ids x.owned x.space in
    given_back-IsBacked cs x (prune_owned ids x) v refl e (λ i h. omega (arith, n i)) f

dead_loop-IsBacked :
    (now : ℕ) (d : Dead) (x : Allocator) → IsBacked x → IsBacked (dead_loop now d x)
unfolding dead_loop
dead_loop-IsBacked now [] x v = v
dead_loop-IsBacked now ((i, t) ∷ d) x v = elim (Bool-cases (ltb (t + container_died_timeout) now)) [
  | inl h ↦
      let y = (delete i x).0 in
      let w = forget_dead y (drop_dead i y.dead) (delete-IsBacked i x v) in
      rw h (dead_loop-IsBacked now d (record y { dead = drop_dead i y.dead }) w)
  | inr h ↦ rw h (dead_loop-IsBacked now d x v)
]

module _ (x : Allocator) (v : IsBacked x) where
  pub remove_dead_containers-IsBacked : (now : ℕ) → IsBacked (remove_dead_containers now x)
  unfolding remove_dead_containers
  remove_dead_containers-IsBacked now = dead_loop-IsBacked now x.dead x v

  pub container_destroyed-IsBacked : (ident : ℕ) → IsBacked (container_destroyed ident x)
  unfolding container_destroyed
  container_destroyed-IsBacked ident = elim (Bool-cases (has_owned_by_container ident x)) [
    | inl h ↦
        let y = (delete ident x).0 in
        rw h (forget_dead y (drop_dead ident y.dead) (delete-IsBacked ident x v))
    | inr h ↦ rw h v
  ]

  pub container_died-IsBacked : (now ident : ℕ) → IsBacked (container_died now ident x)
  unfolding container_died
  container_died-IsBacked now ident = elim (Bool-cases (has_owned_by_container ident x)) [
    | inl h ↦ rw h (forget_dead x _ v)
    | inr h ↦ rw h v
  ]

  pub container_started-IsBacked : (ident : ℕ) → IsBacked (container_started ident x)
  unfolding container_started
  container_started-IsBacked ident = forget_dead x (drop_dead ident x.dead) v
