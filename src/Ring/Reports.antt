-- ===== src/Ring/Reports.antt =====
-- ReportFree: reports that fit the entries are all accepted, and leave tokens and owners as they are.
use mathlib.Core.Path.{subst}
use native.Mathlib.Nat.{mod_self}
use weave.Base.{
  ℕ, suc, ◌+◌, ◌%◌, ◌≤◌, ◌≡◌, refl, ◌∙◌, sym, ap, Bool, true, false, List, [], ◌∷◌, ◌++◌, ltb, leb,
  ◌==◌, if◌then◌else◌, length, take, drop, get_elem?, arith, Bool-cases, inl, inr, All, word, ok,
  or_panic, ==_self, ==→eq, ◌||◌, some,
}
use weave.Entries
use weave.Entries.{Entry}
use weave.Entries.Order.{IsSortedFrom}
use weave.Entries.Search.{count_below, position-eq, entry-in}
use weave.Ring.{Ring, next_token, distance}
use weave.Ring.Ranges.{first_token}
use weave.Ring.Transfer.{report_one, report_all}
use weave.Ring.Valid.{FreeFits}
use weave.Ring.Fits.{
  Same, Same-refl, Same-trans, Same-replace, first_token-Same, IsSortedFrom-Same, Fits, Fits-Same,
  at, FreeFits-replace,
}

take-length : (pre post : List Entry) → take (length pre) (pre ++ post) ≡ pre
take-length [] post = refl
take-length (x ∷ pre) post = ap (◌∷◌ x) (take-length pre post)

drop-length :
    (pre : List Entry) (e : Entry) (post : List Entry)
    → drop (suc (length pre)) (pre ++ e ∷ post) ≡ post
drop-length [] e post = refl
drop-length (x ∷ pre) e post = drop-length pre e post

get_elem?-length :
    (pre : List Entry) (e : Entry) (post : List Entry)
    → get_elem? (pre ++ e ∷ post) (length pre) ≡ some e
get_elem?-length [] e post = refl
get_elem?-length (x ∷ pre) e post = get_elem?-length pre e post

token_at-length :
    (pre : List Entry) (e : Entry) (post : List Entry)
    → Entries.token_at (pre ++ e ∷ post) (length pre) ≡ e.token
unfolding Entries.token_at
token_at-length [] e post = refl
token_at-length (x ∷ pre) e post = token_at-length pre e post

length-parts :
    (pre post : List Entry) (e : Entry) → length (pre ++ e ∷ post) ≡ length pre + 1 + length post
length-parts [] post e = omega arith
length-parts (x ∷ pre) post e = omega (arith, length-parts pre post e)

get_elem?-next :
    (pre : List Entry) (e f : Entry) (post : List Entry)
    → get_elem? (pre ++ e ∷ f ∷ post) (suc (length pre)) ≡ some f
get_elem?-next [] e f post = refl
get_elem?-next (x ∷ pre) e f post = get_elem?-next pre e f post

entry-wraps :
    {E : Type 0} (e : Entry) (es : List Entry)
    → Entries.entry {E = E} (e ∷ es) (suc (length es)) ≡ ok e
unfolding Entries.entry
entry-wraps e es =
    let nonempty : (suc (length es) == 0) ≡ false = ground arith in
    let wraps : suc (length es) % suc (length es) ≡ 0 = mod_self (suc (length es)) in
    rw (nonempty, wraps) refl

-- the entry after an entry, or the first one after the last
next-entry :
    {E : Type 0} (pre : List Entry) (e : Entry) (post : List Entry)
    → (x : Entry) × (Entries.entry {E = E} (pre ++ e ∷ post) (suc (length pre)) ≡ ok x)
      × (x.token ≡ next_token (first_token (pre ++ e ∷ post)) post)
unfolding next_token first_token
next-entry {E} pre e (f ∷ post) = (
  f,
  entry-in {E = E} (pre ++ e ∷ f ∷ post) (suc (length pre))
        (omega (arith, length-parts pre (f ∷ post) e))
      ∙ ap or_panic (get_elem?-next pre e f post),
  refl,
)
next-entry {E} [] e [] = (e, entry-wraps {E = E} e [], refl)
next-entry {E} (x ∷ pre) e [] =
    let long : suc (length (pre ++ e ∷ [])) ≡ suc (suc (length pre)) =
      omega (arith, length-parts pre [] e) in
    (x, rw (← long) (entry-wraps {E = E} x (pre ++ e ∷ [])), refl)

-- the entries after a report
reported : (pre : List Entry) (e : Entry) (post : List Entry) (n : ℕ) → List Entry × Bool
reported pre e post n =
    if e.free == n
    then (pre ++ e ∷ post, false)
    else (pre ++ record e { free = n; version = (e.version + 1) % word } ∷ post, true)

reported-changed :
    (pre : List Entry) (e : Entry) (post : List Entry) (n : ℕ)
    → (f : Entry) × (b : Bool) × (reported pre e post n ≡ (pre ++ f ∷ post, b))
      × (e.token ≡ f.token)
      × (e.peer ≡ f.peer)
      × (f.free ≡ n)
unfolding reported
reported-changed pre e post n = elim (Bool-cases (e.free == n)) [
  | inl h ↦ (e, false, rw h refl, refl, refl, ==→eq e.free n h)
  | inr h ↦
      (record e { free = n; version = (e.version + 1) % word }, true, rw h refl, refl, refl, refl)
]

le→leb : (m n : ℕ) → m ≤ n → leb m n ≡ true
le→leb m n h = ground arith

pub All-map {κ} :
    {A : Type κ} (P Q : A → Type 0) (xs : List A) → ((x : A) → P x → Q x) → All P xs → All Q xs
All-map P Q [] f h = tt
All-map P Q (x ∷ xs) f h = (f x h.0, All-map P Q xs f h.1)

module _ {E : Type 0} (r : Ring) where
  report_one-run :
      (k n i : ℕ) (es : List Entry) (e x : Entry)
      → Entries.position es k ≡ i
      → Entries.is_at es i k ≡ true
      → Entries.entry {E = E} es i ≡ ok e
      → (e.peer == r.peer) ≡ true
      → Entries.entry {E = E} es (i + 1) ≡ ok x
      → leb n (distance r.start r.end e.token x.token) ≡ true
      → report_one {E = E} r k n es
        ≡ ok (
            if e.free == n then (es, false) else (
              take i es
                  ++ (record e { free = n; version = (e.version + 1) % word } ∷ drop (i + 1) es),
              true,
            ))
  unfolding report_one
  report_one-run k n i es e x p q f m g l = rw (p, q, f, m, g, l) refl

  report_one-parts :
      (lo k n : ℕ) (pre : List Entry) (e : Entry) (post : List Entry)
      → IsSortedFrom lo (pre ++ e ∷ post)
      → count_below k (pre ++ e ∷ post) ≡ length pre
      → e.token ≡ k
      → e.peer ≡ r.peer
      → n ≤ distance r.start r.end e.token (next_token (first_token (pre ++ e ∷ post)) post)
      → report_one {E = E} r k n (pre ++ e ∷ post) ≡ ok (reported pre e post n)
  unfolding reported Entries.is_at
  report_one-parts lo k n pre e post s place t p h =
      let es = pre ++ e ∷ post in
      let (x, f, u) = next-entry {E = E} pre e post in
      let long = length-parts pre post e in
      let inside : ltb (length pre) (length es) ≡ true = ground (arith, long) in
      let here : (Entries.token_at es (length pre) == k) ≡ true =
        rw (token_at-length pre e post, t) (==_self k) in
      let next : length pre + 1 ≡ suc (length pre) = omega arith in
      let mine : (e.peer == r.peer) ≡ true = rw p (==_self r.peer) in
      report_one-run k n (length pre) es e x (position-eq lo k es s ∙ place)
        (rw (inside, here) refl)
        (entry-in {E = E} es (length pre) (omega (arith, long))
          ∙ ap or_panic (get_elem?-length pre e post))
        mine (rw next f)
        ((let fits : leb n (distance r.start r.end e.token (next_token (first_token es) post))
              ≡ true =
            le→leb _ _ h in
          rw u fits))
      ∙ rw (take-length pre (e ∷ post), next, drop-length pre e post) refl

  -- one report that fits is accepted
  report_one-ok :
      (lo k n : ℕ) (es : List Entry)
      → IsSortedFrom lo es
      → FreeFits r.start r.end (first_token es) es
      → Fits r.start r.end r.peer (first_token es) es k n
      → (fs : List Entry) × (changed : Bool) × (report_one {E = E} r k n es ≡ ok (fs, changed))
        × Same es fs
        × FreeFits r.start r.end (first_token es) fs
  report_one-ok lo k n es s v h =
      let a = at r.start r.end r.peer (first_token es) es lo k n s h in
      let first = first_token es in
      let same_first : first_token (a.pre ++ a.e ∷ a.post) ≡ first = ap first_token (sym a.parts) in
      let run =
        ap (report_one {E = E} r k n) a.parts
        ∙ report_one-parts lo k n a.pre a.e a.post (rw a.parts at s)
            (ap (count_below k) (sym a.parts) ∙ a.place) a.token a.owned (rw same_first a.fits) in
      let (f, b, e, t, p, m) = reported-changed a.pre a.e a.post n in
      (
        a.pre ++ f ∷ a.post,
        b,
        run ∙ ap ok e,
        subst (λ (l : List Entry). Same l (a.pre ++ f ∷ a.post)) (sym a.parts)
            (Same-replace a.pre a.post a.e f t p),
        FreeFits-replace r.start r.end r.peer first a.pre a.post a.e f t (rw m a.fits)
            (subst (λ (l : List Entry). FreeFits r.start r.end first l) a.parts v),
      )

  -- reports that fit are all accepted
  pub report_all-ok :
      (reports : List (ℕ × ℕ)) (lo : ℕ) (es : List Entry)
      → IsSortedFrom lo es
      → FreeFits r.start r.end (first_token es) es
      → All (λ k. Fits r.start r.end r.peer (first_token es) es k.0 k.1) reports
      → (fs : List Entry) × (changed : Bool) × (report_all {E = E} r reports es ≡ ok (fs, changed))
        × Same es fs
        × FreeFits r.start r.end (first_token es) fs
  unfolding report_all
  report_all-ok [] lo es s v h = (es, false, refl, Same-refl es, v)
  report_all-ok ((k, n) ∷ reports) lo es s v h =
      let (fs, b, e, same, w) = report_one-ok lo k n es s v h.0 in
      let first = first_token-Same same in
      let rest_fit : All (λ k. Fits r.start r.end r.peer (first_token fs) fs k.0 k.1) reports =
        All-map _ _ reports
          (λ k h. rw first (Fits-Same r.start r.end r.peer (first_token es) k.0 k.1 same h)) h.1 in
      let (gs, c, f, same', u) =
        report_all-ok reports lo fs (IsSortedFrom-Same lo same s) (rw first w) rest_fit in
      (gs, b || c, rw (e, f) refl, Same-trans same same', rw first at u)
