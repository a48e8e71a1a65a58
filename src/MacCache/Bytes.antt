-- ===== src/MacCache/Bytes.antt =====
-- The two conversions of MAC addresses.
use weave.Base.{ℕ, ◌+◌, ◌*◌, ◌/◌, ◌%◌, ◌<◌, ◌≡◌, refl, [], ◌∷◌, arith, All}
use weave.MacCache.{macint, intmac}

macint_six :
    (a b c d e f : ℕ)
    → a < 256
    → b < 256
    → c < 256
    → d < 256
    → e < 256
    → f < 256
    → macint (a ∷ b ∷ c ∷ d ∷ e ∷ f ∷ [])
      ≡ ((((a * 256 + b) * 256 + c) * 256 + d) * 256 + e) * 256 + f
unfolding macint
macint_six a b c d e f p q r s t u = omega arith

-- The bytes of the key of a six-byte MAC address are the address.
pub intmac-macint :
    (a b c d e f : ℕ)
    → All (λ (x : ℕ). x < 256) (a ∷ b ∷ c ∷ d ∷ e ∷ f ∷ [])
    → intmac (macint (a ∷ b ∷ c ∷ d ∷ e ∷ f ∷ [])) ≡ a ∷ b ∷ c ∷ d ∷ e ∷ f ∷ []
unfolding intmac
intmac-macint a b c d e f h =
    let m = macint_six a b c d e f h.0 h.1.0 h.1.1.0 h.1.1.1.0 h.1.1.1.1.0 h.1.1.1.1.1.0 in
    let k = macint (a ∷ b ∷ c ∷ d ∷ e ∷ f ∷ []) in
    let p : k % 256 ≡ f = omega (arith, m) in
    let q : k / 256 % 256 ≡ e = omega (arith, m) in
    let r : k / 256 / 256 % 256 ≡ d = omega (arith, m) in
    let s : k / 256 / 256 / 256 % 256 ≡ c = omega (arith, m) in
    let t : k / 256 / 256 / 256 / 256 % 256 ≡ b = omega (arith, m) in
    let u : k / 256 / 256 / 256 / 256 / 256 % 256 ≡ a = omega (arith, m) in
    rw (p, q, r, s, t, u) refl
