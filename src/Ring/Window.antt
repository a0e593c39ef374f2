-- ===== src/Ring/Window.antt =====
-- The slots of a power-of-two ring, by positions that are counted without end and taken modulo the
-- capacity, and why the wrap-around of the 64-bit positions does not show.
use pg_stat_ch_otel_backend.Base.{
  ℕ, zero, suc, ◌+◌, ◌-◌, ◌*◌, ◌/◌, ◌%◌, ◌^◌, ◌<◌, ◌≤◌, ◌≡◌, ◌≢◌, refl, sym, ap, ap₂, ◌∙◌, List, [],
  ◌∷◌, ◌++◌, length, get_or, set, get_or-set_self, get_or-set_ne, arith, dec_lt,
}
use native.Mathlib.Nat.{
  pow-suc, mod-eq_of_lt, mod-eq-sub-mod, mod-add-mod, mod-lt, add-mul-mod_self_right,
}

-- Positions less than a round apart have different indices.
index-ne : (c p d : ℕ) → 0 < d → d < c → (p + d) % c ≢ p % c
index-ne c p d pos small same = elim (dec_lt (p % c + d) c) [
  | yes below ↦ omega (arith, mod-add-mod p c d, mod-eq_of_lt below)
  | no above ↦ omega (
    arith,
    mod-add-mod p c d,
    mod-eq-sub-mod {n = p % c + d} {m = c} (omega arith),
    mod-lt p {m = c} (omega arith),
    mod-eq_of_lt {n = p % c + d - c} {m = c} (omega (arith, mod-lt p {m = c} (omega arith))),
  )
]

module _ {ℓ} {A : Type ℓ} (d : A) (c : ℕ) where
  -- The `n` slots from position `p` on.
  abbrev pub window : List A → ℕ → ℕ → List A
  window buf p zero = []
  window buf p (suc n) = get_or buf (p % c) d ∷ window buf (p + 1) n

  pub length-window : (buf : List A) (p n : ℕ) → length (window buf p n) ≡ n
  length-window buf p zero = refl
  length-window buf p (suc n) = ap suc (length-window buf (p + 1) n)

  -- Only the index of the position matters.
  pub window-cong : (buf : List A) (p q n : ℕ) → p % c ≡ q % c → window buf p n ≡ window buf q n
  window-cong buf p q zero e = refl
  window-cong buf p q (suc n) e = ap₂ ◌∷◌ (ap (λ i. get_or buf i d) e) (
      window-cong buf (p + 1) (q + 1) n
        (sym (mod-add-mod p c 1) ∙ (ap (λ r. (r + 1) % c) e ∙ mod-add-mod q c 1)))

  -- A write to the slot behind a window that does not fill the ring extends the window.
  pub window-set :
      (buf : List A) (v : A) (p n i : ℕ)
      → length buf ≡ c
      → n < c
      → i ≡ (p + n) % c
      → window (set buf i v) p (suc n) ≡ window buf p n ++ v ∷ []
  window-set buf v p zero i len small e =
      ap (λ x. x ∷ [])
        (ap (λ j. get_or (set buf i v) j d) (sym (e ∙ ap (λ m. m % c) (omega arith)))
          ∙ get_or-set_self buf i v d (omega (arith, mod-lt (p + 0) {m = c} small)))
  window-set buf v p (suc n) i len small e =
      ap₂ ◌∷◌
        (get_or-set_ne buf i (p % c) v d
          (λ z. index-ne c p (suc n) (omega arith) small (sym e ∙ z)))
        (window-set buf v (p + 1) n i len (omega arith) (e ∙ ap (λ m. m % c) (omega arith)))

-- A power of two divides each higher one.
pow-quotient : (k n : ℕ) → k ≤ n → (m : ℕ) × (2 ^ n ≡ m * 2 ^ k)
pow-quotient zero zero h = (1, omega arith)
pow-quotient (suc k) zero h = absurd (omega arith)
pow-quotient k (suc n) h = elim (dec_lt n k) [
  | yes top ↦ (1, let e : k ≡ suc n = omega arith in rw e (omega arith))
  | no below ↦ let (m, e) = pow-quotient k n (omega arith) in (m * 2, omega (arith, pow-suc 2 n))
]

-- Reducing a position modulo 2^64 first keeps its index.
pub index-wrap : (k a : ℕ) → k ≤ 64 → a % 2 ^ 64 % 2 ^ k ≡ a % 2 ^ k
index-wrap k a h =
    let (m, e) = pow-quotient k 64 h in
    let whole : a ≡ a % 2 ^ 64 + a / 2 ^ 64 * m * 2 ^ k =
      omega (arith, ap (λ t. a / 2 ^ 64 * t) e) in
    sym (ap (λ b. b % 2 ^ k) whole ∙ add-mul-mod_self_right (a % 2 ^ 64) (a / 2 ^ 64 * m) (2 ^ k))
