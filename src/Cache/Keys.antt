-- ===== src/Cache/Keys.antt =====
-- Lists of different keys.
use pg_stat_ch_otel_backend.Base.{
  ℕ, suc, ◌≡◌, refl, ap, Bool, true, false, List, [], ◌∷◌, take, length, ◌==◌, ◌||◌, if◌then◌else◌,
  arith, Bool-cases, inl, inr,
}
use pg_stat_ch_otel_backend.Cache.{delete, last_of}

abbrev pub mem : ℕ → List ℕ → Bool
mem k [] = false
mem k (x ∷ xs) = (x == k) || mem k xs

abbrev pub NoDup : List ℕ → Type 0
NoDup [] = Unit {0}
NoDup (x ∷ xs) = (mem x xs ≡ false) × NoDup xs

pub mem-delete :
    (k j : ℕ) (xs : List ℕ) → NoDup xs → mem j (delete k xs) ≡ (if k == j then false else mem j xs)
mem-delete k j [] u = ground arith
mem-delete k j (x ∷ xs) u = ground (arith, mem-delete k j xs u.1, u)

pub NoDup-delete : (k : ℕ) (xs : List ℕ) → NoDup xs → NoDup (delete k xs)
NoDup-delete k [] u = tt
NoDup-delete k (x ∷ xs) u = elim (Bool-cases (x == k)) [
  | inl e ↦ rw e u.1
  | inr e ↦ rw e (ground (arith, mem-delete k x xs u.1, u), NoDup-delete k xs u.1)
]

pub length-delete : (k : ℕ) (xs : List ℕ) → mem k xs ≡ true → suc (length (delete k xs)) ≡ length xs
length-delete k [] m = absurd (ground (arith, m))
length-delete k (x ∷ xs) m = ground (arith, m, length-delete k xs)

pub delete_absent : (k : ℕ) (xs : List ℕ) → mem k xs ≡ false → delete k xs ≡ xs
delete_absent k [] m = refl
delete_absent k (x ∷ xs) m = ground (arith, m, delete_absent k xs)

pub mem-last_of : (x : ℕ) (xs : List ℕ) → mem (last_of x xs) (x ∷ xs) ≡ true
mem-last_of x [] = ground arith
mem-last_of x (y ∷ ys) = ground (arith, mem-last_of y ys)

-- To remove the last key is to keep all before it.
pub delete-last_of :
    (x : ℕ) (xs : List ℕ)
    → NoDup (x ∷ xs)
    → delete (last_of x xs) (x ∷ xs) ≡ take (length xs) (x ∷ xs)
delete-last_of x [] u = ground arith
delete-last_of x (y ∷ ys) u = elim (Bool-cases (x == last_of y ys)) [
  | inl e ↦
      let same : x ≡ last_of y ys = ground (arith, e) in
      absurd (ground (arith, u.0, mem-last_of y ys, ap (λ k. mem k (y ∷ ys)) same))
  | inr e ↦ rw e (ap (◌∷◌ x) (delete-last_of y ys u.1))
]
