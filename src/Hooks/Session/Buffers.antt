-- ===== src/Hooks/Session/Buffers.antt =====
-- A text in a buffer of a fixed size, as the structs of the hooks hold it.
use pg_stat_ch_otel_backend.Base.{
  ℕ, zero, suc, ◌%◌, ◌^◌, ◌≤◌, ◌<◌, ◌≡◌, refl, subst, get_or, ◌++◌, List, [], ◌∷◌, take, length,
  length-append, length-take, arith,
}

-- A text in a buffer of `size` bytes: what is kept of the buffer fits it, and its NUL is at the
-- length, which is then below the size.
abbrev pub Within : ℕ → List ℕ × ℕ → Type 0
Within size (buf, len) = (length buf ≤ size) × (get_or buf len 1 ≡ 0)

pub get_or-bound : (buf : List ℕ) (len : ℕ) → get_or buf len 1 ≡ 0 → len < length buf
get_or-bound [] len e = absurd (omega (arith, e))
get_or-bound (c ∷ buf) zero e = omega arith
get_or-bound (c ∷ buf) (suc len) e = omega (arith, get_or-bound buf len e)

get_or-copy : (n : ℕ) (text : List ℕ) → n ≤ length text → get_or (take n text ++ 0 ∷ []) n 1 ≡ 0
get_or-copy zero text fits = refl
get_or-copy (suc n) [] fits = absurd (omega arith)
get_or-copy (suc n) (c ∷ text) fits = get_or-copy n text (omega arith)

-- The first `n` bytes of a text, terminated.
pub copied-Within :
    (size n : ℕ) (text : List ℕ)
    → n ≤ length text
    → n < size
    → Within size (take n text ++ 0 ∷ [], n)
copied-Within size n text fits small = (
  omega (arith, length-append (take n text) (0 ∷ []), length-take n text),
  get_or-copy n text fits,
)

pub empty-Within : (size : ℕ) → 0 < size → Within size (0 ∷ [], 0)
empty-Within size some_room = (omega arith, refl)

-- The length keeps its value as a `uint8` or a `uint16`.
pub byte-Within :
    (size : ℕ) (buf : List ℕ) (len : ℕ)
    → size ≤ 2 ^ 8
    → Within size (buf, len)
    → Within size (buf, len % 2 ^ 8)
byte-Within size buf len small (kept, nul) =
    let same : len ≡ len % 2 ^ 8 = omega (arith, get_or-bound buf len nul) in
    (kept, subst (λ n. get_or buf n 1 ≡ 0) same nul)

pub short-Within :
    (size : ℕ) (buf : List ℕ) (len : ℕ)
    → size ≤ 2 ^ 16
    → Within size (buf, len)
    → Within size (buf, len % 2 ^ 16)
short-Within size buf len small (kept, nul) =
    let same : len ≡ len % 2 ^ 16 = omega (arith, get_or-bound buf len nul) in
    (kept, subst (λ n. get_or buf n 1 ≡ 0) same nul)
