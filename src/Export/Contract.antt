-- ===== src/Export/Contract.antt =====
-- What the callers of an exporter rely on, whichever it is.
use Prim.Native.String.{String}
use pg_stat_ch_otel_backend.Base.{
  ℕ, ◌+◌, ◌*◌, ◌≤◌, ◌≡◌, refl, ◌⊎◌, inl, inr, ⊤, List, [], ◌∷◌, length, arith,
}
use pg_stat_ch_otel_backend.Export.{
  Exception, Outcome, returned, thrown, Action, ◌>>=◌, each, World, Exporter,
}
use pg_stat_ch_otel_backend.Export.Rows.{Kind, Value}
use pg_stat_ch_otel_backend.Export.Recorded.{Recorded, unchanged, Recorded-trans}

pub Outcome-cases :
    {A : Type 0} (o : Outcome A) → ((a : A) × (o ≡ returned a)) ⊎ ((x : Exception) × (o ≡ thrown x))
Outcome-cases (returned a) = inl (a, refl)
Outcome-cases (thrown x) = inr (x, refl)

-- A sequence of two actions, by what the first answers.
pub bind_post :
    {W A B : Type 0} (P : Outcome B → W → Type 0) (m : Action W A) (f : A → Action W B) (w : W)
    → ((a : A) → (m w).0 ≡ returned a → P (f a (m w).1).0 (f a (m w).1).1)
    → ((x : Exception) → (m w).0 ≡ thrown x → P (thrown x) (m w).1)
    → P ((m >>= f) w).0 ((m >>= f) w).1
bind_post P m f w ok failed = elim (Outcome-cases (m w).0) [
  | inl (a, e) ↦ rw (e, ◌>>=◌) (ok a e)
  | inr (x, e) ↦ rw (e, ◌>>=◌) (failed x e)
]

module _ {T X : Type 0} where
  -- An action that at most records failures, and begins at most `n` rows.
  pub record Keeps (rows : X → ℕ) (n : ℕ) (w w' : World T X) : Type 0 where
    pub records : Recorded w.shared w'.shared
    pub grown : rows w'.exporter ≤ rows w.exporter + n

  -- `rows` counts the rows begun since the batch began: what is exported comes from them.
  pub record IsExporter (exporter : Exporter T X) : Type 0 where
    pub rows : X → ℕ
    pub connects :
        (w : World T X) → Recorded w.shared (exporter.establish_new_connection w).1.shared
    pub begins :
        (w : World T X)
        → Recorded w.shared (exporter.begin_batch w).1.shared
          × ((exporter.begin_batch w).0 ≡ returned tt
              → rows (exporter.begin_batch w).1.exporter ≡ 0)
    pub adds : (c : String × Kind) (w : World T X) → Keeps rows 0 w (exporter.add_column c w).1
    pub starts : (w : World T X) → Keeps rows 1 w (exporter.begin_row w).1
    pub appends : (v : String × Value) (w : World T X) → Keeps rows 0 w (exporter.append v w).1
    pub commits :
        (w : World T X)
        → Recorded w.shared (exporter.commit_batch w).1.shared
          × (exporter.num_exported (exporter.commit_batch w).1.exporter ≤ rows w.exporter)
    pub sends :
        (ipc : List ℕ) (len n : ℕ) (w : World T X)
        → Recorded w.shared (exporter.send_arrow_batch ipc len n w).1.shared

  module _ (rows : X → ℕ) where
    pub Keeps-refl : (w : World T X) → Keeps rows 0 w w
    Keeps-refl w = record { records = unchanged; grown = omega arith }

    pub Keeps-trans :
        {n k : ℕ} {u v w : World T X} → Keeps rows n u v → Keeps rows k v w → Keeps rows (n + k) u w
    Keeps-trans uv vw = record {
      records = Recorded-trans uv.records vw.records;
      grown = omega (arith, uv.grown, vw.grown);
    }

    pub Keeps-mono : {n k : ℕ} {v w : World T X} → n ≤ k → Keeps rows n v w → Keeps rows k v w
    Keeps-mono le vw = record { records = vw.records; grown = omega (arith, vw.grown) }

    pub bind-Keeps :
        {A B : Type 0} (n k : ℕ) (m : Action (World T X) A) (f : A → Action (World T X) B)
        (w : World T X)
        → Keeps rows n w (m w).1
        → ((a : A) → Keeps rows k (m w).1 (f a (m w).1).1)
        → Keeps rows (n + k) w ((m >>= f) w).1
    bind-Keeps n k m f w first then =
        bind_post (λ o w'. Keeps rows (n + k) w w') m f w (λ a e. Keeps-trans first (then a))
          (λ x e. Keeps-mono (omega arith) first)

    pub each-Keeps :
        {B : Type 0} (n : ℕ) (f : B → Action (World T X) ⊤)
        → ((b : B) (w : World T X) → Keeps rows n w (f b w).1)
        → (bs : List B) (w : World T X) → Keeps rows (length bs * n) w (each f bs w).1
    each-Keeps n f one [] w = Keeps-mono (omega arith) (Keeps-refl w)
    each-Keeps n f one (b ∷ bs) w = Keeps-mono (omega arith) (
        bind-Keeps n (length bs * n) (f b) (λ u. each f bs) w (one b w)
          (λ u. each-Keeps n f one bs (f b w).1))
