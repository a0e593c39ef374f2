-- ===== src/Export/Batch/Accounted.antt =====
-- What the answer and the count of the exported events have to do with each other, and that the
-- barriers against exceptions keep it.
use pg_stat_ch_otel_backend.Base.{
  ℕ, ◌≤◌, ◌≡◌, ap, ◌∙◌, subst, ◌⊎◌, inl, inr, Option, none, some, List,
}
use pg_stat_ch_otel_backend.Store.{External}
use pg_stat_ch_otel_backend.Dsa.{add64}
use pg_stat_ch_otel_backend.Ring.{Shared}
use pg_stat_ch_otel_backend.Export.{
  Exception, Outcome, returned, thrown, Action, World, record_failure,
}
use pg_stat_ch_otel_backend.Export.Recorded.{
  Recorded, unchanged, failed, Same, Recorded-Same, IsSound, queued, exported,
  record_export_success-Same,
}
use pg_stat_ch_otel_backend.Export.Contract.{Outcome-cases}
use pg_stat_ch_otel_backend.Export.Batch.{record_success, failure_text, barrier}

-- `n` events are done with: the queue is as it was, and what is answered is at most `n` and is what
-- was added to the count of the exported events, if anything was.
pub record Accounted {T : Type 0} (ext : External T) (n : ℕ) (s : Option (Shared T)) (r : ℕ)
    (s' : Option (Shared T)) : Type 0 where
  pub sound : IsSound ext s'
  pub queue : queued s' ≡ queued s
  pub answer : r ≤ n
  pub count : (exported s' ≡ exported s) ⊎ (exported s' ≡ add64 (exported s) r)

-- What is answered where an exception is caught is 0.
abbrev pub value : Outcome ℕ → ℕ
value (returned r) = r
value (thrown x) = 0

-- Raising the count of the exported events.
abbrev pub add_exported : {T : Type 0} → ℕ → Option (Shared T) → Option (Shared T)
add_exported n none = none
add_exported n (some s) = some (record s { exported = add64 s.exported n })

module _ {T : Type 0} {ext : External T} {n r : ℕ} {s : Option (Shared T)} where
  pub Recorded-Accounted :
      {s' : Option (Shared T)} → IsSound ext s → r ≤ n → Recorded s s' → Accounted ext n s r s'
  Recorded-Accounted v le rec =
      let same = Recorded-Same v rec in
      record { sound = same.kept; queue = same.queue; answer = le; count = inl same.count }

  pub Accounted-Same :
      {s' s'' : Option (Shared T)}
      → Accounted ext n s r s'
      → Same ext s' s''
      → Accounted ext n s r s''
  Accounted-Same acc same = record {
    sound = same.kept;
    queue = same.queue ∙ acc.queue;
    answer = acc.answer;
    count = elim acc.count [ inl e ↦ inl (same.count ∙ e) | inr e ↦ inr (same.count ∙ e) ];
  }

  add_exported-Accounted :
      {s' : Option (Shared T)} → r ≤ n → Same ext s s' → Accounted ext n s r (add_exported r s')
  add_exported-Accounted {s' = none} le same = record {
    sound = tt;
    queue = same.queue;
    answer = le;
    count = inl same.count;
  }
  add_exported-Accounted {s' = some t} le same =
      let v = same.kept in
      record {
        sound = record {
          width = v.width;
          narrow = v.narrow;
          power = v.power;
          room = v.room;
          head_in = v.head_in;
          tail_in = v.tail_in;
          fits = v.fits;
          live = v.live;
        };
        queue = same.queue;
        answer = le;
        count = inr (ap (λ k. add64 k r) same.count);
      }

  pub record_success-Accounted :
      {X : Type 0} (w : World T X)
      → IsSound ext s
      → r ≤ n
      → Recorded s w.shared
      → Accounted ext n s r (record_success r w).shared
  unfolding record_success
  record_success-Accounted w v le rec =
      let acc = add_exported-Accounted le (Recorded-Same v rec) in
      Accounted-Same acc (record_export_success-Same (add_exported r w.shared) w.time acc.sound)

module _ {T X : Type 0} where
  -- The barrier, by the outcome of its body.
  pub barrier_post :
      {A : Type 0} (P : A → World T X → Type 0) (oom : List ℕ) (a : A) (body : Action (World T X) A)
      (w : World T X)
      → ((b : A) → (body w).0 ≡ returned b → P b (body w).1)
      → ((x : Exception)
          → (body w).0 ≡ thrown x
          → P a (record_failure (failure_text oom x) (body w).1))
      → P (barrier oom a body w).0 (barrier oom a body w).1
  barrier_post P oom a body w ok caught = elim (Outcome-cases (body w).0) [
    | inl (b, e) ↦ rw (e, barrier) (ok b e)
    | inr (x, e) ↦ rw (e, barrier) (caught x e)
  ]

module _ {T X : Type 0} {ext : External T} where
  pub record_failure-Same :
      (w : World T X) (msg : List ℕ)
      → IsSound ext w.shared
      → Same ext w.shared (record_failure msg w).shared
  unfolding record_failure
  record_failure-Same w msg v = Recorded-Same v (failed w.shared w.time (some msg) unchanged)

  -- The barrier turns an exception into the answer 0.
  pub barrier-Accounted :
      (n : ℕ) (s : Option (Shared T)) (oom : List ℕ) (body : Action (World T X) ℕ) (w : World T X)
      → Accounted ext n s (value (body w).0) (body w).1.shared
      → Accounted ext n s (barrier oom 0 body w).0 (barrier oom 0 body w).1.shared
  barrier-Accounted n s oom body w acc =
      barrier_post (λ r w'. Accounted ext n s r w'.shared) oom 0 body w
        (λ r e. subst (λ (o : Outcome ℕ). Accounted ext n s (value o) (body w).1.shared) e acc)
        (λ x e.
          Accounted-Same
            (subst (λ (o : Outcome ℕ). Accounted ext n s (value o) (body w).1.shared) e acc)
            (record_failure-Same (body w).1 (failure_text oom x) acc.sound))
