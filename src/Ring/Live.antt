-- ===== src/Ring/Live.antt =====
-- The strings of the slots that are in the queue: each error message is a chunk of its own, and
-- each query text is one of the references that the interner counts.
use pg_stat_ch_otel_backend.Base.{
  ℕ, ◌+◌, ◌≡◌, ◌≢◌, refl, true, some, List, [], ◌∷◌, map, ◌==◌, if◌then◌else◌, arith, ap, ap₂, ◌∙◌,
  ◌<◌,
}
use pg_stat_ch_otel_backend.Event.{Event, RingEntry, max_err_msg_len, max_query_len}
use pg_stat_ch_otel_backend.Store.{Heap, text, Store, External}
use pg_stat_ch_otel_backend.Dsa.Laws.{shown, shown-same}
use pg_stat_ch_otel_backend.Intern.{resolve_into}
use pg_stat_ch_otel_backend.Intern.Sound.{IsSound}

-- How many slots refer to the query at a pointer.
abbrev pub refs : List RingEntry → ℕ → ℕ
refs [] p = 0
refs (x ∷ xs) p = (if x.query_dsa == p then (if p == 0 then 0 else 1) else 0) + refs xs p

-- No slot has the error message at this pointer.
abbrev pub Unshared : ℕ → List RingEntry → Type 0
Unshared p [] = Unit {0}
Unshared p (x ∷ xs) = (x.err_message_dsa ≢ p) × Unshared p xs

-- The pointer is invalid, or is that of a message.
abbrev pub IsText : Heap → ℕ → Type 0
IsText h p = (p ≢ 0) → (b : List ℕ) × (h p ≡ some (text b))

abbrev pub Texts : Heap → List RingEntry → Type 0
Texts h [] = Unit {0}
Texts h (x ∷ xs) =
    IsText h x.err_message_dsa
    × (x.err_message_dsa ≢ 0 → Unshared x.err_message_dsa xs)
    × Texts h xs

pub record IsLive {T : Type 0} (ext : External T) (st : Store T) (xs : List RingEntry)
    : Type 0 where
  pub area : st.dsa_ready ≡ true
  pub tab : st.htab_ready ≡ true
  pub sound : IsSound ext st (refs xs)
  pub texts : Texts st.heap xs

abbrev pub assemble : RingEntry → List ℕ × ℕ → List ℕ × ℕ → Event
assemble x err query = record {
  prefix = record x.prefix { err_message_len = err.1; query_len = query.1 };
  err_message = err.0;
  query = query.0;
}

-- The event that a slot stands for.
unfoldable pub deliver : {T : Type 0} → Store T → RingEntry → Event
deliver st x =
    assemble x (shown st x.err_message_dsa x.err_message_len max_err_msg_len)
      (resolve_into st x.query_dsa max_query_len)

pub resolve_into-same :
    {T : Type 0} (s s' : Store T) (ref dst_size : ℕ)
    → s'.dsa_ready ≡ s.dsa_ready
    → (ref ≢ 0 → s'.heap ref ≡ s.heap ref)
    → resolve_into s' ref dst_size ≡ resolve_into s ref dst_size
unfolding resolve_into
resolve_into-same s s' ref dst_size ready same = ground (arith, same)

-- It depends on the chunks of its two pointers.
pub deliver-same :
    {T : Type 0} (s s' : Store T) (x : RingEntry)
    → s'.dsa_ready ≡ s.dsa_ready
    → (x.err_message_dsa ≢ 0 → s'.heap x.err_message_dsa ≡ s.heap x.err_message_dsa)
    → (x.query_dsa ≢ 0 → s'.heap x.query_dsa ≡ s.heap x.query_dsa)
    → deliver s' x ≡ deliver s x
unfolding deliver
deliver-same s s' x ready err query =
    ap (λ p. assemble x p (resolve_into s' x.query_dsa max_query_len))
      (shown-same s s' x.err_message_dsa x.err_message_len max_err_msg_len ready err)
    ∙ ap (assemble x (shown s x.err_message_dsa x.err_message_len max_err_msg_len))
        (resolve_into-same s s' x.query_dsa max_query_len ready query)

-- The two heaps hold the same at every pointer of the slots.
abbrev pub Agree : Heap → Heap → List RingEntry → Type 0
Agree h h' [] = Unit {0}
Agree h h' (x ∷ xs) =
    (x.err_message_dsa ≢ 0 → h' x.err_message_dsa ≡ h x.err_message_dsa)
    × (x.query_dsa ≢ 0 → h' x.query_dsa ≡ h x.query_dsa)
    × Agree h h' xs

-- Then they show the same events, and the same messages.
pub view-same :
    {T : Type 0} (s s' : Store T) (xs : List RingEntry)
    → s'.dsa_ready ≡ s.dsa_ready
    → Agree s.heap s'.heap xs
    → map (deliver s') xs ≡ map (deliver s) xs
view-same s s' [] ready agree = refl
view-same s s' (x ∷ xs) ready agree =
    ap₂ ◌∷◌ (deliver-same s s' x ready agree.0 agree.1) (view-same s s' xs ready agree.2)

pub Texts-same : (h h' : Heap) (xs : List RingEntry) → Agree h h' xs → Texts h xs → Texts h' xs
Texts-same h h' [] agree t = tt
Texts-same h h' (x ∷ xs) agree t =
    (λ valid. let (b, e) = t.0 valid in (b, agree.0 valid ∙ e), t.1, Texts-same h h' xs agree.2 t.2)

-- It is enough that messages other than the one at `gone`, and queries with a reference, stay.
pub Agree-intro :
    (h h' : Heap) (gone : ℕ) (xs : List RingEntry)
    → Texts h xs
    → (gone ≢ 0 → Unshared gone xs)
    → ((p : ℕ) (b : List ℕ) → p ≢ 0 → p ≢ gone → h p ≡ some (text b) → h' p ≡ h p)
    → ((p : ℕ) → 0 < refs xs p → h' p ≡ h p)
    → Agree h h' xs
Agree-intro h h' gone [] t apart text_stays query_stays = tt
Agree-intro h h' gone (x ∷ xs) t apart text_stays query_stays = (
  λ valid. let (b, e) = t.0 valid in text_stays x.err_message_dsa b valid (elsewhere valid) e,
  λ valid. query_stays x.query_dsa (ground (arith, valid)),
  Agree-intro h h' gone xs t.2 (λ z. (apart z).1) text_stays (λ p pos. query_stays p (omega arith)),
)
  where
    elsewhere : x.err_message_dsa ≢ 0 → x.err_message_dsa ≢ gone
    elsewhere valid = λ e. (apart (λ z. valid (e ∙ z))).0 e
