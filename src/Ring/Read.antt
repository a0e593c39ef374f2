-- ===== src/Ring/Read.antt =====
-- Reading a slot out of the queue: the event is the one that the slot stands for, and the slots
-- that stay keep theirs.
use pg_stat_ch_otel_backend.Base.{
  ℕ, ◌^◌, ◌<◌, ◌≡◌, inl, inr, refl, sym, none, some, List, ◌∷◌, map, ◌==◌, if◌then◌else◌, arith, ap,
  ◌∙◌, Bool-cases, ℕ_discrete,
}
use pg_stat_ch_otel_backend.Event.{Event, RingEntry, max_err_msg_len, max_query_len}
use pg_stat_ch_otel_backend.Store.{Heap, text, object, update, Store, External}
use pg_stat_ch_otel_backend.Dsa.{resolve_string}
use pg_stat_ch_otel_backend.Dsa.Laws.{shown, resolve_string-store}
use pg_stat_ch_otel_backend.Intern.{resolve_and_release, release, resolve_into}
use pg_stat_ch_otel_backend.Intern.Sound.{IsSound, IsSound-heap}
use pg_stat_ch_otel_backend.Intern.Enter.{IsSound-refs}
use pg_stat_ch_otel_backend.Intern.Release.{release-Released, release-ready, release_invalid}
use pg_stat_ch_otel_backend.Ring.{read_slot}
use pg_stat_ch_otel_backend.Ring.Live.{
  refs, IsLive, deliver, Agree, view-same, Texts-same, Agree-intro, assemble, resolve_into-same,
}

-- A pointer with a reference holds an object.
pub object_of_refs :
    {T : Type 0} {ext : External T} {st : Store T} {r : ℕ → ℕ}
    → IsSound ext st r
    → (p : ℕ) → 0 < r p
    → (o : _) × (st.heap p ≡ some (object o))
object_of_refs {st = st} sound p pos =
    let at = sound.owned p pos in
    let old = sound.held at.key at.entry at.found in
    (old.body, ap st.heap (sym at.here) ∙ old.placed)

module _ {T : Type 0} (ext : External T) (st : Store T) (x : RingEntry) where
  abbrev resolved : List ℕ × ℕ × Store T
  resolved = resolve_string st x.err_message_dsa x.err_message_len max_err_msg_len

  read_slot-store : (read_slot ext st x).1 ≡ release ext resolved.2 x.query_dsa
  unfolding read_slot resolve_and_release
  read_slot-store = refl

  read_slot-event :
      (read_slot ext st x).0
      ≡ assemble x (resolved.0, resolved.1) (resolve_into resolved.2 x.query_dsa max_query_len)
  unfolding read_slot resolve_and_release
  read_slot-event = refl

-- What reading the slot `x` gives, and leaves for the slots `xs` behind it.
pub record Read {T : Type 0} (ext : External T) (st : Store T) (x : RingEntry) (xs : List RingEntry)
    (r : Event × Store T) : Type 0 where
  pub event : r.0 ≡ deliver st x
  pub live : IsLive ext r.1 xs
  pub rest : map (deliver r.1) xs ≡ map (deliver st) xs

module _ {T : Type 0} {ext : External T} {st : Store T} (x : RingEntry) (xs : List RingEntry)
    (live : IsLive ext st (x ∷ xs)) where
  -- The chunks, and the store, once the message is freed.
  abbrev h1 : Heap
  h1 = if x.err_message_dsa == 0 then st.heap else update st.heap x.err_message_dsa none

  abbrev st1 : Store T
  st1 = record st { heap = h1 }

  -- A query with a reference is not the message.
  h1_query : (p : ℕ) → 0 < refs (x ∷ xs) p → h1 p ≡ st.heap p
  h1_query p pos = elim (Bool-cases (x.err_message_dsa == 0)) [
    | inl e ↦ rw e refl
    | inr e ↦
        let (o, q) = object_of_refs live.sound p pos in
        let (b, t) = live.texts.0 (ground arith) in
        ground (arith, λ (z : x.err_message_dsa ≡ p). ap st.heap z)
  ]

  st1-IsSound : IsSound ext st1 (refs (x ∷ xs))
  st1-IsSound = IsSound-heap live.sound h1 (λ k e f.
      let old = live.sound.held k e f in h1_query e.object (omega (arith, old.positive, old.exact)))

  -- The store once the reference to the query is given up too.
  abbrev st2 : Store T
  st2 = release ext st1 x.query_dsa

  record After : Type 0 where
    sound : IsSound ext st2 (refs xs)
    area : st2.dsa_ready ≡ st.dsa_ready
    tab : st2.htab_ready ≡ st.htab_ready
    texts : (p : ℕ) (b : List ℕ) → st1.heap p ≡ some (text b) → st2.heap p ≡ st1.heap p
    queries : (p : ℕ) → 0 < refs xs p → st2.heap p ≡ st1.heap p

  after : ((p : ℕ) → refs (x ∷ xs) p < 2 ^ 32) → After
  after small = elim (Bool-cases (x.query_dsa == 0)) [
    | inl e ↦
        let same = release_invalid ext st1 x.query_dsa e in
        record {
          sound = rw same (IsSound-refs st1-IsSound (refs xs) (λ q. ground (arith, e)));
          area = ready.0;
          tab = ready.1;
          texts = λ p b t. rw same;
          queries = λ p pos. rw same;
        }
    | inr e ↦
        let r =
          release-Released st1-IsSound (refs xs) x.query_dsa (λ q. ground (arith, e))
            (small x.query_dsa) live.tab live.area in
        let (o, held) = object_of_refs st1-IsSound x.query_dsa (ground (arith, e)) in
        record {
          sound = r.sound;
          area = ready.0;
          tab = ready.1;
          texts = λ p b t. r.others p (λ z. cc (ap st1.heap z));
          queries = λ p pos. elim (ℕ_discrete p x.query_dsa) [
            | yes z ↦ rw z (r.kept (rw (← z) pos))
            | no n ↦ r.others p n
          ];
        }
  ]
    where
      ready : (st2.dsa_ready ≡ st1.dsa_ready) × (st2.htab_ready ≡ st1.htab_ready)
      ready = release-ready ext st1 x.query_dsa

  -- The slots behind keep their messages and their queries.
  agree : After → Agree st.heap st2.heap xs
  agree a =
      Agree-intro st.heap st2.heap x.err_message_dsa xs live.texts.2 live.texts.1
        (λ p b valid apart t.
          let stays : h1 p ≡ st.heap p = ground (arith, apart) in a.texts p b (stays ∙ t) ∙ stays)
        (λ p pos. a.queries p pos ∙ h1_query p (omega arith))

  store-read : (read_slot ext st x).1 ≡ st2
  store-read =
      read_slot-store ext st x
      ∙ ap (λ s. release ext s x.query_dsa)
          (resolve_string-store st x.err_message_dsa x.err_message_len max_err_msg_len live.area)

  event-read : (read_slot ext st x).0 ≡ deliver st x
  unfolding deliver
  event-read =
      read_slot-event ext st x
      ∙ ap (assemble x (shown st x.err_message_dsa x.err_message_len max_err_msg_len)) (
          ap (λ s. resolve_into s x.query_dsa max_query_len)
            (resolve_string-store st x.err_message_dsa x.err_message_len max_err_msg_len live.area)
          ∙ resolve_into-same st st1 x.query_dsa max_query_len refl
              (λ valid. h1_query x.query_dsa (ground (arith, valid))))

  pub read_slot-Read : ((p : ℕ) → refs (x ∷ xs) p < 2 ^ 32) → Read ext st x xs (read_slot ext st x)
  read_slot-Read small =
      let a = after small in
      record {
        event = event-read;
        live = rw store-read (record {
          area = a.area ∙ live.area;
          tab = a.tab ∙ live.tab;
          sound = a.sound;
          texts = Texts-same st.heap st2.heap xs (agree a) live.texts.2;
        });
        rest = rw store-read (view-same st st2 xs a.area (agree a));
      }
