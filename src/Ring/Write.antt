-- ===== src/Ring/Write.antt =====
-- Filling a slot: its strings join those of the queue, the other slots keep theirs, and the slot
-- stands for the event, whole or with a string lost.
use pg_stat_ch_otel_backend.Base.{
  ℕ, ◌+◌, ◌-◌, ◌^◌, ◌<◌, ◌≤◌, ◌≡◌, ◌≢◌, ◌⊎◌, inl, inr, refl, sym, subst, true, false, none, some,
  List, [], ◌∷◌, ◌++◌, map, ◌==◌, if◌then◌else◌, arith, ap, ◌∙◌, Bool-cases, ℕ_discrete, min, take,
  length, ltb, ◌&&◌,
}
use pg_stat_ch_otel_backend.Event.{Event, Prefix, RingEntry, max_err_msg_len, max_query_len}
use pg_stat_ch_otel_backend.Store.{Heap, text, Store, External}
use pg_stat_ch_otel_backend.Dsa.{bytes_at, alloc_string, resolve_string}
use pg_stat_ch_otel_backend.Dsa.Laws.{shown, alloc_string-Outcome}
use pg_stat_ch_otel_backend.Intern.{acquire, resolve_into, make_key}
use pg_stat_ch_otel_backend.Intern.Sound.{IsSound, IsSound-heap}
use pg_stat_ch_otel_backend.Intern.Enter.{IsSound-refs}
use pg_stat_ch_otel_backend.Intern.Insert.{GainsRef, take-text}
use pg_stat_ch_otel_backend.Intern.Acquire.{acquire-Acquired, acquire-ready}
use pg_stat_ch_otel_backend.Intern.Release.{resolve_into-Holds, resolve_into_invalid}
use pg_stat_ch_otel_backend.Ring.{fill_slot}
use pg_stat_ch_otel_backend.Ring.Live.{
  refs, Texts, IsText, Unshared, IsLive, deliver, Agree, view-same, Texts-same, Agree-intro,
}
use pg_stat_ch_otel_backend.Ring.Read.{object_of_refs}

-- The string shows the first `n` bytes of `src`, or has been lost.
abbrev pub ShowsOrLost : List ℕ → ℕ → List ℕ × ℕ → Type 0
ShowsOrLost src n r = (r ≡ (take n src ++ 0 ∷ [], n)) ⊎ (r ≡ (0 ∷ [], 0))

-- All but the lengths of the two strings.
abbrev pub numeric : Prefix → Prefix
numeric p = record p { err_message_len = 0; query_len = 0 }

-- The event `e` is `event` with its strings cut to the buffers, or one or both of them lost.
pub record Carries (event e : Event) : Type 0 where
  pub numbers : numeric e.prefix ≡ numeric event.prefix
  pub message :
      ShowsOrLost event.err_message
        (min event.err_message_len (max_err_msg_len - 1))
        (e.err_message, e.err_message_len)
  pub query_text :
      ShowsOrLost event.query (min event.query_len (max_query_len - 1)) (e.query, e.query_len)

-- The lengths of the strings of an event are within its buffers.
pub record IsFormed (event : Event) : Type 0 where
  pub message_fits : event.err_message_len ≤ length event.err_message
  pub query_fits : event.query_len ≤ length event.query

refs-append :
    (xs : List RingEntry) (x : RingEntry) (q : ℕ)
    → refs (xs ++ x ∷ []) q
      ≡ (if x.query_dsa == q then (if q == 0 then 0 else 1) else 0) + refs xs q
refs-append [] x q = refl
refs-append (y ∷ ys) x q = omega (arith, refs-append ys x q)

Unshared-append :
    (p : ℕ) (xs : List RingEntry) (x : RingEntry)
    → Unshared p xs
    → x.err_message_dsa ≢ p
    → Unshared p (xs ++ x ∷ [])
Unshared-append p [] x u n = (n, tt)
Unshared-append p (y ∷ ys) x u n = (u.0, Unshared-append p ys x u.1 n)

-- A message in a chunk that was free joins the others.
Texts-append :
    (h h0 : Heap) (xs : List RingEntry) (x : RingEntry)
    → Texts h0 xs
    → Texts h xs
    → IsText h x.err_message_dsa
    → (x.err_message_dsa ≢ 0 → h0 x.err_message_dsa ≡ none)
    → Texts h (xs ++ x ∷ [])
Texts-append h h0 [] x t0 t new free = (new, (λ _. tt), tt)
Texts-append h h0 (y ∷ ys) x t0 t new free = (
  t.0,
  (λ valid. Unshared-append y.err_message_dsa ys x (t.1 valid) (λ e. apart valid e)),
  Texts-append h h0 ys x t0.2 t.2 new free,
)
  where
    apart : y.err_message_dsa ≢ 0 → x.err_message_dsa ≢ y.err_message_dsa
    apart valid e = let (b, held) = t0.0 valid in cc (ap h0 e, held, free (λ z. valid (sym e ∙ z)))

-- A message shows as it was stored.
shown-text :
    {T : Type 0} (st : Store T) (dp : ℕ) (src : List ℕ) (len len' : ℕ)
    → dp ≢ 0
    → st.dsa_ready ≡ true
    → min len 2047 ≤ length src
    → st.heap dp ≡ some (text (take (min len 2047) src ++ 0 ∷ []))
    → len' ≡ len
    → shown st dp len' max_err_msg_len ≡ (take (min len 2047) src ++ 0 ∷ [], min len 2047)
unfolding resolve_string
shown-text st dp src len len' valid area fits held same =
    let nonzero : (dp == 0) ≡ false = ground (arith, valid) in
    let bytes : bytes_at st.heap dp ≡ take (min len 2047) src ++ 0 ∷ [] = ground (arith, held) in
    rw (same, nonzero, area)
      (ap (λ b. (take (min len 2047) b ++ 0 ∷ [], min len 2047)) bytes
        ∙ ap (λ b. (b ++ 0 ∷ [], min len 2047)) (take-text (min len 2047) src fits))

module _ {T : Type 0} {ext : External T} {st : Store T} (xs : List RingEntry)
    (live : IsLive ext st xs) where
  -- After the error message: `dp` is its pointer, `n` the bytes that it should hold.
  record Messaged (src : List ℕ) (n dp : ℕ) (st1 : Store T) : Type 0 where
    sound : IsSound ext st1 (refs xs)
    area : st1.dsa_ready ≡ st.dsa_ready
    tab : st1.htab_ready ≡ st.htab_ready
    frame : (q : ℕ) → st.heap q ≢ none → st1.heap q ≡ st.heap q
    free : dp ≢ 0 → st.heap dp ≡ none
    holds : dp ≢ 0 → st1.heap dp ≡ some (text (take n src ++ 0 ∷ []))

  alloc_string-Messaged :
      (src : List ℕ) (len : ℕ)
      → let (dp, st1) = alloc_string ext st src len max_err_msg_len in
        Messaged src (min len (max_err_msg_len - 1)) dp st1
  alloc_string-Messaged src len = elim (alloc_string-Outcome ext st src len max_err_msg_len) [
    | inl (m, e) ↦ rw e (record {
      sound = record { held = live.sound.held; owned = live.sound.owned };
      area = refl;
      tab = refl;
      frame = λ q used. refl;
      free = λ z. absurd (z refl);
      holds = λ z. absurd (z refl);
    })
    | inr (dp, e, valid, new) ↦ rw e (record {
      sound =
          IsSound-heap live.sound _ (λ k d f. ground (arith, new, (live.sound.held k d f).placed));
      area = refl;
      tab = refl;
      frame = λ q used. ground (arith, λ (z : dp ≡ q). used (sym (ap st.heap z) ∙ new));
      free = λ _. new;
      holds = λ _. ground arith;
    })
  ]

  -- After the query text: `p` is its pointer, `n` the bytes that it should hold.
  record Queried (st1 : Store T) (query : List ℕ) (n p : ℕ) (st2 : Store T) : Type 0 where
    sound : (refs' : ℕ → ℕ) → GainsRef p (refs xs) refs' → IsSound ext st2 refs'
    area : st2.dsa_ready ≡ st1.dsa_ready
    tab : st2.htab_ready ≡ st1.htab_ready
    frame : (q : ℕ) → st1.heap q ≢ none → st2.heap q ≡ st1.heap q
    shows : ShowsOrLost query n (resolve_into st2 p max_query_len)

  acquire-Queried :
      (st1 : Store T)
      → IsSound ext st1 (refs xs)
      → st1.dsa_ready ≡ true
      → (dbid queryid : ℕ) (query : List ℕ) (n : ℕ) → n ≤ length query
      → n < max_query_len
      → ((q : ℕ) → refs xs q + 1 < 2 ^ 32)
      → let (p, st2) = acquire ext (λ o. o) st1 dbid queryid query n in Queried st1 query n p st2
  unfolding make_key
  acquire-Queried st1 sound area dbid queryid query n fits short small =
      let a = acquire-Acquired sound dbid queryid query n fits small in
      let ready = acquire-ready ext st1 dbid queryid query n in
      let r = acquire ext (λ o. o) st1 dbid queryid query n in
      record {
        sound = a.sound;
        area = ready.0;
        tab = ready.1;
        frame = a.frame;
        shows = elim (ℕ_discrete r.0 0) [
          | yes z ↦ inr (rw z (resolve_into_invalid r.1 max_query_len))
          | no z ↦ inl (
              resolve_into-Holds r.1 r.0 query n max_query_len z (ready.0 ∙ area) (a.holds z)
                (omega arith)
              ∙ ap (λ k. (take k query ++ 0 ∷ [], k)) (omega arith))
        ];
      }

  no_query-Queried :
      (st1 : Store T) (query : List ℕ) → IsSound ext st1 (refs xs) → Queried st1 query 0 0 st1
  no_query-Queried st1 query sound = record {
    sound = λ refs' gain. IsSound-refs sound refs' (λ q. ground (arith, gain q));
    area = refl;
    tab = refl;
    frame = λ q _. refl;
    shows = inr (resolve_into_invalid st1 max_query_len);
  }

  -- What filling a slot for `event` gives, and leaves for the slots that are there.
  pub record Filled (event : Event) (r : RingEntry × Store T) : Type 0 where
    pub live' : IsLive ext r.1 (xs ++ r.0 ∷ [])
    pub rest : map (deliver r.1) xs ≡ map (deliver st) xs
    pub carries : Carries event (deliver r.1 r.0)

  module _ (event : Event) (formed : IsFormed event) {st1 st2 : Store T} {err_dsa query_dsa : ℕ}
      (m : Messaged event.err_message (min event.err_message_len (max_err_msg_len - 1)) err_dsa st1)
      (q : Queried st1 event.query (min event.query_len (max_query_len - 1)) query_dsa st2)
      (slot_query_len : ℕ) where
    abbrev slot : RingEntry
    slot = record {
      prefix = record event.prefix {
        err_message_len =
            if ltb 0 event.err_message_len && (err_dsa == 0) then 0 else event.err_message_len;
        query_len = slot_query_len;
      };
      err_message_dsa = err_dsa;
      query_dsa = query_dsa;
    }

    -- Both steps together leave the chunks in use as they are.
    frame : (p : ℕ) → st.heap p ≢ none → st2.heap p ≡ st.heap p
    frame p used = q.frame p (λ z. used (sym (m.frame p used) ∙ z)) ∙ m.frame p used

    agree : Agree st.heap st2.heap xs
    agree =
        Agree-intro st.heap st2.heap 0 xs live.texts (λ z. absurd (z refl))
          (λ p b valid _ t. frame p (λ z. cc (z, t)))
          (λ p pos. let (o, held) = object_of_refs live.sound p pos in frame p (λ z. cc (z, held)))

    message_text : err_dsa ≢ 0 → st2.heap err_dsa ≡ st1.heap err_dsa
    message_text valid = q.frame err_dsa (λ z. cc (z, m.holds valid))

    message_shows :
        ShowsOrLost event.err_message
          (min event.err_message_len (max_err_msg_len - 1))
          (shown st2 err_dsa slot.err_message_len max_err_msg_len)
    unfolding resolve_string
    message_shows = elim (Bool-cases (err_dsa == 0)) [
      | inl z ↦ inr (rw z refl)
      | inr z ↦
          let valid : err_dsa ≢ 0 = ground (arith, z) in
          let held = message_text valid ∙ m.holds valid in
          let area = q.area ∙ (m.area ∙ live.area) in
          let fits : min event.err_message_len 2047 ≤ length event.err_message =
            omega (arith, formed.message_fits) in
          inl (
            shown-text st2 err_dsa event.err_message event.err_message_len slot.err_message_len
              valid area fits held (ground (arith, z)))
    ]

    assembled : Filled event (slot, st2)
    unfolding deliver
    assembled = record {
      live' = record {
        area = q.area ∙ (m.area ∙ live.area);
        tab = q.tab ∙ (m.tab ∙ live.tab);
        sound = q.sound (refs (xs ++ slot ∷ [])) (refs-append xs slot);
        texts =
            Texts-append st2.heap st.heap xs slot live.texts
              (Texts-same st.heap st2.heap xs agree live.texts)
              (λ valid. (_, message_text valid ∙ m.holds valid)) m.free;
      };
      rest = view-same st st2 xs (q.area ∙ m.area) agree;
      carries = record { numbers = refl; message = message_shows; query_text = q.shows };
    }

  -- A slot filled by TryEnqueueLocked.
  pub fill_slot-Filled :
      (event : Event)
      → IsFormed event
      → ((q : ℕ) → refs xs q + 1 < 2 ^ 32)
      → Filled event (fill_slot ext st event)
  unfolding fill_slot
  fill_slot-Filled event formed small = elim (Bool-cases (ltb 0 event.query_len)) [
    | inl some_text ↦
        rw (some_text, fill_slot)
          (assembled event formed messaged
            (acquire-Queried _ messaged.sound (messaged.area ∙ live.area) event.dbid event.queryid
              event.query (min event.query_len 2047) (omega (arith, formed.query_fits))
              (omega arith) small)
            _)
    | inr no_text ↦
        let none_of : 0 ≡ min event.query_len 2047 = ground (arith, no_text) in
        rw (no_text, fill_slot)
          (assembled event formed messaged
            (subst (λ n. Queried stored event.query n 0 stored) none_of
              (no_query-Queried stored event.query messaged.sound))
            event.query_len)
  ]
    where
      stored : Store T
      stored = (alloc_string ext st event.err_message event.err_message_len max_err_msg_len).1

      messaged :
          Messaged event.err_message
            (min event.err_message_len (max_err_msg_len - 1))
            (alloc_string ext st event.err_message event.err_message_len max_err_msg_len).0
            stored
      messaged = alloc_string-Messaged event.err_message event.err_message_len
