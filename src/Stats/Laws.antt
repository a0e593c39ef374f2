-- ===== src/Stats/Laws.antt =====
-- What the setup, the statistics and their reset mean for the ring.
use pg_stat_ch_otel_backend.Base.{
  ℕ, zero, suc, ◌+◌, ◌-◌, ◌^◌, ◌%◌, ◌≤◌, ◌<◌, ◌≡◌, refl, ap, fun_ext, map, not, ◌||◌, true, false,
  none, some, List, [], ◌∷◌, ◌++◌, min, take, length, length-replicate, ◌==◌, if◌then◌else◌, arith,
}
use pg_stat_ch_otel_backend.Store.{Key, Store, External}
use pg_stat_ch_otel_backend.Event.{Event}
use pg_stat_ch_otel_backend.Ring.{Shared, size, zero_slot, drop_all, handle_overflow}
use pg_stat_ch_otel_backend.Ring.Live.{deliver-same}
use pg_stat_ch_otel_backend.Ring.Valid.{IsValid, live_slots, view, length-view, small-capacity}
use pg_stat_ch_otel_backend.Stats.{
  initialize_shared_state, get_stats, reset_stats, record_export_failure, strlen, strlcpy,
  error_text_size,
}

module _ {T : Type 0} {ext : External T} where
  -- The shared state that InitializeSharedState sets up at a capacity 2^k with k at most 31, with
  -- an area and a hash table that are ready and an empty table, is a valid ring that holds no
  -- event.
  pub initialize_shared_state-IsValid :
      (st : Store T) (k : ℕ)
      → k ≤ 31
      → st.dsa_ready ≡ true
      → st.htab_ready ≡ true
      → ((j : Key) → ext.find st.table j ≡ none)
      → IsValid ext (initialize_shared_state st (2 ^ k))
        × (view (initialize_shared_state st (2 ^ k)) ≡ [])
  unfolding initialize_shared_state
  initialize_shared_state-IsValid st k narrow area tab empty = (
    record {
      width = k;
      narrow = narrow;
      power = refl;
      room = length-replicate (2 ^ k) zero_slot;
      head_in = omega arith;
      tail_in = omega arith;
      fits = omega arith;
      live = record {
        area = area;
        tab = tab;
        sound = record {
          held = λ j e found. absurd (ground (arith, empty j, found));
          owned = λ p pos. absurd (omega arith);
        };
        texts = tt;
      };
    },
    refl,
  )

  module _ (s : Shared T) (v : IsValid ext s) where
    -- On a valid ring PschGetStats reports as queue size the number of queued events, which its
    -- 32 bits hold and which is at most the capacity that it reports.
    pub get_stats-size :
        (buf : List ℕ) (n : ℕ)
        → let stats = get_stats (some s) buf n in
          (stats.queue_size ≡ length (view s)) × (stats.queue_size ≤ stats.queue_capacity)
    unfolding get_stats
    get_stats-size buf n = (
      omega (arith, length-view s, v.fits, small-capacity v),
      omega (arith, v.fits, small-capacity v),
    )

    -- PschResetStats on a valid ring keeps it valid with the same queued events, re-arms the
    -- overflow warning, and PschGetStats then shows zero for every counter and time, an empty
    -- error text, and the queue's length and capacity as before.
    pub reset_stats_lem :
        (buf : List ℕ) (n : ℕ)
        → (s' : Shared T) × (reset_stats (some s) ≡ some s')
          × IsValid ext s'
          × (view s' ≡ view s)
          × (s'.overflow_logged ≡ false)
          × (get_stats (some s') buf n ≡ record {
            enqueued = 0;
            dropped = 0;
            exported = 0;
            queue_size = length (view s);
            queue_capacity = s.capacity;
            send_failures = 0;
            last_success_ts = 0;
            last_error = if n == 0 then buf else 0 ∷ [];
            last_error_ts = 0;
            dsa_oom_count = 0;
          })
    unfolding get_stats reset_stats
    reset_stats_lem buf n = (
      _,
      refl,
      record {
        width = v.width;
        narrow = v.narrow;
        power = v.power;
        room = v.room;
        head_in = v.head_in;
        tail_in = v.tail_in;
        fits = v.fits;
        live = record {
          area = v.live.area;
          tab = v.live.tab;
          sound = record { held = v.live.sound.held; owned = v.live.sound.owned };
          texts = v.live.texts;
        };
      },
      ap (λ f. map f (live_slots s))
          (fun_ext (λ x. deliver-same s.store _ x refl (λ _. refl) (λ _. refl))),
      refl,
      cc (size_shown, text_shown),
    )
      where
        size_shown : size s % 2 ^ 32 ≡ length (view s)
        size_shown = omega (arith, length-view s, v.fits, small-capacity v)

        text_shown : strlcpy buf (0 ∷ []) n ≡ (if n == 0 then buf else 0 ∷ [])
        text_shown = ap (λ m. if n == 0 then buf else take m (0 ∷ []) ++ 0 ∷ []) min_0
          where
            min_0 : min 0 (n - 1) ≡ 0
            min_0 = omega arith

-- The terminated text that a copy leaves has the length that was copied.
pub strlen-copy : (k : ℕ) (src : List ℕ) → k ≤ strlen src → strlen (take k src ++ 0 ∷ []) ≡ k
strlen-copy zero src h = refl
strlen-copy (suc k) [] h = absurd (omega arith)
strlen-copy (suc k) (c ∷ src) h = ground (arith, strlen-copy k src)

pub take-copy :
    (j k : ℕ) (src : List ℕ) → j ≤ k → k ≤ strlen src → take j (take k src ++ 0 ∷ []) ≡ take j src
take-copy zero k src h h' = refl
take-copy (suc j) zero src h h' = absurd (omega arith)
take-copy (suc j) (suc k) [] h h' = absurd (omega arith)
take-copy (suc j) (suc k) (c ∷ src) h h' =
    ap (◌∷◌ c) (take-copy j k src (omega arith) (ground arith))

-- Two `strlcpy` in a row cut to the shorter buffer.
strlcpy-strlcpy :
    (buf dst src : List ℕ) (n m : ℕ)
    → 0 < n
    → n ≤ m
    → strlcpy buf (strlcpy dst src m) n ≡ take (min (strlen src) (n - 1)) src ++ 0 ∷ []
strlcpy-strlcpy buf dst src n m pos le = ground (
  arith,
  strlen-copy (min (strlen src) (m - 1)) src,
  take-copy (min (strlen src) (n - 1)) (min (strlen src) (m - 1)) src,
)

-- After PschRecordExportFailure with a message, PschGetStats with a buffer of 1 to 256 bytes
-- shows that message up to its NUL, cut to the buffer and terminated, the time of the failure,
-- and the count of failures raised by one modulo 2^64.
pub record_export_failure-get_stats :
    {T : Type 0} (s : Shared T) (now : ℕ) (msg buf : List ℕ) (n : ℕ)
    → 0 < n
    → n ≤ error_text_size
    → let stats = get_stats (record_export_failure now (some msg) (some s)) buf n in
      (stats.last_error ≡ take (min (strlen msg) (n - 1)) msg ++ 0 ∷ [])
      × (stats.last_error_ts ≡ now)
      × (stats.send_failures ≡ (s.send_failures + 1) % 2 ^ 64)
unfolding get_stats record_export_failure
record_export_failure-get_stats s now msg buf n pos le =
    (strlcpy-strlcpy buf s.last_error_text msg n error_text_size pos le, refl, refl)

-- Dropping any number of events in a row counts each of them, modulo 2^64, and logs one warning
-- where the flag was clear and there was an event, and none otherwise; the flag is then set.
pub drop_all-warnings :
    {T : Type 0} (s : Shared T) (es : List Event)
    → let s' = drop_all s es in
      (s'.warnings ≡ (if s.overflow_logged || (length es == 0) then s.warnings else s.warnings + 1))
      × (s'.overflow_logged ≡ (s.overflow_logged || not (length es == 0)))
      × (s'.dropped % 2 ^ 64 ≡ (s.dropped + length es) % 2 ^ 64)
unfolding drop_all handle_overflow
drop_all-warnings s [] = ground arith
drop_all-warnings s (e ∷ es) = ground (arith, drop_all-warnings (handle_overflow s) es)
