-- ===== src/Export/Recorded.antt =====
-- What an exporter may do to the shared state: record failures. That leaves the queue and the count
-- of the exported events as they are.
use pg_stat_ch_otel_backend.Base.{ℕ, ⊤, ◌≡◌, refl, ◌∙◌, Option, none, some, List, []}
use pg_stat_ch_otel_backend.Event.{Event}
use pg_stat_ch_otel_backend.Store.{External}
use pg_stat_ch_otel_backend.Ring.{Shared}
use pg_stat_ch_otel_backend.Ring.Valid.{IsValid, view}
use pg_stat_ch_otel_backend.Stats.{record_export_failure, record_export_success}

-- Some calls of PschRecordExportFailure.
pub data Recorded {T : Type 0} (s : Option (Shared T)) : Option (Shared T) → Type 0 where
  unchanged : Recorded s s
  failed :
      (s' : Option (Shared T)) (now : ℕ) (msg : Option (List ℕ))
      → Recorded s s'
      → Recorded s (record_export_failure now msg s')

module _ {T : Type 0} where
  pub Recorded-trans : {s t u : Option (Shared T)} → Recorded s t → Recorded t u → Recorded s u
  Recorded-trans st unchanged = st
  Recorded-trans st (failed u now msg tu) = failed u now msg (Recorded-trans st tu)

  -- The queue that stands in shared memory, if there is one.
  abbrev pub queued : Option (Shared T) → List Event
  queued none = []
  queued (some s) = view s

  abbrev pub IsSound : External T → Option (Shared T) → Type 0
  IsSound ext none = ⊤
  IsSound ext (some s) = IsValid ext s

  abbrev pub exported : Option (Shared T) → ℕ
  exported none = 0
  exported (some s) = s.exported

  -- The same queue and the same count.
  pub record Same (ext : External T) (s s' : Option (Shared T)) : Type 0 where
    pub kept : IsSound ext s'
    pub queue : queued s' ≡ queued s
    pub count : exported s' ≡ exported s

  module _ {ext : External T} where
    record_export_failure-IsValid :
        (s : Shared T) (now : ℕ) (msg : Option (List ℕ))
        → IsValid ext s
        → Same ext (some s) (record_export_failure now msg (some s))
    unfolding record_export_failure
    record_export_failure-IsValid s now none v = record {
      kept = record {
        width = v.width;
        narrow = v.narrow;
        power = v.power;
        room = v.room;
        head_in = v.head_in;
        tail_in = v.tail_in;
        fits = v.fits;
        live = v.live;
      };
      queue = refl;
      count = refl;
    }
    record_export_failure-IsValid s now (some text) v = record {
      kept = record {
        width = v.width;
        narrow = v.narrow;
        power = v.power;
        room = v.room;
        head_in = v.head_in;
        tail_in = v.tail_in;
        fits = v.fits;
        live = v.live;
      };
      queue = refl;
      count = refl;
    }

    record_export_failure-Same :
        (s : Option (Shared T)) (now : ℕ) (msg : Option (List ℕ))
        → IsSound ext s
        → Same ext s (record_export_failure now msg s)
    unfolding record_export_failure
    record_export_failure-Same none now msg v = record { kept = tt; queue = refl; count = refl }
    record_export_failure-Same (some s) now msg v = record_export_failure-IsValid s now msg v

    -- PschRecordExportSuccess does not touch the queue either.
    pub record_export_success-Same :
        (s : Option (Shared T)) (now : ℕ) → IsSound ext s → Same ext s (record_export_success now s)
    unfolding record_export_success
    record_export_success-Same none now v = record { kept = tt; queue = refl; count = refl }
    record_export_success-Same (some s) now v = record {
      kept = record {
        width = v.width;
        narrow = v.narrow;
        power = v.power;
        room = v.room;
        head_in = v.head_in;
        tail_in = v.tail_in;
        fits = v.fits;
        live = v.live;
      };
      queue = refl;
      count = refl;
    }

    pub Same-trans : {s t u : Option (Shared T)} → Same ext s t → Same ext t u → Same ext s u
    Same-trans st tu = record {
      kept = tu.kept;
      queue = tu.queue ∙ st.queue;
      count = tu.count ∙ st.count;
    }

    pub Recorded-Same : {s t : Option (Shared T)} → IsSound ext s → Recorded s t → Same ext s t
    Recorded-Same v unchanged = record { kept = v; queue = refl; count = refl }
    Recorded-Same v (failed s' now msg before) =
        let st = Recorded-Same v before in
        Same-trans st (record_export_failure-Same s' now msg st.kept)
