-- ===== src/Tests/Working.antt =====
-- A ring with the process id of its worker, and the theorem at it.
use pg_stat_ch_otel_backend.Base.{ℕ, ◌<◌, ◌^◌, ◌≡◌, refl, true, some, arith}
use pg_stat_ch_otel_backend.Ring.{Shared}
use pg_stat_ch_otel_backend.Stats.{get_bgworker_pid, set_bgworker_pid}
use pg_stat_ch_otel_backend.Worker.{clear_stale, signal_flush, no_such_process}
use pg_stat_ch_otel_backend.Worker.Flush.{signal_flush_lem}
use pg_stat_ch_otel_backend.Worker.Process.{
  Life, gone, starting, running, Request, quiet, asking, missing, Scene, set, launch, publish, ask,
  no_process, clear, Steps, done, after,
}
use pg_stat_ch_otel_backend.Worker.Process.Laws.{own_id, Steps-own_id}
use pg_stat_ch_otel_backend.Tests.{Table, empty_ring, nobody}

-- The ring with the process id of a worker.
abbrev served : Shared Table
served = record empty_ring { bgworker_pid = 77 }

-- While the process id is still there, it is cleared.
signal_flush_lem_example :
    signal_flush no_such_process nobody (some served)
    ≡ (true, some (record served { bgworker_pid = 0 }))
signal_flush_lem_example = signal_flush_lem no_such_process nobody served (omega arith)

-- The second backend asks, finds the process missing, and is done.
abbrev idle : ℕ → Request
idle b = quiet

abbrev asks : ℕ → Request
asks = set idle 1 (asking 77)

abbrev finds : ℕ → Request
finds = set asks 1 (missing 77)

abbrev clears : ℕ → Request
clears = set finds 1 quiet

abbrev at : Life → ℕ → (ℕ → Request) → Scene Table
at life stored bs = record {
  life = life;
  shared = record empty_ring { bgworker_pid = stored };
  backends = bs;
}

-- The id of a crashed worker is stored, a backend finds the process missing, a new worker starts,
-- and the backend leaves the new worker's id.
restarted : Steps (at gone 77 idle) (at (running 78) 78 clears)
unfolding get_bgworker_pid set_bgworker_pid clear_stale
restarted = after _ (at gone 77 asks) _ (ask gone served idle 1 refl (omega arith)) (
    after _ (at gone 77 finds) _
      (no_process gone served asks 1 77 refl (λ e. absurd (ground (arith, e))))
      (after _ (at (starting 78) 77 finds) _
        (launch served finds 78 (omega arith) (λ b e. absurd (ground (arith, e))))
        (after _ (at (running 78) 78 finds) _
          (publish served (record empty_ring { bgworker_pid = 78 }) finds 78 refl)
          (after _ (at (running 78) 78 clears) _
            (clear (running 78) (record empty_ring { bgworker_pid = 78 }) finds 1 77 refl)
            (done _)))))

small : get_bgworker_pid (some served) < 2 ^ 32
unfolding get_bgworker_pid
small = omega arith

Steps-own_id_example :
    own_id (running 78) (get_bgworker_pid (some (record empty_ring { bgworker_pid = 78 }))) ≡ true
Steps-own_id_example = Steps-own_id served (at (running 78) 78 clears) small restarted
