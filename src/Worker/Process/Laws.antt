-- ===== src/Worker/Process/Laws.antt =====
-- The stored process id is the worker's own for as long as it runs.
use pg_stat_ch_otel_backend.Base.{
  ℕ, Bool, true, ◌%◌, ◌^◌, ◌<◌, ◌≡◌, ◌≢◌, refl, ap, ◌∙◌, some, ◌==◌, arith, Bool-cases, inl, inr,
}
use pg_stat_ch_otel_backend.Ring.{Shared}
use pg_stat_ch_otel_backend.Stats.{get_bgworker_pid, set_bgworker_pid}
use pg_stat_ch_otel_backend.Worker.{clear_stale}
use pg_stat_ch_otel_backend.Worker.Process.{
  Life, gone, starting, running, leaving, Request, quiet, asking, missing, Scene, process_id, set,
  Step, launch, publish, shutdown, torn_down, crash, ask, answered, no_process, clear, other, Steps,
  done, after,
}

-- What is stored while the process is there: its id once it is stored, 0 while it leaves.
pub record IsCoherent {T : Type 0} (scene : Scene T) : Type 0 where
  pub own : (pid : ℕ) → scene.life ≡ running pid → get_bgworker_pid (some scene.shared) ≡ pid
  pub cleared : (pid : ℕ) → scene.life ≡ leaving pid → get_bgworker_pid (some scene.shared) ≡ 0
  pub word : get_bgworker_pid (some scene.shared) < 2 ^ 32
  pub asked : (b pid : ℕ) → scene.backends b ≡ asking pid → pid < 2 ^ 32
  pub answer : (b pid : ℕ) → scene.backends b ≡ missing pid → pid < 2 ^ 32
  pub dead : (b pid : ℕ) → scene.backends b ≡ missing pid → process_id scene.life ≢ some pid
  pub narrow : (pid : ℕ) → process_id scene.life ≡ some pid → pid < 2 ^ 32

-- The stored id is the process's own while it runs its loop, and 0 while it leaves.
abbrev pub own_id : Life → ℕ → Bool
own_id gone stored = true
own_id (starting pid) stored = true
own_id (running pid) stored = stored == pid
own_id (leaving pid) stored = stored == 0

module _ {T : Type 0} where
  stored :
      (s s' : Shared T) (pid : ℕ)
      → set_bgworker_pid pid (some s) ≡ some s'
      → get_bgworker_pid (some s') ≡ pid % 2 ^ 32
  unfolding set_bgworker_pid get_bgworker_pid
  stored s s' pid e = ground (arith, e)

  -- A change of the requests that makes no new process id missing.
  with_backends :
      (life : Life) (s : Shared T) (bs cs : ℕ → Request)
      → IsCoherent (record { life = life; shared = s; backends = bs })
      → ((b pid : ℕ) → cs b ≡ asking pid → pid < 2 ^ 32)
      → ((b pid : ℕ) → cs b ≡ missing pid → (pid < 2 ^ 32) × (process_id life ≢ some pid))
      → IsCoherent (record { life = life; shared = s; backends = cs })
  with_backends life s bs cs h asked still = record {
    own = h.own;
    cleared = h.cleared;
    word = h.word;
    asked = asked;
    answer = λ b pid e. (still b pid e).0;
    dead = λ b pid e. (still b pid e).1;
    narrow = h.narrow;
  }

  step-IsCoherent : (a b : Scene T) → Step a b → IsCoherent a → IsCoherent b
  unfolding clear_stale get_bgworker_pid
  step-IsCoherent _ _ (launch s bs pid small fresh) h = record {
    own = λ q e. absurd (ground (arith, e));
    cleared = λ q e. absurd (ground (arith, e));
    word = h.word;
    asked = h.asked;
    answer = h.answer;
    dead = λ b q e same. fresh b (ground (arith, e, same));
    narrow = λ q e. ground (arith, e, small);
  }
  step-IsCoherent _ _ (publish s s' bs pid e) h = record {
    own = λ q same. ground (arith, stored s s' pid e, same, h.narrow pid refl);
    cleared = λ q same. absurd (ground (arith, same));
    word = omega (arith, stored s s' pid e);
    asked = h.asked;
    answer = h.answer;
    dead = h.dead;
    narrow = h.narrow;
  }
  step-IsCoherent _ _ (shutdown life s s' bs pid there e) h = record {
    own = λ q same. absurd (ground (arith, same));
    cleared = λ q same. ground (arith, stored s s' 0 e);
    word = omega (arith, stored s s' 0 e);
    asked = h.asked;
    answer = h.answer;
    dead = λ b q found same. h.dead b q found (ground (arith, there, same));
    narrow = λ q same. h.narrow q (ground (arith, there, same));
  }
  step-IsCoherent _ _ (torn_down s bs pid) h = record {
    own = λ q e. absurd (ground (arith, e));
    cleared = λ q e. absurd (ground (arith, e));
    word = h.word;
    asked = h.asked;
    answer = h.answer;
    dead = λ b q found same. absurd (ground (arith, same));
    narrow = λ q e. absurd (ground (arith, e));
  }
  step-IsCoherent _ _ (crash life s bs) h = record {
    own = λ q e. absurd (ground (arith, e));
    cleared = λ q e. absurd (ground (arith, e));
    word = h.word;
    asked = h.asked;
    answer = h.answer;
    dead = λ b q found same. absurd (ground (arith, same));
    narrow = λ q e. absurd (ground (arith, e));
  }
  step-IsCoherent _ _ (ask life s bs b free some_pid) h =
      with_backends life s bs (set bs b (asking (get_bgworker_pid (some s)))) h
        (λ c q found. elim (Bool-cases (c == b)) [
          | inl this ↦ ground (arith, found, this, h.word)
          | inr that ↦ h.asked c q (ground (arith, found, that))
        ])
        (λ c q found. (h.answer c q (ground (arith, found)), h.dead c q (ground (arith, found))))
  step-IsCoherent _ _ (answered life s bs b pid e) h =
      with_backends life s bs (set bs b quiet) h (λ c q found. h.asked c q (ground (arith, found)))
        (λ c q found. (h.answer c q (ground (arith, found)), h.dead c q (ground (arith, found))))
  step-IsCoherent _ _ (no_process life s bs b pid e away) h =
      with_backends life s bs (set bs b (missing pid)) h
        (λ c q found. h.asked c q (ground (arith, found)))
        (λ c q found. elim (Bool-cases (c == b)) [
          | inl this ↦
              let same : q ≡ pid = ground (arith, found, this) in
              (omega (arith, same, h.asked b pid e), λ there. away (there ∙ ap (λ i. some i) same))
          | inr that ↦
              (h.answer c q (ground (arith, found, that)), h.dead c q (ground (arith, found, that)))
        ])
  step-IsCoherent _ _ (clear life s bs b pid e) h = record {
    own = λ q same. ground (
      arith,
      h.own q same,
      h.answer b pid e,
      λ (i : q ≡ pid). h.dead b pid e (ap process_id same ∙ ap (λ k. some k) i),
    );
    cleared = λ q same. ground (arith, h.cleared q same);
    word = ground (arith, h.word);
    asked = λ c q found. h.asked c q (ground (arith, found));
    answer = λ c q found. h.answer c q (ground (arith, found));
    dead = λ c q found. h.dead c q (ground (arith, found));
    narrow = h.narrow;
  }
  step-IsCoherent _ _ (other life s s' bs same) h = record {
    own = λ q e. ground (arith, same, h.own q e);
    cleared = λ q e. ground (arith, same, h.cleared q e);
    word = omega (arith, same, h.word);
    asked = h.asked;
    answer = h.answer;
    dead = h.dead;
    narrow = h.narrow;
  }

  Steps-IsCoherent : (a b : Scene T) → Steps a b → IsCoherent a → IsCoherent b
  Steps-IsCoherent a _ (done _) h = h
  Steps-IsCoherent a c (after _ b _ step rest) h =
      Steps-IsCoherent b c rest (step-IsCoherent a b step h)

  own_id_lem :
      (life : Life) (s : Shared T) (bs : ℕ → Request)
      → IsCoherent (record { life = life; shared = s; backends = bs })
      → own_id life (get_bgworker_pid (some s)) ≡ true
  own_id_lem gone s bs h = refl
  own_id_lem (starting pid) s bs h = refl
  own_id_lem (running pid) s bs h = ground (arith, h.own pid refl)
  own_id_lem (leaving pid) s bs h = ground (arith, h.cleared pid refl)

  -- From a state without a worker and without pending flush requests, whatever process id below
  -- 2^32 a crashed worker has left stored, and after any interleaving of a worker's start, its
  -- exit or its crash, the next worker's, and the separate reads, kills and exchanges of
  -- PschSignalFlush in any number of backends, where no new worker gets an id that a request has
  -- just found dead: while the worker runs its loop, the stored id is its own, and while it tears
  -- its exporter down, the stored id is 0.
  pub Steps-own_id :
      (s : Shared T) (scene : Scene T)
      → get_bgworker_pid (some s) < 2 ^ 32
      → Steps (record { life = gone; shared = s; backends = λ b. quiet }) scene
      → own_id scene.life (get_bgworker_pid (some scene.shared)) ≡ true
  Steps-own_id s scene small steps =
      let start : IsCoherent (record { life = gone; shared = s; backends = λ b. quiet }) = record {
        own = λ q e. absurd (ground (arith, e));
        cleared = λ q e. absurd (ground (arith, e));
        word = small;
        asked = λ b q e. absurd (ground (arith, e));
        answer = λ b q e. absurd (ground (arith, e));
        dead = λ b q e same. absurd (ground (arith, same));
        narrow = λ q e. absurd (ground (arith, e));
      } in
      own_id_lem scene.life scene.shared scene.backends (
        Steps-IsCoherent (record { life = gone; shared = s; backends = λ b. quiet }) scene steps
          start)
