-- ===== src/Dsa/Attach.antt =====
-- src/queue/psch_dsa.c: PschDsaAttach, PschDsaGetArea and PschDsaDetachOnExit in one process, with
-- the count of references that the area itself keeps.
use pg_stat_ch_otel_backend.Base.{
  ℕ, ◌+◌, ◌-◌, ◌≡◌, refl, Bool, true, false, not, List, [], ◌∷◌, ◌||◌, ◌&&◌, ◌==◌, Bool-cases, inl,
  inr, if◌then◌else◌, arith,
}

-- `shared` and `raw` say whether psch_shared_state and its raw_dsa_area are not NULL, `handle`
-- whether psch_dsa is not NULL, `hook` is psch_dsa_exit_hook_registered, and `hooks` counts the
-- callbacks that on_shmem_exit has on its list for PschDsaDetachOnExit.
pub record Process : Type 0 where
  pub shared : Bool
  pub raw : Bool
  pub handle : Bool
  pub hook : Bool
  pub hooks : ℕ
  pub area_refs : ℕ

unfoldable pub attach : Process → Process
attach p =
    if p.handle
    then p
    else if not p.shared || not p.raw
    then p
    else if p.hook
    then record p { handle = true; area_refs = p.area_refs + 1 }
    else record p { handle = true; area_refs = p.area_refs + 1; hook = true; hooks = p.hooks + 1 }

-- The result says whether the handle that is returned is not NULL.
unfoldable pub get_area : Process → Bool × Process
unfolding attach
get_area p = if p.handle then (true, p) else (let q = attach p in (q.handle, q))

-- The callback, as on_shmem_exit runs it: taken off the list first.
unfoldable pub detach_on_exit : Process → Process
detach_on_exit p = record p {
  handle = false;
  area_refs = if p.shared && p.raw then p.area_refs - 1 else p.area_refs;
  hook = false;
  hooks = p.hooks - 1;
}

-- What happens in one process: a call of PschDsaGetArea, or the callbacks on the list are run.
pub data Call : Type 0 where
  get : Call
  exit : Call

unfoldable pub run : Process → List Call → Process
run p [] = p
run p (get ∷ calls) = run (get_area p).1 calls
run p (exit ∷ calls) = run (if p.hooks == 0 then p else detach_on_exit p) calls

-- The area is set up, and the process holds one reference and one callback if it is attached, and
-- none if it is not, beyond the `n` references of the others.
pub record IsBalanced (n : ℕ) (p : Process) : Type 0 where
  pub ready : (p.shared ≡ true) × (p.raw ≡ true)
  pub hooked : p.hook ≡ p.handle
  pub one_hook : p.hooks ≡ (if p.handle then 1 else 0)
  pub one_ref : p.area_refs ≡ n + (if p.handle then 1 else 0)

get_area-IsBalanced :
    (n : ℕ) (p : Process)
    → IsBalanced n p
    → IsBalanced n (get_area p).1 × ((get_area p).0 ≡ true) × ((get_area p).1.handle ≡ true)
unfolding get_area attach
get_area-IsBalanced n p b = (
  record {
    ready = (ground (arith, b.ready), ground (arith, b.ready));
    hooked = ground (arith, b.ready, b.hooked);
    one_hook = ground (arith, b.ready, b.hooked, b.one_hook);
    one_ref = ground (arith, b.ready, b.hooked, b.one_ref);
  },
  ground (arith, b.ready),
  ground (arith, b.ready),
)

-- The callback is on the list only while the process is attached.
detach_on_exit-IsBalanced :
    (n : ℕ) (p : Process) → p.handle ≡ true → IsBalanced n p → IsBalanced n (detach_on_exit p)
unfolding detach_on_exit
detach_on_exit-IsBalanced n p on b = record {
  ready = b.ready;
  hooked = refl;
  one_hook = ground (arith, b.one_hook);
  one_ref = ground (arith, b.one_ref, b.ready);
}

exit-IsBalanced :
    (n : ℕ) (p : Process)
    → IsBalanced n p
    → IsBalanced n (if p.hooks == 0 then p else detach_on_exit p)
exit-IsBalanced n p b = elim (Bool-cases (p.hooks == 0)) [
  | inl e ↦ rw e b
  | inr e ↦ rw e (detach_on_exit-IsBalanced n p (ground (arith, e, b.one_hook)) b)
]

-- A process that starts balanced, with the area set up, stays balanced through any sequence of
-- PschDsaGetArea calls and exit callbacks: it holds one reference to the area and one registered
-- callback while its handle is set, and neither while it is not.
pub run-IsBalanced :
    (n : ℕ) (p : Process) (calls : List Call) → IsBalanced n p → IsBalanced n (run p calls)
unfolding run
run-IsBalanced n p [] b = b
run-IsBalanced n p (get ∷ calls) b =
    run-IsBalanced n (get_area p).1 calls (get_area-IsBalanced n p b).0
run-IsBalanced n p (exit ∷ calls) b =
    run-IsBalanced n (if p.hooks == 0 then p else detach_on_exit p) calls (exit-IsBalanced n p b)
