-- ===== src/Settings/Laws.antt =====
-- The declared settings are sound, and the values that they let through keep what the queue, the
-- worker and the cache rely on.
use Prim.Native.String.{String}
use text.Mathlib.Text.{◌==◌}
use native.Mathlib.Nat.{pow-le-pow_right}
use pg_stat_ch_otel_backend.Base.{
  ℕ, ◌^◌, ◌≤◌, ◌≡◌, refl, sym, subst, ap, Bool, true, false, not, none, dec_lt, List, [], ◌∷◌, leb,
  ◌&&◌, ◌||◌, map, arith,
}
use pg_stat_ch_otel_backend.Base.Int.{pos, pos_part}
use pg_stat_ch_otel_backend.Store.{Key, Store, External}
use pg_stat_ch_otel_backend.Ring.Valid.{IsValid, view}
use pg_stat_ch_otel_backend.Stats.{initialize_shared_state, check_queue_capacity}
use pg_stat_ch_otel_backend.Stats.Laws.{initialize_shared_state-IsValid}
use pg_stat_ch_otel_backend.Stats.Capacity.{check_queue_capacity_lem}
use pg_stat_ch_otel_backend.Settings.{
  Variable, bool, int, string, enum, real, int_max, init_guc, connection_settings, queue_settings,
  otel_settings, capture_settings, arrow_settings, takes_int, accepts_int, run_check,
}

abbrev pub one_of : String → List String → Bool
one_of s [] = false
one_of s (t ∷ ts) = (s == t) || one_of s ts

-- Every boot value is one that is let through.
abbrev pub boot_fits : Variable → Bool
boot_fits (bool b context) = true
boot_fits (string s context) = true
boot_fits (enum s options context) = one_of s options
boot_fits (real boot low high context) = leb low boot && leb boot high
boot_fits (int boot low high check context) =
    leb low boot && leb boot high && leb high int_max && run_check check (pos boot)

abbrev pub all_fit : List (String × Variable) → Bool
all_fit [] = true
all_fit ((name, v) ∷ vs) =
    boot_fits v && not (one_of name (map (λ (e : String × Variable). e.0) vs)) && all_fit vs

-- The names differ, and each boot value is one that its setting lets through.
pub init_guc-fit : all_fit init_guc ≡ true
unfolding init_guc connection_settings queue_settings otel_settings capture_settings arrow_settings
    check_queue_capacity
init_guc-fit = refl

-- The bounds and the check of the capacity.
queue_bounds :
    (v : ℕ)
    → accepts_int "pg_stat_ch.queue_capacity" (pos v) ≡ true
    → (1024 ≤ v) × (v ≤ 4194304) × (check_queue_capacity (pos v) ≡ true)
unfolding accepts_int takes_int init_guc connection_settings queue_settings otel_settings
    capture_settings arrow_settings
queue_bounds v h = ground (arith, h)

small_power : (k : ℕ) → 2 ^ k ≤ 4194304 → k ≤ 31
small_power k h = elim (dec_lt 31 k) [
  | no below ↦ omega (arith, below)
  | yes above ↦
      let above_32 : 32 ≤ k = omega (arith, above) in
      let large : 2 ^ 32 ≤ 2 ^ k = pow-le-pow_right (omega arith) above_32 in
      absurd (omega (arith, large, h))
]

-- Any value that the setting pg_stat_ch.queue_capacity accepts, by its bounds and its check hook,
-- sets up a valid and empty ring, where the area and the table are set up and the table is empty.
pub accepted_capacity-IsValid :
    {T : Type 0} {ext : External T} (st : Store T) (v : ℕ)
    → accepts_int "pg_stat_ch.queue_capacity" (pos v) ≡ true
    → st.dsa_ready ≡ true
    → st.htab_ready ≡ true
    → ((j : Key) → ext.find st.table j ≡ none)
    → IsValid ext (initialize_shared_state st v) × (view (initialize_shared_state st v) ≡ [])
accepted_capacity-IsValid {ext = ext} st v taken area tab empty =
    let (low, high, checked) = queue_bounds v taken in
    let (k, e) = (check_queue_capacity_lem (pos v)).0 checked in
    let power : v ≡ 2 ^ k = ap pos_part e in
    subst
      (λ n. IsValid ext (initialize_shared_state st n) × (view (initialize_shared_state st n) ≡ []))
      (sym power)
      (initialize_shared_state-IsValid {ext = ext} st k (small_power k (omega (arith, power, high)))
        area tab empty)
