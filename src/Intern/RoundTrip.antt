-- ===== src/Intern/RoundTrip.antt =====
-- A text that is acquired and then resolved and released comes back, and the interner is as before.
use pg_stat_ch_otel_backend.Base.{
  ℕ, ◌+◌, ◌-◌, ◌^◌, ◌≤◌, ◌<◌, ◌≡◌, ◌≢◌, refl, sym, subst, ap, ◌∙◌, true, none, List, [], ◌∷◌, ◌++◌,
  min, take, length, ◌==◌, if◌then◌else◌, arith, ℕ_discrete,
}
use pg_stat_ch_otel_backend.Store.{Store, External}
use pg_stat_ch_otel_backend.Intern.{acquire, make_key, release, resolve_into, resolve_and_release}
use pg_stat_ch_otel_backend.Intern.Sound.{IsSound}
use pg_stat_ch_otel_backend.Intern.Acquire.{acquire-Acquired, acquire-ready}
use pg_stat_ch_otel_backend.Intern.Release.{
  release-Released, release_invalid, resolve_into-Holds, resolve_into_invalid,
}

module _ {T : Type 0} {ext : External T} {s : Store T} {refs : ℕ → ℕ}
    (sound : IsSound ext s refs) where
  -- In a process whose area and table are there, where the interner is sound for the references
  -- held and each count is below 2^32 - 1, with a query of at least query_len bytes and a buffer
  -- of at least one: PschQueryInternResolveAndRelease on what PschQueryInternAcquire returned,
  -- with nobody in between, gives the first query_len bytes of the query, or as many as fit in
  -- front of the NUL, with the NUL and their number, and the empty text where nothing was
  -- acquired; the interner is then sound for the same references as before, and the chunks these
  -- refer to are as they were.
  pub resolve_and_release-acquire :
      (dbid queryid : ℕ) (query : List ℕ) (len dst_size : ℕ)
      → len ≤ length query
      → ((q : ℕ) → refs q + 1 < 2 ^ 32)
      → s.htab_ready ≡ true
      → s.dsa_ready ≡ true
      → 0 < dst_size
      → let (p, s1) = acquire ext (λ o. o) s dbid queryid query len in
        let (dst, out_len, s2) = resolve_and_release ext s1 p dst_size in
        (out_len ≡ (if p == 0 then 0 else min len (dst_size - 1)))
        × (dst ≡ take out_len query ++ 0 ∷ [])
        × IsSound ext s2 refs
        × ((q : ℕ) → 0 < refs q → s.heap q ≢ none → s2.heap q ≡ s.heap q)
  unfolding resolve_and_release make_key
  resolve_and_release-acquire dbid queryid query len dst_size fits small tab area room =
      let a = acquire-Acquired sound dbid queryid query len fits small in
      let (kept_area, kept_tab) = acquire-ready ext s dbid queryid query len in
      let p = (acquire ext (λ o. o) s dbid queryid query len).0 in
      let s1 = (acquire ext (λ o. o) s dbid queryid query len).1 in
      elim (ℕ_discrete p 0) [
        | yes z ↦
            let r : resolve_into s1 p dst_size ≡ (0 ∷ [], 0) =
              ap (λ k. resolve_into s1 k dst_size) z ∙ resolve_into_invalid s1 dst_size in
            let same : release ext s1 p ≡ s1 =
              ap (release ext s1) z ∙ release_invalid ext s1 0 refl in
            rw (r, same)
              (
                ground (arith, z),
                refl,
                a.sound refs (λ q. ground (arith, z)),
                λ q used there. a.frame q there,
              )
        | no valid ↦
            let more : ℕ → ℕ = λ q. (if p == q then 1 else 0) + refs q in
            let sound1 = a.sound more (λ q. ground (arith, valid)) in
            let text =
              resolve_into-Holds s1 p query len dst_size valid (kept_area ∙ area) (a.holds valid)
                room in
            let done =
              release-Released sound1 refs p (λ q. refl) (ground (arith, small p)) (kept_tab ∙ tab)
                (kept_area ∙ area) in
            rw text (
              ground (arith, valid),
              refl,
              done.sound,
              λ q used there.
                  elim (ℕ_discrete p q) [
                    | yes same ↦
                        subst (λ k. (release ext s1 p).heap k ≡ s1.heap k) same
                          (done.kept (subst (λ k. 0 < refs k) (sym same) used))
                    | no other ↦ done.others q (λ e. other (sym e))
                  ]
                  ∙ a.frame q there,
            )
      ]
