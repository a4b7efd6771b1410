-- ===== src/Metrics/Dogstatsd/LostError.antt =====
-- An error of WriteTo of metrics/dogstatsd/dogstatsd.go that is not returned.
use yoroi.Prelude.{
  ℕ, ◌≡◌, refl, sym, ap, ◌∙◌, String, Option, none, some, List, [], ◌∷◌, Bool, true, false, ◌||◌,
  if◌then◌else◌,
}
use yoroi.Metrics.Space.{reset, and_then, walk_nodes}
use yoroi.Metrics.Emit.{Floats, IoWriter, Out, is_some, printed, emit, emit_all, start, Writing}
use yoroi.Metrics.Emit.Walking.{all_series, all_lines, walk_nodes-emit_all}
use yoroi.Metrics.Dogstatsd.{Layout, Dogstatsd}
use yoroi.Metrics.Dogstatsd.Lines.{
  value_lines, write_values, write_counters, write_timings, write_histograms, write_gauges,
  from_timings, from_gauges, write_to,
}

module _ {ℓ} {W : Type ℓ} (io : IoWriter W) where
  and_then_ok :
      (r : Out W × Bool) (k : Out W → Out W × Bool)
      → (and_then r k).1 ≡ true
      → (r.1 ≡ true) × (and_then r k ≡ k r.0)
  and_then_ok (out, true) k h = (refl, refl)
  and_then_ok (out, false) k h = cc

  printed_ok :
      (out : Out W) (r : W × ℕ × Option String)
      → (printed io out r).1 ≡ true
      → ((printed io out r).0.err ≡ none) × ((printed io out r).0.panicked ≡ out.panicked)
  printed_ok out (w', n, none) h = (refl, refl)
  printed_ok out (w', n, some e) h = cc

  emit_ok :
      (l : Option String) (out : Out W)
      → (emit io l out).1 ≡ true
      → ((emit io l out).0.err ≡ none) × ((emit io l out).0.panicked ≡ out.panicked)
  unfolding emit
  emit_ok none out h = cc
  emit_ok (some l) out h = printed_ok out (io.print out.w l) h

  -- Lines that were all written leave no error, whatever error was there before.
  emit_all_ok :
      (l : Option String) (ls : List (Option String)) (out : Out W)
      → (emit_all io (l ∷ ls) out).1 ≡ true
      → ((emit_all io (l ∷ ls) out).0.err ≡ none)
        × ((emit_all io (l ∷ ls) out).0.panicked ≡ out.panicked)
  unfolding emit_all
  emit_all_ok l [] out h =
      let (more, e) = and_then_ok (emit io l out) (emit_all io []) h in
      let ok = emit_ok l out more in (ap (λ r. r.0.err) e ∙ ok.0, ap (λ r. r.0.panicked) e ∙ ok.1)
  emit_all_ok l (l' ∷ ls) out h =
      let (more, e) = and_then_ok (emit io l out) (emit_all io (l' ∷ ls)) h in
      let rest = emit_all_ok l' ls (emit io l out).0 (sym (ap (λ r. r.1) e) ∙ h) in
      (ap (λ r. r.0.err) e ∙ rest.0, ap (λ r. r.0.panicked) e ∙ rest.1 ∙ (emit_ok l out more).1)

module _ {F W : Type 0} (fl : Floats F) (io : IoWriter W) (layout : Layout) (d : Dogstatsd F)
    (w : W) where
  abbrev pub after_counters : Writing (Dogstatsd F) W
  after_counters = write_counters fl io layout (record { d = d; out = start w })

  abbrev pub after_gauges : Writing (Dogstatsd F) W
  after_gauges = write_gauges fl io layout after_counters

  abbrev pub timing_lines : Dogstatsd F → List (Option String)
  timing_lines x =
      all_lines (λ s. value_lines fl layout x.naming "ms" s.name s.lvs s.values)
        (all_series x.timings.nodes)

  -- If writing the gauges fails after the counters were written, but there are timings, all of which are
  -- then written, and no histograms, then WriteTo returns no error.
  pub gauge_error_lost :
      (e : String) (l : Option String) (ls : List (Option String))
      → after_counters.out.err ≡ none
      → after_counters.out.panicked ≡ false
      → after_gauges.out.err ≡ some e
      → after_gauges.out.panicked ≡ false
      → timing_lines after_gauges.d ≡ l ∷ ls
      → (emit_all io (l ∷ ls) after_gauges.out).1 ≡ true
      → after_gauges.d.histograms.nodes ≡ []
      → (write_to fl io layout d w).out.err ≡ none
  unfolding write_to write_timings write_histograms reset walk_nodes
  gauge_error_lost e l ls c p failed p' lines ok no_histograms =
      let x3 = write_timings fl io layout after_gauges in
      let out3 : x3.out ≡ (emit_all io (l ∷ ls) after_gauges.out).0 =
        ap (λ r. r.0)
          (walk_nodes-emit_all io
            (λ s. value_lines fl layout after_gauges.d.naming "ms" s.name s.lvs s.values)
            after_gauges.d.timings.nodes after_gauges.out)
        ∙ ap (λ xs. (emit_all io xs after_gauges.out).0) lines in
      let good = emit_all_ok io l ls after_gauges.out ok in
      ap
        (λ b.
          (if b || is_some after_counters.out.err
            then after_counters
            else from_gauges fl io layout after_counters).out.err)
        p
      ∙ ap
          (λ o.
            (if is_some o then after_counters else from_gauges fl io layout after_counters).out.err)
          c
      ∙ ap (λ b. (if b then after_gauges else from_timings fl io layout after_gauges).out.err) p'
      ∙ ap (λ b. (if b || is_some x3.out.err then x3 else write_histograms fl io layout x3).out.err)
          (ap (λ o. o.panicked) out3 ∙ good.1 ∙ p')
      ∙ ap (λ o. (if is_some o then x3 else write_histograms fl io layout x3).out.err)
          (ap (λ o. o.err) out3 ∙ good.0)
      ∙ ap
          (λ nodes.
            (walk_nodes (write_values fl io layout after_gauges.d.naming "h") nodes x3.out).0.err)
          no_histograms
      ∙ ap (λ o. o.err) out3
      ∙ good.0
