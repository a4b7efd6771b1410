-- ===== src/Metrics/Dogstatsd/Writing.antt =====
-- What WriteTo of metrics/dogstatsd/dogstatsd.go writes, and what it leaves.
use yoroi.Prelude.{◌≡◌, refl, ap, ◌∙◌, String, Option, none, List, [], ◌∷◌, ◌++◌, false, Assoc}
use yoroi.Metrics.Space.{Node, new_space, reset, walk_nodes}
use yoroi.Metrics.Space.Series.{IsPaired}
use yoroi.Metrics.Emit.{Floats, IoWriter, Out, start, Writing, unless_panicked}
use yoroi.Metrics.Emit.Walking.{all_series, all_lines}
use yoroi.Metrics.Dogstatsd.{Layout, Gauge, Dogstatsd}
use yoroi.Metrics.Dogstatsd.Lines.{
  counter_line, value_lines, write_values, write_counters, write_timings, write_histograms,
  write_gauges, from_timings, from_gauges, write_to,
}
use yoroi.Metrics.Emit.Feeding.{
  feed, IsCalm, IsFed, IsFed-append, unless_failed_calm, unless_panicked_calm,
}
use yoroi.Metrics.Dogstatsd.Made.{line-IsMadeOf, value_lines-IsMadeOf}
use yoroi.Metrics.Dogstatsd.Passes.{
  all_gauges, after_gauges, IsPairedAll, gauge_lines, walk_good, roots_good,
}

module _ {F : Type 0} (fl : Floats F) (layout : Layout) (d : Dogstatsd F) where
  -- All lines that WriteTo writes.
  abbrev pub all_written : List (Option String)
  all_written =
      all_lines (λ x. counter_line fl layout d.naming x.name x.lvs x.values ∷ [])
        (all_series d.counters.nodes)
      ++ (gauge_lines fl layout d.naming (all_gauges d.gauges) d.objects
          ++ (all_lines (λ x. value_lines fl layout d.naming "ms" x.name x.lvs x.values)
                (all_series d.timings.nodes)
              ++ all_lines (λ x. value_lines fl layout d.naming "h" x.name x.lvs x.values)
                  (all_series d.histograms.nodes)))

  -- What WriteTo leaves.
  abbrev pub flushed : Dogstatsd F
  flushed = record d {
    counters = new_space;
    timings = new_space;
    histograms = new_space;
    objects = after_gauges (all_gauges d.gauges) d.objects;
  }

module _ {F W : Type 0} (fl : Floats F) (io : IoWriter W) (layout : Layout) (d : Dogstatsd F)
    (good : (w : W) (l : String) → (io.print w l).2 ≡ none) (own : IsPaired d.naming.lvs) where
  abbrev x1 : W → Writing (Dogstatsd F) W
  x1 w = write_counters fl io layout (record { d = d; out = start w })

  counters_good :
      (w : W)
      → IsFed io
          (all_lines
            (λ x. counter_line fl layout d.naming x.name x.lvs x.values ∷ [])
            (all_series d.counters.nodes))
          (start w)
          (x1 w).out
  unfolding write_counters reset
  counters_good w =
      walk_good fl io layout d.naming good own
        (λ x. counter_line fl layout d.naming x.name x.lvs x.values ∷ []) d.counters.nodes (start w)
        (λ x h. line-IsMadeOf layout d.naming own x.name x.lvs _ "c" _ [] h tt)
        (record { err = refl; panicked = refl })

  values_good :
      (kind : String) (nodes : Assoc (Node F)) (out : Out W)
      → IsCalm io out
      → IsFed io
          (all_lines
            (λ x. value_lines fl layout d.naming kind x.name x.lvs x.values)
            (all_series nodes))
          out
          (walk_nodes (write_values fl io layout d.naming kind) nodes out).0
  values_good kind nodes out c =
      walk_good fl io layout d.naming good own
        (λ x. value_lines fl layout d.naming kind x.name x.lvs x.values) nodes out
        (λ x h. value_lines-IsMadeOf layout d.naming own fl kind x.name x.lvs x.values h) c

  -- If the writer does not fail and all label values come in pairs, WriteTo returns no error and does
  -- not panic; it has written a line with the sum for each counter, a line for each gauge that was
  -- set, and a line for each observation of the timings and histograms; and it leaves no observation
  -- and no gauge that it wrote as set.
  pub write_to_all :
      (w : W)
      → IsPairedAll d.objects
      → let x = write_to fl io layout d w in
        (x.out.err ≡ none)
        × (x.out.panicked ≡ false)
        × (x.out.w ≡ feed io (all_written fl layout d) w)
        × (x.d ≡ flushed fl layout d)
  unfolding write_to write_counters write_gauges write_timings write_histograms reset
  write_to_all w paired =
      let fed1 = counters_good w in
      let (out2, e2, fed2) =
        roots_good fl io layout d.naming good own d.gauges (x1 w).out d.objects paired fed1.calm in
      let x2 : Writing (Dogstatsd F) W = record {
        d = record d {
          counters = new_space;
          objects = after_gauges (all_gauges d.gauges) d.objects;
        };
        out = out2;
      } in
      let x3 = write_timings fl io layout x2 in
      let fed3 = values_good "ms" d.timings.nodes out2 fed2.calm in
      let x4 = write_histograms fl io layout x3 in
      let fed4 = values_good "h" d.histograms.nodes x3.out fed3.calm in
      let e : write_to fl io layout d w ≡ x4 =
        unless_failed_calm io (from_gauges fl io layout) (x1 w) fed1.calm
        ∙ ap
            (λ (r : Out W × List (Gauge F)).
              unless_panicked (from_timings fl io layout)
                (record { d = record d { counters = new_space; objects = r.1 }; out = r.0 }))
            e2
        ∙ unless_panicked_calm io (from_timings fl io layout) x2 fed2.calm
        ∙ unless_failed_calm io (write_histograms fl io layout) x3 fed3.calm in
      let fed =
        IsFed-append io _ _ _ _ _ fed1
          (IsFed-append io _ _ _ _ _ fed2 (IsFed-append io _ _ _ _ _ fed3 fed4)) in
      (
        ap (λ (x : Writing (Dogstatsd F) W). x.out.err) e ∙ fed.calm.err,
        ap (λ (x : Writing (Dogstatsd F) W). x.out.panicked) e ∙ fed.calm.panicked,
        ap (λ (x : Writing (Dogstatsd F) W). x.out.w) e ∙ fed.w,
        ap (λ (x : Writing (Dogstatsd F) W). x.d) e,
      )
