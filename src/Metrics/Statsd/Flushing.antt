-- ===== src/Metrics/Statsd/Flushing.antt =====
-- What WriteTo of metrics/statsd/statsd.go writes, and what a gauge forgets.
use yoroi.Prelude.{
  lookup, ◌≡◌, refl, sym, ap, subst, ◌∙◌, String, str_eq, eq_iff, Option, none, some, List, [], ◌∷◌,
  ◌++◌, true, false, ◌&&◌, if◌then◌else◌, arith, Assoc,
}
use yoroi.Metrics.Space.{Node, new_space, reset, walk_nodes}
use yoroi.Metrics.Space.Series.{contents, contents-add_in, series}
use yoroi.Metrics.Emit.{Floats, IoWriter, Out, emit_all, start, Writing}
use yoroi.Metrics.Emit.Walking.{Series, all_series, all_lines, walk_nodes-emit_all}
use yoroi.Metrics.Emit.Feeding.{
  IsMadeOf, feed, IsCalm, IsFed, IsFed-append, emit_all_good, unless_failed_calm,
}
use yoroi.Metrics.Dogstatsd.Made.{IsFull, all_series-IsMadeOf, all_full_series-IsMadeOf}
use yoroi.Metrics.Statsd.{
  Statsd, with_space, add_to_gauge, counter_line, gauge_line, timing_lines, write_counters,
  write_gauges, write_timings, from_gauges, write_to,
}

str_eq_same : (name : String) → str_eq name name ≡ true
str_eq_same name = ground (arith, eq_iff name name)

module _ {ℓ} {F : Type ℓ} (fl : Floats F) (rates : Assoc F) where
  gauge_line-IsMadeOf :
      (name : String) (values : List F)
      → IsFull values
      → IsMadeOf (gauge_line fl rates name values ∷ [])
  gauge_line-IsMadeOf name [] h = absurd h
  gauge_line-IsMadeOf name (x ∷ []) h = tt
  gauge_line-IsMadeOf name (x ∷ y ∷ values) h = gauge_line-IsMadeOf name (y ∷ values) tt

  timing_lines-IsMadeOf :
      (name : String) (values : List F) → IsMadeOf (timing_lines fl rates name values)
  timing_lines-IsMadeOf name [] = tt
  timing_lines-IsMadeOf name (x ∷ values) = timing_lines-IsMadeOf name values

module _ {F : Type 0} (fl : Floats F) (s : Statsd F) where
  abbrev pub counters_written : List (Option String)
  counters_written =
      all_lines (λ x. counter_line fl s.rates x.name x.values ∷ []) (all_series s.counters.nodes)

  abbrev pub gauges_written : List (Option String)
  gauges_written =
      all_lines (λ x. gauge_line fl s.rates x.name x.values ∷ []) (all_series s.gauges.nodes)

  abbrev pub timings_written : List (Option String)
  timings_written =
      all_lines (λ x. timing_lines fl s.rates x.name x.values) (all_series s.timings.nodes)

module _ {F W : Type 0} (io : IoWriter W)
    (good : (w : W) (l : String) → (io.print w l).2 ≡ none) where
  -- A walk that writes the lines it is given.
  walked :
      (lines : Series F → List (Option String)) (nodes : Assoc (Node F)) (out : Out W)
      → IsMadeOf (all_lines lines (all_series nodes))
      → IsCalm io out
      → IsFed io
          (all_lines lines (all_series nodes))
          out
          (walk_nodes
            (λ name lvs values.
              emit_all io (lines (record { name = name; lvs = lvs; values = values })))
            nodes
            out).0
  walked lines nodes out made calm =
      subst (λ r. IsFed io (all_lines lines (all_series nodes)) out r.0)
        (sym (walk_nodes-emit_all io lines nodes out))
        (emit_all_good io good (all_lines lines (all_series nodes)) out made calm).1

module _ {F W : Type 0} (fl : Floats F) (io : IoWriter W) (s : Statsd F)
    (good : (w : W) (l : String) → (io.print w l).2 ≡ none) where
  -- If the writer does not fail, WriteTo returns no error and does not panic; it has written a line with
  -- the sum for each counter, one with the last value for each gauge, and one for each observation of a
  -- timing; and it leaves no observation.
  pub statsd_write_to :
      (w : W)
      → let x = write_to fl io s w in
        (x.out.err ≡ none)
        × (x.out.panicked ≡ false)
        × (x.out.w
            ≡ feed io (counters_written fl s ++ (gauges_written fl s ++ timings_written fl s)) w)
        × (x.d ≡ record s { counters = new_space; gauges = new_space; timings = new_space })
  unfolding write_to write_counters write_gauges write_timings reset
  statsd_write_to w =
      let x1 = write_counters fl io (record { d = s; out = start w }) in
      let fed1 =
        walked io good (λ x. counter_line fl s.rates x.name x.values ∷ []) s.counters.nodes
          (start w)
          (all_series-IsMadeOf (λ x. counter_line fl s.rates x.name x.values ∷ []) (λ x h. tt)
            s.counters.nodes)
          (record { err = refl; panicked = refl }) in
      let x2 = write_gauges fl io x1 in
      let fed2 =
        walked io good (λ x. gauge_line fl s.rates x.name x.values ∷ []) s.gauges.nodes x1.out
          (all_full_series-IsMadeOf (λ x. gauge_line fl s.rates x.name x.values ∷ [])
            (λ x h full. gauge_line-IsMadeOf fl s.rates x.name x.values full) s.gauges.nodes)
          fed1.calm in
      let x3 = write_timings fl io x2 in
      let fed3 =
        walked io good (λ x. timing_lines fl s.rates x.name x.values) s.timings.nodes x2.out
          (all_series-IsMadeOf (λ x. timing_lines fl s.rates x.name x.values)
            (λ x h. timing_lines-IsMadeOf fl s.rates x.name x.values) s.timings.nodes)
          fed2.calm in
      let e : write_to fl io s w ≡ x3 =
        unless_failed_calm io (from_gauges fl io) x1 fed1.calm
        ∙ unless_failed_calm io (write_timings fl io) x2 fed2.calm in
      let fed = IsFed-append io _ _ _ _ _ fed1 (IsFed-append io _ _ _ _ _ fed2 fed3) in
      (
        ap (λ (x : Writing (Statsd F) W). x.out.err) e ∙ fed.calm.err,
        ap (λ (x : Writing (Statsd F) W). x.out.panicked) e ∙ fed.calm.panicked,
        ap (λ (x : Writing (Statsd F) W). x.out.w) e ∙ fed.w,
        ap (λ (x : Writing (Statsd F) W). x.d) e,
      )

  -- After a WriteTo on a writer that does not fail, Gauge.Add forgets the value the gauge had: the
  -- gauge then has the given difference as its only value.
  pub gauge_forgotten :
      (w : W) (plus : F → F → F) (name : String) (delta : F)
      → (s' : Statsd F) × (add_to_gauge plus (write_to fl io s w).d name delta ≡ some s')
        × (contents s'.gauges name [] ≡ delta ∷ [])
  unfolding add_to_gauge series new_space lookup
  gauge_forgotten w plus name delta =
      let (_, _, _, e) = statsd_write_to w in
      let flushed : Statsd F = record s {
        counters = new_space;
        gauges = new_space;
        timings = new_space;
      } in
      let (gauges', added, k) = contents-add_in plus new_space name [] delta tt in
      (
        record flushed { gauges = gauges' },
        ap (λ x. add_to_gauge plus x name delta) e
            ∙ ap (with_space (λ x. record flushed { gauges = x })) added,
        k name [] ∙ ap (λ b. if b && true then delta ∷ [] else []) (str_eq_same name),
      )
