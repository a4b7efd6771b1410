-- ===== src/Metrics/Graphite/Lost.antt =====
-- What a failing write of metrics/graphite/graphite.go loses.
use yoroi.Prelude.{
  ℕ, ◌+◌, ◌≡◌, refl, sym, ap, subst, String, Option, none, some, [], ◌∷◌, ◌++◌, Bool, true, false,
  Assoc,
}
use yoroi.Metrics.Emit.{Floats, IoWriter, Out, printed, emit, start}
use yoroi.Metrics.Emit.Feeding.{feed}
use yoroi.Metrics.Graphite.{
  Graphite, Quantile, text_of, gauge_lines, write_counters, go_on, after_counters, write_to,
}

module _ {ℓ} {F : Type ℓ} (fl : Floats F) where
  abbrev pub all_reset : Assoc F → Assoc F
  all_reset [] = []
  all_reset ((name, value) ∷ rest) = (name, fl.zero) ∷ all_reset rest

module _ {ℓ} {F W : Type ℓ} (fl : Floats F) (io : IoWriter W) (now : String) where
  -- The loop over the counters wrote them all and reset them; or writing one failed, those before it
  -- were written, they and it are reset, and those after it are as they were.
  pub data IsEnded (counters : Assoc F) (w : W) (out : Out W) (more : Bool) (counters' : Assoc F)
      : Type ℓ where
    all_written :
        more ≡ true
        → out.w ≡ feed io (gauge_lines fl now counters) w
        → counters' ≡ all_reset fl counters
        → IsEnded counters w out more counters'
    stopped_at :
        (before after : Assoc F) (name : String) (value : F) (n : ℕ) (err : String)
        → counters ≡ before ++ (name, value) ∷ after
        → io.print (feed io (gauge_lines fl now before) w) (text_of fl now name value)
          ≡ (out.w, n, some err)
        → out.err ≡ some err
        → more ≡ false
        → counters' ≡ all_reset fl before ++ (name, fl.zero) ∷ after
        → IsEnded counters w out more counters'

  -- One counter more, which was written, in front.
  cons-IsEnded :
      (name : String) (value : F) (rest : Assoc F) (w : W) (out : Out W) (more : Bool)
      (rest' : Assoc F)
      → IsEnded rest (io.print w (text_of fl now name value)).0 out more rest'
      → IsEnded ((name, value) ∷ rest) w out more ((name, fl.zero) ∷ rest')
  cons-IsEnded name value rest w out more rest' (all_written m fed r) =
      all_written m fed (ap (λ xs. (name, fl.zero) ∷ xs) r)
  cons-IsEnded name value rest w out more rest'
        (stopped_at before after name' value' n err split printed e m r) =
      stopped_at ((name, value) ∷ before) after name' value' n err
        (ap (λ xs. (name, value) ∷ xs) split) printed e m (ap (λ xs. (name, fl.zero) ∷ xs) r)

  go_on-IsEnded :
      (name : String) (value : F) (rest : Assoc F) (out : Out W) (p : W × ℕ × Option String)
      → io.print out.w (text_of fl now name value) ≡ p
      → ((out' : Out W)
          → (let x = write_counters fl io now rest out' in IsEnded rest out'.w x.0.0 x.0.1 x.1))
      → let x = go_on fl io now name rest (write_counters fl io now rest) (printed io out p) in
        IsEnded ((name, value) ∷ rest) out.w x.0.0 x.0.1 x.1
  go_on-IsEnded name value rest out (w', n, none) e h =
      let out' = record out { w = w'; count = out.count + n; err = none } in
      let x = write_counters fl io now rest out' in
      cons-IsEnded name value rest out.w x.0.0 x.0.1 x.1
        (subst (λ w. IsEnded rest w x.0.0 x.0.1 x.1) (sym (ap (λ p. p.0) e)) (h out'))
  go_on-IsEnded name value rest out (w', n, some err) e h =
      stopped_at [] rest name value n err refl e refl refl refl

  write_counters-IsEnded :
      (counters : Assoc F) (out : Out W)
      → let x = write_counters fl io now counters out in IsEnded counters out.w x.0.0 x.0.1 x.1
  unfolding write_counters emit
  write_counters-IsEnded [] out = all_written refl refl refl
  write_counters-IsEnded ((name, value) ∷ rest) out =
      go_on-IsEnded name value rest out (io.print out.w (text_of fl now name value)) refl
        (write_counters-IsEnded rest)

module _ {ℓ} {F H W : Type ℓ} (fl : Floats F) (io : IoWriter W) (now : String)
    (quantile : H → Quantile → F) where
  -- WriteTo gets through the loop over the counters, having written all in their order and reset them,
  -- and goes on with the gauges; or writing a counter fails, and WriteTo returns that error and writes
  -- nothing more: the counters before it were written and reset, it is reset all the same, so that its
  -- value is lost, and those after it keep their values.
  pub write_to-IsEnded :
      (g : Graphite F H) (w : W)
      → let x = write_to fl io now quantile g w in
        (out : Out W) × (more : Bool) × IsEnded fl io now g.counters w out more x.d.counters
        × (x.out ≡ after_counters fl io now quantile g (out, more))
  unfolding write_to
  write_to-IsEnded g w =
      let x = write_counters fl io now g.counters (start w) in
      (x.0.0, x.0.1, write_counters-IsEnded fl io now g.counters (start w), refl)
