-- ===== src/Metrics/Emit/Feeding.antt =====
-- Lines written to a writer that does not fail.
use yoroi.Prelude.{
  ◌+◌, ◌≡◌, refl, sym, ap, subst, ◌∙◌, String, Option, none, some, List, [], ◌∷◌, ◌++◌, true, false,
  ◌||◌, if◌then◌else◌,
}
use yoroi.Metrics.Space.{and_then}
use yoroi.Metrics.Emit.{
  IoWriter, Out, is_some, printed, emit, emit_all, Writing, unless_failed, unless_panicked,
}

-- All lines can be made.
abbrev pub IsMadeOf : List (Option String) → Type 0
IsMadeOf [] = Unit
IsMadeOf (none ∷ ls) = ⊥
IsMadeOf (some l ∷ ls) = IsMadeOf ls

pub append-IsMadeOf :
    (xs ys : List (Option String)) → IsMadeOf xs → IsMadeOf ys → IsMadeOf (xs ++ ys)
append-IsMadeOf [] ys h k = k
append-IsMadeOf (none ∷ xs) ys h k = absurd h
append-IsMadeOf (some x ∷ xs) ys h k = append-IsMadeOf xs ys h k

module _ {ℓ} {W : Type ℓ} (io : IoWriter W) where
  -- The writer after some lines.
  abbrev pub feed : List (Option String) → W → W
  feed [] w = w
  feed (none ∷ ls) w = feed ls w
  feed (some l ∷ ls) w = feed ls (io.print w l).0

  feed-append : (xs ys : List (Option String)) (w : W) → feed (xs ++ ys) w ≡ feed ys (feed xs w)
  feed-append [] ys w = refl
  feed-append (none ∷ xs) ys w = feed-append xs ys w
  feed-append (some x ∷ xs) ys w = feed-append xs ys (io.print w x).0

  pub record IsCalm (out : Out W) : Type ℓ where
    pub err : out.err ≡ none
    pub panicked : out.panicked ≡ false

  -- The lines were written, and nothing failed.
  pub record IsFed (lines : List (Option String)) (out out' : Out W) : Type ℓ where
    pub w : out'.w ≡ feed lines out.w
    pub calm : IsCalm out'

  pub IsFed-append :
      (xs ys : List (Option String)) (a b c : Out W)
      → IsFed xs a b
      → IsFed ys b c
      → IsFed (xs ++ ys) a c
  IsFed-append xs ys a b c h k = record {
    w = k.w ∙ ap (feed ys) h.w ∙ sym (feed-append xs ys a.w);
    calm = k.calm;
  }

  pub IsFed-none : (a : Out W) → IsCalm a → IsFed [] a a
  IsFed-none a h = record { w = refl; calm = h }

  module _ (good : (w : W) (l : String) → (io.print w l).2 ≡ none) where
    emit_good :
        (l : String) (out : Out W)
        → out.panicked ≡ false
        → (emit io (some l) out ≡ (
          record out {
            w = (io.print out.w l).0;
            count = out.count + (io.print out.w l).1;
            err = none;
          },
          true,
        ))
    unfolding emit
    emit_good l out h =
        ap (λ e. printed io out ((io.print out.w l).0, (io.print out.w l).1, e)) (good out.w l)

    pub emit_made_good :
        (o : Option String) (out : Out W)
        → IsMadeOf (o ∷ [])
        → IsCalm out
        → (out' : Out W) × (emit io o out ≡ (out', true)) × IsFed (o ∷ []) out out'
    emit_made_good none out m c = absurd m
    emit_made_good (some l) out m c = (
      _,
      emit_good l out c.panicked,
      record { w = refl; calm = record { err = refl; panicked = c.panicked } },
    )

    -- Lines that can be made are all written.
    pub emit_all_good :
        (ls : List (Option String)) (out : Out W)
        → IsMadeOf ls
        → IsCalm out
        → ((emit_all io ls out).1 ≡ true) × IsFed ls out (emit_all io ls out).0
    unfolding emit_all
    emit_all_good [] out m c = (refl, IsFed-none out c)
    emit_all_good (none ∷ ls) out m c = absurd m
    emit_all_good (some l ∷ ls) out m c =
        let out1 = record out {
          w = (io.print out.w l).0;
          count = out.count + (io.print out.w l).1;
          err = none;
        } in
        let e : emit_all io (some l ∷ ls) out ≡ emit_all io ls out1 =
          ap (λ r. and_then r (emit_all io ls)) (emit_good l out c.panicked) in
        let (more, fed) = emit_all_good ls out1 m (record { err = refl; panicked = c.panicked }) in
        (
          ap (λ r. r.1) e ∙ more,
          subst (λ r. IsFed (some l ∷ ls) out r.0) (sym e) (record { w = fed.w; calm = fed.calm }),
        )

module _ {ℓ} {D W : Type ℓ} where
  pub unless_failed_calm :
      (io : IoWriter W) (next : Writing D W → Writing D W) (x : Writing D W)
      → IsCalm io x.out
      → unless_failed next x ≡ next x
  unless_failed_calm io next x c =
      ap (λ b. if b || is_some x.out.err then x else next x) c.panicked
      ∙ ap (λ e. if is_some e then x else next x) c.err

  pub unless_panicked_calm :
      (io : IoWriter W) (next : Writing D W → Writing D W) (x : Writing D W)
      → IsCalm io x.out
      → unless_panicked next x ≡ next x
  unless_panicked_calm io next x c = ap (λ b. if b then x else next x) c.panicked
