-- ===== src/Metrics/Influx/Flushing.antt =====
-- What WriteTo of metrics/influx/influx.go hands to its writer.
use mathlib.Core.List.{append_assoc, append-nil}
use yoroi.Prelude.{
  ◌≡◌, refl, sym, ap, ◌∙◌, String, Option, none, some, List, [], ◌∷◌, ◌++◌, Bool, true, false,
  Assoc, lookup, insert, lookup-insert, IsMap, str_eq, eq_iff, if◌then◌else◌, subst,
}
use yoroi.Metrics.Emit.{Floats}
use yoroi.Metrics.Emit.Walking.{Series, all_series}
use yoroi.Metrics.Emit.Folding.{fold_series, walk_nodes-fold_series}
use yoroi.Metrics.Space.{Space, new_space, reset, walk_nodes, and_then}
use yoroi.Metrics.Graphite.{Quantile}
use yoroi.Metrics.Influx.{
  Influx, Point, add_labels, copy_tags, merge_tags, count_fields, value_fields, quantile_fields,
  Out, add_point, make_point, visit, finish, write_gauges, write_histograms, write_to,
}

abbrev value_or : Assoc String → Option (Assoc String) → Assoc String
value_or m none = m
value_or m (some n) = n

module _ {ℓ} {F : Type ℓ} (tags : Assoc String) (fields : List F → List (String × F)) where
  abbrev pub cons_point :
      Series F → Option (Assoc String) → Option (List (Point F)) → Option (List (Point F))
  cons_point x none ps = none
  cons_point x (some merged) none = none
  cons_point x (some merged) (some ps) =
      some (record { name = x.name; tags = merged; fields = fields x.values } ∷ ps)

  -- A point for each of the series, if all label values come in pairs.
  abbrev pub points : List (Series F) → Option (List (Point F))
  points [] = some []
  points (x ∷ xs) = cons_point x (merge_tags tags x.lvs) (points xs)

module _ {ℓ} {F : Type ℓ} (refuses : Point F → Option String) where
  abbrev pub AllAccepted : List (Point F) → Type 0
  AllAccepted [] = Unit
  AllAccepted (p ∷ ps) = (refuses p ≡ none) × AllAccepted ps

module _ {ℓ} {F : Type ℓ} (refuses : Point F → Option String) (tags : Assoc String)
    (fields : List F → List (String × F)) where
  abbrev filled : Out F → List (Point F) → Out F
  filled out ps = record out { points = out.points ++ ps }

  abbrev unwrap : List (Point F) → Option (List (Point F)) → List (Point F)
  unwrap ps none = ps
  unwrap ps (some qs) = qs

  -- The first of the series, with what the others do.
  cons_point_lem :
      (x : Series F) (xs : List (Series F)) (ps : List (Point F)) (out : Out F)
      (m : Option (Assoc String)) (q : Option (List (Point F)))
      → ((qs : List (Point F)) (out' : Out F)
          → q ≡ some qs
          → AllAccepted refuses qs
          → fold_series (visit refuses tags fields) xs out' ≡ (filled out' qs, true))
      → cons_point tags fields x m q ≡ some ps
      → AllAccepted refuses ps
      → and_then
          (make_point refuses x.name (fields x.values) m out)
          (fold_series (visit refuses tags fields) xs)
        ≡ (filled out ps, true)
  cons_point_lem x xs ps out none q rest h a = absurd (cc h)
  cons_point_lem x xs ps out (some merged) none rest h a = absurd (cc h)
  cons_point_lem x xs ps out (some merged) (some qs) rest h a =
      let p : Point F = record { name = x.name; tags = merged; fields = fields x.values } in
      let accepted = subst (AllAccepted refuses) (sym (ap (unwrap ps) h)) a in
      ap (λ o. and_then (add_point refuses p o out) (fold_series (visit refuses tags fields) xs))
        accepted.0
      ∙ rest qs (filled out (p ∷ [])) refl accepted.1
      ∙ ap (λ rs. (record out { points = rs }, true)) (append_assoc out.points (p ∷ []) qs)
      ∙ ap (λ rs. (filled out rs, true)) (ap (unwrap ps) h)

  fold-points :
      (xs : List (Series F)) (ps : List (Point F)) (out : Out F)
      → points tags fields xs ≡ some ps
      → AllAccepted refuses ps
      → fold_series (visit refuses tags fields) xs out ≡ (filled out ps, true)
  unfolding fold_series
  fold-points [] ps out e a =
      ap (λ qs. (record out { points = qs }, true)) (sym (append-nil out.points))
      ∙ ap (λ qs. (filled out qs, true)) (ap (unwrap ps) e)
  fold-points (x ∷ xs) ps out e a =
      cons_point_lem x xs ps out (merge_tags tags x.lvs) (points tags fields xs)
        (λ qs out' h b. fold-points xs qs out' h b) e a

  walk-points :
      (s : Space F) (ps : List (Point F)) (out : Out F)
      → points tags fields (all_series s.nodes) ≡ some ps
      → AllAccepted refuses ps
      → walk_nodes (visit refuses tags fields) s.nodes out ≡ (filled out ps, true)
  walk-points s ps out e a =
      walk_nodes-fold_series (visit refuses tags fields) s.nodes out
      ∙ fold-points (all_series s.nodes) ps out e a

module _ {ℓ} {F W : Type ℓ} (fl : Floats F) (quantile : List F → Quantile → F)
    (refuses : Point F → Option String) (write : W → List (Point F) → W × Option String) where
  -- If InfluxDB accepts the configuration and the points of the batch, and all label values come in pairs, then WriteTo writes one
  -- batch, with a point for each series of the counters, then of the gauges, then of the histograms, returns what the
  -- writer returns, and leaves no observations, even if the writer fails.
  pub write_to_batch :
      (influx : Influx F) (w : W) (counts values quantiles : List (Point F))
      → points influx.tags (count_fields fl) (all_series influx.counters.nodes) ≡ some counts
      → points influx.tags (value_fields fl) (all_series influx.gauges.nodes) ≡ some values
      → points influx.tags (quantile_fields quantile) (all_series influx.histograms.nodes)
        ≡ some quantiles
      → AllAccepted refuses counts
      → AllAccepted refuses values
      → AllAccepted refuses quantiles
      → let (w', err) = write w ((counts ++ values) ++ quantiles) in
        write_to fl quantile refuses write none influx w ≡ (
          record influx { counters = new_space; gauges = new_space; histograms = new_space },
          w',
          some err,
        )
  unfolding write_to reset
  write_to_batch influx w counts values quantiles ec eg eh ac ag ah =
      let no_counters : Influx F = record influx { counters = new_space } in
      let no_gauges : Influx F = record no_counters { gauges = new_space } in
      let empty : Influx F = record no_gauges { histograms = new_space } in
      let out : List (Point F) → Out F =
        λ ps. record { points = ps; err = none; panicked = false } in
      ap (write_gauges fl quantile refuses write no_counters w)
        (walk-points refuses influx.tags (count_fields fl) influx.counters counts (out []) ec ac)
      ∙ ap (write_histograms fl quantile refuses write no_gauges w) (
          walk-points refuses influx.tags (value_fields fl) influx.gauges values (out counts) eg ag)
      ∙ ap (finish fl quantile refuses write empty w) (
          walk-points refuses influx.tags (quantile_fields quantile) influx.histograms quantiles
            (out (counts ++ values)) eh ah)

-- The value of the last pair with the label.
abbrev or_else : Option String → Option String → Option String
or_else none o = o
or_else (some v) o = some v

abbrev label_of : String → List String → Option String
label_of k [] = none
label_of k (l ∷ []) = none
label_of k (l ∷ v ∷ rest) = or_else (label_of k rest) (if str_eq l k then some v else none)

or_else_assoc : (a b c : Option String) → or_else (or_else a b) c ≡ or_else a (or_else b c)
or_else_assoc none b c = refl
or_else_assoc (some v) b c = refl

lookup-set :
    (k l v : String) (m : Assoc String)
    → lookup k (insert l v m) ≡ or_else (if str_eq l k then some v else none) (lookup k m)
lookup-set k l v m = lookup-insert l k v m ∙ at (str_eq l k)
  where
    at :
        (b : Bool)
        → (if b then some v else lookup k m) ≡ or_else (if b then some v else none) (lookup k m)
    at true = refl
    at false = refl

lookup-add_labels :
    (lvs : List String) (ret merged : Assoc String) (k : String)
    → add_labels lvs ret ≡ some merged
    → lookup k merged ≡ or_else (label_of k lvs) (lookup k ret)
unfolding add_labels
lookup-add_labels [] ret merged k e = sym (ap (λ o. lookup k (value_or ret o)) e)
lookup-add_labels (l ∷ []) ret merged k e = absurd (cc e)
lookup-add_labels (l ∷ v ∷ rest) ret merged k e =
    lookup-add_labels rest (insert l v ret) merged k e
    ∙ ap (or_else (label_of k rest)) (lookup-set k l v ret)
    ∙ sym (or_else_assoc (label_of k rest) (if str_eq l k then some v else none) (lookup k ret))

-- Where the entry of a key stands first, it does not stand behind.
set_first :
    (v : String) (b : Bool) (o r : Option String)
    → (b ≡ true → o ≡ none)
    → or_else o (or_else (if b then some v else none) r) ≡ or_else (if b then some v else o) r
set_first v true none r h = refl
set_first v true (some x) r h = absurd (cc (h refl))
set_first v false none r h = refl
set_first v false (some x) r h = refl

lookup-copy_tags :
    (tags ret : Assoc String) (k : String)
    → IsMap tags
    → lookup k (copy_tags tags ret) ≡ or_else (lookup k tags) (lookup k ret)
unfolding copy_tags lookup
lookup-copy_tags [] ret k h = refl
lookup-copy_tags ((l, v) ∷ tags) ret k h =
    lookup-copy_tags tags (insert l v ret) k h.1
    ∙ ap (or_else (lookup k tags)) (lookup-set k l v ret)
    ∙ set_first v (str_eq l k) (lookup k tags) (lookup k ret)
        (λ hit. subst (λ x. lookup x tags ≡ none) ((eq_iff l k).0 hit) h.0)

or_else-none : (o : Option String) → or_else o none ≡ o
or_else-none none = refl
or_else-none (some v) = refl

-- If the tags of an Influx are a map and the label values come in pairs, then mergeTags gives each label the value of
-- its last pair, and each other key the tag that it has.
lookup-merge_tags :
    (tags : Assoc String) (lvs : List String) (merged : Assoc String) (k : String)
    → IsMap tags
    → merge_tags tags lvs ≡ some merged
    → lookup k merged ≡ or_else (label_of k lvs) (lookup k tags)
unfolding merge_tags lookup
lookup-merge_tags tags lvs merged k h e =
    lookup-add_labels lvs (copy_tags tags []) merged k e
    ∙ ap (or_else (label_of k lvs)) (lookup-copy_tags tags [] k h ∙ or_else-none (lookup k tags))
