-- ===== src/Lb/RoundRobin/Rotation.antt =====
-- Which endpoints sd/lb/round_robin.go yields.
use Prim.Native.Nat.{ℕ}
use native.Mathlib.Nat.{mod-lt, mod-eq_of_lt, mod-add-mod, zero-add, suc-add, mod_self}
use mathlib.Core.List.{map-append}
use yoroi.Prelude.{
  [], ◌∷◌, zero, suc, ◌+◌, ◌-◌, ◌%◌, ◌≤◌, ◌<◌, ◌≡◌, refl, sym, ap, ◌∙◌, Option, none, some, List,
  ◌++◌, map, arith, length, get_elem?, take, drop, get_elem?-some, drop-get_elem?, take_all,
  length-drop,
}
use yoroi.Lb.Reply.{Found, Picked}
use yoroi.Lb.RoundRobin.{u64_mod, RoundRobin, endpoint, calls}

module _ {ℓ} {P : Type ℓ} where
  abbrev pub good : List P → Found P
  good es = record { endpoints = es; err = none }

  abbrev pub pick : P → Option (Picked P)
  pick e = some (record { endpoint = some e; err = none })

  -- The counter before a wrap, and the endpoint that its value selects.
  endpoint_lem :
      (es : List P) (c : ℕ) (e : P)
      → c + 1 < u64_mod
      → 0 < length es
      → get_elem? es (c % length es) ≡ some e
      → endpoint (record { c = c }) (good es) ≡ (record { c = c + 1 }, pick e)
  unfolding endpoint
  endpoint_lem es c e small some_es here =
      let e1 : (c + 1) % u64_mod ≡ c + 1 = omega arith in
      let e2 : (c + 1 + u64_mod - 1) % u64_mod ≡ c = omega arith in rw (e1, e2, here) (ground arith)

  calls-suc :
      (m : ℕ) (rr : RoundRobin) (found : Found P)
      → calls (suc m) rr found ≡ (
        (calls m (endpoint rr found).0 found).0,
        (endpoint rr found).1 ∷ (calls m (endpoint rr found).0 found).1,
      )
  unfolding calls
  calls-suc m rr found = refl

  calls-zero : (rr : RoundRobin) (found : Found P) → calls zero rr found ≡ (rr, [])
  unfolding calls
  calls-zero rr found = refl

  -- `m` calls that reach neither the end of the list nor the end of the counter.
  calls_in_row :
      (es : List P) (m c r : ℕ)
      → c + m < u64_mod
      → c % length es ≡ r
      → r + m ≤ length es
      → 0 < length es
      → calls m (record { c = c }) (good es) ≡ (record { c = c + m }, map pick (take m (drop r es)))
  calls_in_row es zero c r small at_r fits some_es = rw calls-zero (ground arith)
  calls_in_row es (suc zero) c r small at_r fits some_es =
      let (e, here) = get_elem?-some es r (omega arith) in
      rw
        (
          calls-suc zero (record { c = c }) (good es),
          endpoint_lem es c e (omega arith) some_es (ap (get_elem? es) at_r ∙ here),
          drop-get_elem? es r e here,
          calls-zero,
        )
        (ground arith)
  calls_in_row es (suc (suc m)) c r small at_r fits some_es =
      let (e, here) = get_elem?-some es r (omega arith) in
      let next : (c + 1) % length es ≡ suc r =
        sym (mod-add-mod c (length es) 1)
        ∙ ap (λ (k : ℕ). (k + 1) % length es) at_r
        ∙ mod-eq_of_lt {n = r + 1} {m = length es} (omega arith)
        ∙ omega arith in
      rw
        (
          calls-suc (suc m) (record { c = c }) (good es),
          endpoint_lem es c e (omega arith) some_es (ap (get_elem? es) at_r ∙ here),
          drop-get_elem? es r e here,
          calls_in_row es (suc m) (c + 1) (suc r) (omega arith) next (omega arith) some_es,
        )
        (ground arith)

  calls-add :
      (a b : ℕ) (rr : RoundRobin) (found : Found P)
      → calls (a + b) rr found ≡ (
        (calls b (calls a rr found).0 found).0,
        (calls a rr found).1 ++ (calls b (calls a rr found).0 found).1,
      )
  unfolding calls
  calls-add zero b rr found = rw zero-add
  calls-add (suc a) b rr found = rw (suc-add, calls-add a b (endpoint rr found).0 found)

  -- From any counter that does not wrap on the way, as many calls as there are endpoints yield each
  -- of them once, in the order of the list from the counter's place on and then from its head.
  pub one_round :
      (es : List P) (c : ℕ)
      → 0 < length es
      → c + length es < u64_mod
      → calls (length es) (record { c = c }) (good es) ≡ (
        record { c = c + length es },
        map pick (drop (c % length es) es ++ take (c % length es) es),
      )
  one_round es c some_es small =
      let r = c % length es in
      let n = length es - r in
      let r_lt : r < length es = mod-lt c some_es in
      let whole : length es ≡ n + r = omega arith in
      let wrapped : (c + n) % length es ≡ 0 =
        sym (mod-add-mod c (length es) n)
        ∙ ap (λ (k : ℕ). k % length es) (omega arith)
        ∙ mod_self (length es) in
      let first = calls_in_row es n c r (omega arith) refl (omega arith) some_es in
      let second = calls_in_row es r (c + n) 0 (omega arith) wrapped (omega arith) some_es in
      ap (λ (k : ℕ). calls k (record { c = c }) (good es)) whole
      ∙ calls-add n r (record { c = c }) (good es)
      ∙ rw (first, second, take_all (drop r es) n (omega (arith, length-drop es r)), map-append)
          (ground arith)
