-- ===== src/Metrics/Cloudwatch2/Deliveries.antt =====
-- What the goroutines of Send of metrics/cloudwatch2/cloudwatch2.go do with the datums.
use yoroi.Prelude.{
  ℕ, zero, suc, ◌+◌, ◌≤◌, ◌<◌, ◌≡◌, refl, sym, ap, subst, String, Option, none, some, List, [], ◌∷◌,
  Bool, true, arith, ltb, length, get_elem?, if◌then◌else◌, if_either,
}
use yoroi.Metrics.Cloudwatch2.{
  Sending, Event, acquires, answers, remove_at, acquire, answer, first_error, step, run, start,
  returned,
}
use yoroi.Metrics.Cloudwatch2.Batches.{count, total, IsSmall, total-cut, cut-IsSmall}

abbrev value_or {ℓ} : {A : Type ℓ} → A → Option A → A
value_or a none = a
value_or a (some x) = x

module _ {ℓ} {D : Type ℓ} where
  total-remove_at :
      (p : D → Bool) (bs : List (List D)) (i : ℕ) (b : List D)
      → get_elem? bs i ≡ some b
      → count p b + total p (remove_at bs i) ≡ total p bs
  total-remove_at p [] i b e = absurd (cc e)
  total-remove_at p (x ∷ bs) zero b e = ap (λ y. count p y + total p bs) (sym (ap (value_or x) e))
  total-remove_at p (x ∷ bs) (suc i) b e = omega (arith, total-remove_at p bs i b e)

  length-remove_at : (bs : List (List D)) (i : ℕ) → length (remove_at bs i) ≤ length bs
  length-remove_at [] i = omega arith
  length-remove_at (x ∷ bs) zero = omega arith
  length-remove_at (x ∷ bs) (suc i) = omega (arith, length-remove_at bs i)

  picked-IsSmall :
      (bs : List (List D)) (i : ℕ) (b : List D)
      → get_elem? bs i ≡ some b
      → IsSmall bs
      → IsSmall (b ∷ [])
  picked-IsSmall [] i b e h = absurd (cc e)
  picked-IsSmall (x ∷ bs) zero b e h =
      subst (λ y. IsSmall (y ∷ [])) (ap (value_or x) e) (h.0, h.1, tt)
  picked-IsSmall (x ∷ bs) (suc i) b e h = picked-IsSmall bs i b e h.2

  remove_at-IsSmall : (bs : List (List D)) (i : ℕ) → IsSmall bs → IsSmall (remove_at bs i)
  remove_at-IsSmall [] i h = h
  remove_at-IsSmall (x ∷ bs) zero h = h.2
  remove_at-IsSmall (x ∷ bs) (suc i) h = (h.0, h.1, remove_at-IsSmall bs i h.2)

  record IsAccounted (ds : List D) (capacity : ℕ) (s : Sending D) : Type ℓ where
    capacity_kept : s.capacity ≡ capacity
    few : length s.running ≤ s.capacity
    all : (p : D → Bool) → total p s.put + total p s.waiting ≡ count p ds
    put_small : IsSmall s.put
    waiting_small : IsSmall s.waiting

  acquire-IsAccounted :
      (ds : List D) (n : ℕ) (s : Sending D) (i : ℕ) (o : Option (List D))
      → get_elem? s.waiting i ≡ o
      → length s.running < s.capacity
      → IsAccounted ds n s
      → IsAccounted ds n (acquire s i o)
  acquire-IsAccounted ds n s i none e l h = h
  acquire-IsAccounted ds n s i (some b) e l h =
      let small = picked-IsSmall s.waiting i b e h.waiting_small in
      record {
        capacity_kept = h.capacity_kept;
        few = omega (arith, l);
        all = λ p. omega (arith, h.all p, total-remove_at p s.waiting i b e);
        put_small = (small.0, small.1, h.put_small);
        waiting_small = remove_at-IsSmall s.waiting i h.waiting_small;
      }

  answer-IsAccounted :
      (ds : List D) (n : ℕ) (s : Sending D) (i : ℕ) (err : Option String) (o : Option (List D))
      → IsAccounted ds n s
      → IsAccounted ds n (answer s i err o)
  answer-IsAccounted ds n s i err none h = h
  answer-IsAccounted ds n s i err (some b) h = record {
    capacity_kept = h.capacity_kept;
    few = omega (arith, h.few, length-remove_at s.running i);
    all = h.all;
    put_small = h.put_small;
    waiting_small = h.waiting_small;
  }

  step-IsAccounted :
      (ds : List D) (n : ℕ) (s : Sending D) (e : Event)
      → IsAccounted ds n s
      → IsAccounted ds n (step s e)
  unfolding step
  step-IsAccounted ds n s (acquires i) h =
      if_either (IsAccounted ds n) (ltb (length s.running) s.capacity)
        (acquire s i (get_elem? s.waiting i)) s
        (λ e. acquire-IsAccounted ds n s i (get_elem? s.waiting i) refl (ground (arith, e)) h)
        (λ e. h)
  step-IsAccounted ds n s (answers i err) h =
      answer-IsAccounted ds n s i err (get_elem? s.running i) h

  run-IsAccounted :
      (ds : List D) (n : ℕ) (es : List Event) (s : Sending D)
      → IsAccounted ds n s
      → IsAccounted ds n (run s es)
  unfolding run
  run-IsAccounted ds n [] s h = h
  run-IsAccounted ds n (e ∷ es) s h =
      run-IsAccounted ds n es (step s e) (step-IsAccounted ds n s e h)

  start-IsAccounted : (n : ℕ) (ds : List D) → IsAccounted ds n (start n ds)
  unfolding start
  start-IsAccounted n ds = record {
    capacity_kept = refl;
    few = omega arith;
    all = λ p. omega (arith, total-cut p (length ds) ds (omega arith));
    put_small = tt;
    waiting_small = cut-IsSmall (length ds) ds;
  }

  -- After any events each datum of Send is in as many of the batches that were put and of those that still
  -- wait as it was collected, whatever tells datums apart; no batch that was put is empty or larger than
  -- CloudWatch takes, and no more requests run than the channel has places for.
  pub delivered_once :
      (n : ℕ) (ds : List D) (es : List Event)
      → let s = run (start n ds) es in
        ((p : D → Bool) → total p s.put + total p s.waiting ≡ count p ds)
        × IsSmall s.put
        × (length s.running ≤ n)
  delivered_once n ds es =
      let h = run-IsAccounted ds n es (start n ds) (start-IsAccounted n ds) in
      (h.all, h.put_small, omega (arith, h.few, h.capacity_kept))

  -- The calls return, and then the goroutines that wait go one by one.
  abbrev pub rest_of : List (List D) → List (List D) → List Event
  rest_of [] [] = []
  rest_of [] (b ∷ waiting) = acquires 0 ∷ answers 0 none ∷ rest_of [] waiting
  rest_of (b ∷ running) waiting = answers 0 none ∷ rest_of running waiting

  abbrev pub IsReturned : Sending D → Type 0
  IsReturned s = (err : Option String) × (returned s ≡ some err)

  waiting-IsReturned :
      (waiting : List (List D)) (s : Sending D)
      → 0 < s.capacity
      → IsReturned (run (record s { waiting = waiting; running = [] }) (rest_of [] waiting))
  unfolding run step
  waiting-IsReturned [] s h = (s.err, refl)
  waiting-IsReturned (b ∷ waiting) s h =
      let before : Sending D = record s { waiting = b ∷ waiting; running = [] } in
      let can : ltb 0 s.capacity ≡ true = ground (arith, h) in
      let went : step before (acquires 0) ≡ acquire before 0 (some b) =
        ap (λ t. if t then acquire before 0 (some b) else before) can in
      subst (λ (y : Sending D). IsReturned (run (step y (answers 0 none)) (rest_of [] waiting)))
        (sym went)
        (waiting-IsReturned waiting (record s { put = b ∷ s.put; err = first_error s.err none }) h)

  running-IsReturned :
      (running waiting : List (List D)) (s : Sending D)
      → 0 < s.capacity
      → IsReturned
          (run (record s { waiting = waiting; running = running }) (rest_of running waiting))
  unfolding run step
  running-IsReturned [] waiting s h = waiting-IsReturned waiting s h
  running-IsReturned (b ∷ running) waiting s h =
      running-IsReturned running waiting (record s { err = first_error s.err none }) h

  -- If the channel has a place, then after any events Send can still return: when the calls that run return, and
  -- the goroutines that wait go one by one.
  pub send_can_return :
      (n : ℕ) (ds : List D) (es : List Event)
      → 0 < n
      → let s = run (start n ds) es in IsReturned (run s (rest_of s.running s.waiting))
  send_can_return n ds es positive =
      let s = run (start n ds) es in
      let h = run-IsAccounted ds n es (start n ds) (start-IsAccounted n ds) in
      running-IsReturned s.running s.waiting s (omega (arith, positive, h.capacity_kept))
