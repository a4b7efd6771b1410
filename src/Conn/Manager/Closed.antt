-- ===== src/Conn/Manager/Closed.antt =====
-- Which connections util/conn/manager.go has closed.
use yoroi.Prelude.{
  ℕ, ◌+◌, ◌≡◌, refl, subst, inl, inr, Option, none, some, List, [], ◌∷◌, Bool, true, false, ltb,
  arith, Option-cases, if◌then◌else◌, String, ◌==◌,
}
use yoroi.Conn.Manager.{
  Conn, Manager, Event, fires, dials, receives, takes, puts, start, receive, put, step, run,
}
use yoroi.Conn.Manager.Pending.{full_conn, pending}

abbrev pub count : ℕ → List ℕ → ℕ
count c [] = 0
count c (d ∷ ds) = (if d == c then 1 else 0) + count c ds

abbrev pub holds : ℕ → Conn → ℕ
holds c none = 0
holds c (some d) = if d == c then 1 else 0

abbrev pub carries : ℕ → Option Conn → ℕ
carries c none = 0
carries c (some r) = holds c r

-- One thing is there or on its way, and the connection `c`, once opened, is closed once or held
-- once.
pub record IsSettled (c : ℕ) (m : Manager) : Type 0 where
  pub single : full_conn m.conn + pending m ≡ 1
  pub accounted :
      count c m.closed + holds c m.conn + carries c m.connc ≡ (if ltb c m.opened then 1 else 0)

module _ (product : ℕ → ℕ → ℕ) (c : ℕ) where
  receive-IsSettled :
      (m : Manager) (draw : ℕ) (r : Conn)
      → m.connc ≡ some r
      → IsSettled c m
      → IsSettled c (receive product m draw r)
  receive-IsSettled m draw none q v = ground arith
  receive-IsSettled m draw (some d) q v = ground arith

  put-IsSettled :
      (m : Manager) (e : Option String) (d : Conn)
      → m.conn ≡ d
      → IsSettled c m
      → IsSettled c (put product m e d)
  put-IsSettled m none d q v = v
  put-IsSettled m (some e) none q v = v
  put-IsSettled m (some e) (some d) q v = ground arith

  step-IsSettled :
      (m m' : Manager) (e : Event) → step product m e ≡ some m' → IsSettled c m → IsSettled c m'
  unfolding step
  step-IsSettled m m' fires h v = ground arith
  step-IsSettled m m' (dials dialled) h v = ground arith
  step-IsSettled m m' (receives draw) h v = elim (Option-cases m.connc) [
    | inl q ↦ absurd (ground (arith, q))
    | inr (r, q) ↦ subst (IsSettled c) (ground (arith, q)) (receive-IsSettled m draw r q v)
  ]
  step-IsSettled m m' takes h v = ground arith
  step-IsSettled m m' (puts err) h v =
      subst (IsSettled c) (ground arith) (put-IsSettled m err m.conn refl v)

  run-IsSettled :
      (m m' : Manager) (es : List Event)
      → run product m es ≡ some m'
      → IsSettled c m
      → IsSettled c m'
  unfolding run
  run-IsSettled m m' [] h v = subst (IsSettled c) (ground arith) v
  run-IsSettled m m' (e ∷ es) h v = elim (Option-cases (step product m e)) [
    | inl q ↦ absurd (cc (rw q at h))
    | inr (n, q) ↦ run-IsSettled n m' es (rw q at h) (step-IsSettled m n e q v)
  ]

  first-IsSettled :
      (dialled : Bool) (draw : ℕ) (m : Manager)
      → step product (start dialled) (receives draw) ≡ some m
      → IsSettled c m
  unfolding step start
  first-IsSettled true draw m h = ground arith
  first-IsSettled false draw m h = ground arith

  -- If the loop first receives the result of the initial dial, then after any further events a
  -- connection that the dialer has opened is closed once, or held once as the current one or in the
  -- channel, never both; and while there is a current one, no other is on its way.
  pub conns_accounted :
      (dialled : Bool) (draw : ℕ) (es : List Event) (m : Manager)
      → run product (start dialled) (receives draw ∷ es) ≡ some m
      → (count c m.closed + holds c m.conn + carries c m.connc ≡ (if ltb c m.opened then 1 else 0))
        × (full_conn m.conn + pending m ≡ 1)
  unfolding run
  conns_accounted dialled draw es m h =
      elim (Option-cases (step product (start dialled) (receives draw))) [
        | inl q ↦ absurd (cc (rw q at h))
        | inr (n, q) ↦
            let v = run-IsSettled n m es (rw q at h) (first-IsSettled dialled draw n q) in
            (v.accounted, v.single)
      ]

-- Clients take the connection, or put no error.
abbrev pub IsQuiet : List Event → Type 0
IsQuiet [] = Unit
IsQuiet (takes ∷ es) = IsQuiet es
IsQuiet (puts none ∷ es) = IsQuiet es
IsQuiet (e ∷ es) = ⊥

-- Clients take the connection, or put anything.
abbrev pub IsByClients : List Event → Type 0
IsByClients [] = Unit
IsByClients (takes ∷ es) = IsByClients es
IsByClients (puts err ∷ es) = IsByClients es
IsByClients (e ∷ es) = ⊥
