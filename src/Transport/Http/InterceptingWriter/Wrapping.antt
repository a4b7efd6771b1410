-- ===== src/Transport/Http/InterceptingWriter/Wrapping.antt =====
-- What the wrapped writer of transport/http/intercepting_writer.go implements and counts.
use yoroi.Prelude.{
  ℕ, ◌+◌, ◌≤◌, sym, Bool-cases, inl, inr, ltb, if◌then◌else◌, ◌≡◌, refl, ap, ◌∙◌, List, [], ◌∷◌,
  ◌++◌, Bool, true, false, ◌||◌, arith,
}
use yoroi.Transport.Http.InterceptingWriter.{
  Interface, hijacker, close_notifier, pusher, flusher, reader_from, Implements, without_hijacker,
  with_hijacker, reimplement_interfaces, Call, headed, wrote, read, InterceptingWriter, intercept,
  write_header, write, call, calls,
}

abbrev same : Interface → Interface → Bool
same hijacker hijacker = true
same close_notifier close_notifier = true
same pusher pusher = true
same flusher flusher = true
same reader_from reader_from = true
same _ _ = false

abbrev pub embeds : Interface → List Interface → Bool
embeds i [] = false
embeds i (j ∷ js) = same j i || embeds i js

embeds-without_hijacker :
    (cn pu fl rf : Bool) (i : Interface)
    → embeds i (without_hijacker cn pu fl rf) ≡ elim i [
      | hijacker ↦ false
      | close_notifier ↦ cn
      | pusher ↦ pu
      | flusher ↦ fl
      | reader_from ↦ rf
    ]
unfolding without_hijacker
embeds-without_hijacker cn pu fl rf i = ground arith

embeds-with_hijacker :
    (cn pu fl rf : Bool) (i : Interface)
    → embeds i (with_hijacker cn pu fl rf) ≡ elim i [
      | hijacker ↦ true
      | close_notifier ↦ cn
      | pusher ↦ pu
      | flusher ↦ fl
      | reader_from ↦ rf
    ]
unfolding with_hijacker
embeds-with_hijacker cn pu fl rf i = ground arith

by_interface :
    (hj : Bool) (w : Implements) (i : Interface)
    → w hijacker ≡ hj
    → elim i [
      | hijacker ↦ hj
      | close_notifier ↦ w close_notifier
      | pusher ↦ w pusher
      | flusher ↦ w flusher
      | reader_from ↦ w reader_from
    ]
      ≡ w i
by_interface hj w hijacker h = sym h
by_interface hj w close_notifier h = refl
by_interface hj w pusher h = refl
by_interface hj w flusher h = refl
by_interface hj w reader_from h = refl

-- The wrapped writer implements an optional interface exactly if the underlying one does.
pub embeds-reimplement_interfaces :
    (w : Implements) (i : Interface) → embeds i (reimplement_interfaces w) ≡ w i
unfolding reimplement_interfaces
embeds-reimplement_interfaces w i = elim (Bool-cases (w hijacker)) [
  | inl h ↦
      let e : reimplement_interfaces w
          ≡ with_hijacker (w close_notifier) (w pusher) (w flusher) (w reader_from) =
        rw (h, reimplement_interfaces) refl in
      ap (embeds i) e
      ∙ embeds-with_hijacker (w close_notifier) (w pusher) (w flusher) (w reader_from) i
      ∙ by_interface true w i h
  | inr h ↦
      let e : reimplement_interfaces w
          ≡ without_hijacker (w close_notifier) (w pusher) (w flusher) (w reader_from) =
        rw (h, reimplement_interfaces) refl in
      ap (embeds i) e
      ∙ embeds-without_hijacker (w close_notifier) (w pusher) (w flusher) (w reader_from) i
      ∙ by_interface false w i h
]

-- The code of the last call of WriteHeader, else the given one.
abbrev pub last_header : ℕ → List Call → ℕ
last_header code [] = code
last_header code (headed c ∷ cs) = last_header c cs
last_header code (wrote n ∷ cs) = last_header code cs
last_header code (read n ∷ cs) = last_header code cs

-- The code that a client gets: net/http sends 200 before a body without one, and ignores calls of
-- WriteHeader after that of a code that is not informational.
abbrev pub sent_code : List Call → ℕ
sent_code [] = 200
sent_code (headed c ∷ cs) = if ltb c 200 then sent_code cs else c
sent_code (wrote n ∷ cs) = 200
sent_code (read n ∷ cs) = 200

abbrev pub bytes_sent : List Call → ℕ
bytes_sent [] = 0
bytes_sent (headed c ∷ cs) = bytes_sent cs
bytes_sent (wrote n ∷ cs) = n + bytes_sent cs
bytes_sent (read n ∷ cs) = n + bytes_sent cs

abbrev pub bytes_read : List Call → ℕ
bytes_read [] = 0
bytes_read (headed c ∷ cs) = bytes_read cs
bytes_read (wrote n ∷ cs) = bytes_read cs
bytes_read (read n ∷ cs) = n + bytes_read cs

abbrev pub onto : List Call → List Call → List Call
onto [] seen = seen
onto (c ∷ cs) seen = onto cs (c ∷ seen)

calls_from :
    (w : InterceptingWriter) (cs : List Call)
    → ((calls w cs).underlying ≡ onto cs w.underlying)
      × ((calls w cs).code ≡ last_header w.code cs)
      × ((calls w cs).written + bytes_read cs ≡ w.written + bytes_sent cs)
unfolding calls call write_header write
calls_from w [] = (refl, refl, refl)
calls_from w (headed c ∷ cs) = calls_from (write_header w c) cs
calls_from w (wrote n ∷ cs) = let h = calls_from (write w n) cs in (h.0, h.1, omega (arith, h.2))
calls_from w (read n ∷ cs) =
    let h = calls_from (record w { underlying = read n ∷ w.underlying }) cs in
    (h.0, h.1, omega (arith, h.2))

-- After any calls, the underlying writer has received all of them in their order; the code is that
-- of the last call of WriteHeader, or 200; and the count lacks of the bytes sent exactly those that
-- went through ReadFrom.
pub calls_counted :
    (cs : List Call)
    → ((calls intercept cs).underlying ≡ onto cs [])
      × ((calls intercept cs).code ≡ last_header 200 cs)
      × ((calls intercept cs).written + bytes_read cs ≡ bytes_sent cs)
calls_counted cs = let h = calls_from intercept cs in (h.0, h.1, omega (arith, h.2))

last_header-append : (a b : ℕ) (cs : List Call) → last_header a (cs ++ headed b ∷ []) ≡ b
last_header-append a b [] = refl
last_header-append a b (headed c ∷ cs) = last_header-append c b cs
last_header-append a b (wrote n ∷ cs) = last_header-append a b cs
last_header-append a b (read n ∷ cs) = last_header-append a b cs

-- If WriteHeader is called first with a code that is not informational and last with another one,
-- the client gets the first code and the finalizers are told the last one.
pub late_header :
    (a b : ℕ) (cs : List Call)
    → 200 ≤ a
    → (sent_code (headed a ∷ cs ++ headed b ∷ []) ≡ a)
      × ((calls intercept (headed a ∷ cs ++ headed b ∷ [])).code ≡ b)
late_header a b cs h =
    (ground arith, (calls_counted (headed a ∷ cs ++ headed b ∷ [])).1 ∙ last_header-append a b cs)
