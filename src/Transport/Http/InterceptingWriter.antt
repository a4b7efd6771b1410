-- ===== src/Transport/Http/InterceptingWriter.antt =====
-- transport/http/intercepting_writer.go: which optional interfaces the wrapped writer implements, and
-- what it counts. Of a write, the number of bytes that the underlying writer accepts is given.
pub mod Wrapping
use yoroi.Prelude.{ℕ, ◌+◌, List, [], ◌∷◌, ◌++◌, Bool, true, false}

-- The interfaces that are looked for, in the order of the code.
pub data Interface : Type 0 where
  hijacker : Interface
  close_notifier : Interface
  pusher : Interface
  flusher : Interface
  reader_from : Interface

-- What a writer implements, by type assertion.
abbrev pub Implements : Type 0
Implements = Interface → Bool

-- The sixteen cases of `switch` without a Hijacker, by CloseNotifier, Pusher, Flusher and
-- ReaderFrom: the interfaces embedded in the struct that is returned.
pub without_hijacker : Bool → Bool → Bool → Bool → List Interface
without_hijacker false false false false = []
without_hijacker false false false true = reader_from ∷ []
without_hijacker false false true false = flusher ∷ []
without_hijacker false false true true = flusher ∷ reader_from ∷ []
without_hijacker false true false false = pusher ∷ []
without_hijacker false true false true = pusher ∷ reader_from ∷ []
without_hijacker false true true false = pusher ∷ flusher ∷ []
without_hijacker false true true true = pusher ∷ flusher ∷ reader_from ∷ []
without_hijacker true false false false = close_notifier ∷ []
without_hijacker true false false true = close_notifier ∷ reader_from ∷ []
without_hijacker true false true false = close_notifier ∷ flusher ∷ []
without_hijacker true false true true = close_notifier ∷ flusher ∷ reader_from ∷ []
without_hijacker true true false false = close_notifier ∷ pusher ∷ []
without_hijacker true true false true = close_notifier ∷ pusher ∷ reader_from ∷ []
without_hijacker true true true false = close_notifier ∷ pusher ∷ flusher ∷ []
without_hijacker true true true true = close_notifier ∷ pusher ∷ flusher ∷ reader_from ∷ []

-- The sixteen cases with one.
pub with_hijacker : Bool → Bool → Bool → Bool → List Interface
with_hijacker false false false false = hijacker ∷ []
with_hijacker false false false true = hijacker ∷ reader_from ∷ []
with_hijacker false false true false = hijacker ∷ flusher ∷ []
with_hijacker false false true true = hijacker ∷ flusher ∷ reader_from ∷ []
with_hijacker false true false false = hijacker ∷ pusher ∷ []
with_hijacker false true false true = hijacker ∷ pusher ∷ reader_from ∷ []
with_hijacker false true true false = hijacker ∷ pusher ∷ flusher ∷ []
with_hijacker false true true true = hijacker ∷ pusher ∷ flusher ∷ reader_from ∷ []
with_hijacker true false false false = hijacker ∷ close_notifier ∷ []
with_hijacker true false false true = hijacker ∷ close_notifier ∷ reader_from ∷ []
with_hijacker true false true false = hijacker ∷ close_notifier ∷ flusher ∷ []
with_hijacker true false true true = hijacker ∷ close_notifier ∷ flusher ∷ reader_from ∷ []
with_hijacker true true false false = hijacker ∷ close_notifier ∷ pusher ∷ []
with_hijacker true true false true = hijacker ∷ close_notifier ∷ pusher ∷ reader_from ∷ []
with_hijacker true true true false = hijacker ∷ close_notifier ∷ pusher ∷ flusher ∷ []
with_hijacker true true true true = hijacker ∷ close_notifier ∷ pusher ∷ flusher ∷ reader_from ∷ []

pub reimplement_interfaces : Implements → List Interface
unfolding without_hijacker with_hijacker
reimplement_interfaces w = elim (w hijacker) [
  | false ↦ without_hijacker (w close_notifier) (w pusher) (w flusher) (w reader_from)
  | true ↦ with_hijacker (w close_notifier) (w pusher) (w flusher) (w reader_from)
]

-- What reaches the underlying writer.
pub data Call : Type 0 where
  headed : ℕ → Call
  wrote : ℕ → Call
  -- by `ReadFrom`
  read : ℕ → Call

pub record InterceptingWriter : Type 0 where
  -- the calls of the underlying writer, the last one first
  pub underlying : List Call
  pub code : ℕ
  pub written : ℕ

-- &interceptingWriter{w, http.StatusOK, 0}
abbrev pub intercept : InterceptingWriter
intercept = record { underlying = []; code = 200; written = 0 }

unfoldable pub write_header : InterceptingWriter → ℕ → InterceptingWriter
write_header w code' = record w { code = code'; underlying = headed code' ∷ w.underlying }

unfoldable pub write : InterceptingWriter → ℕ → InterceptingWriter
write w n = record w { underlying = wrote n ∷ w.underlying; written = w.written + n }

-- What the struct that is returned does with a call: `ReadFrom` is that of the underlying writer.
unfoldable pub call : InterceptingWriter → Call → InterceptingWriter
unfolding write_header write
call w (headed code') = write_header w code'
call w (wrote n) = write w n
call w (read n) = record w { underlying = read n ∷ w.underlying }

pub calls : InterceptingWriter → List Call → InterceptingWriter
unfolding call
calls w [] = w
calls w (c ∷ cs) = calls (call w c) cs
