-- ===== src/Transport/Grpc/Tests.antt =====
-- The theorems about transport/grpc at a concrete service.
use yoroi.Prelude.{
  ℕ, suc, ◌+◌, ◌==◌, ◌≡◌, refl, String, none, some, List, [], ◌∷◌, Bool, true, false, if◌then◌else◌,
}
use yoroi.Endpoint.{Reply}
use yoroi.Transport.Grpc.Server as Server
use yoroi.Transport.Grpc.Server.{Server, Run, serve_grpc, run_finalizers}
use yoroi.Transport.Grpc.Client as Client
use yoroi.Transport.Grpc.Client.{Client, failed, typed, endpoint}
use yoroi.Transport.Grpc.Through.{IsCodec, arrives, call_through}

abbrev is_empty : List String → Bool
is_empty [] = true
is_empty (x ∷ xs) = false

-- The state counts what was sent; a context is the texts in it.
abbrev grpc : Server.Library ℕ (List String) ℕ String (List String)
grpc = record {
  from_incoming = λ ctx. some ctx;
  no_metadata = [];
  is_empty = is_empty;
  send_header = λ ctx md n. (suc n, none);
  set_trailer = λ ctx md n. (suc n, some "stream closed");
  nil = 0;
}

-- It adds one to a request, but not to 7.
abbrev reply_to : ℕ → Reply String ℕ
reply_to i =
    if i == 7
    then record { response = 0; err = some "seven" }
    else record { response = suc i; err = none }

abbrev server : Server ℕ (List String) ℕ ℕ ℕ String ℕ (List String)
server = record {
  e = λ ctx i n. (n, reply_to i);
  dec = λ ctx q n. (n, record { response = q; err = none });
  enc = λ ctx o n. (n, record { response = o; err = none });
  before = (λ ctx md n. (n, "seen" ∷ ctx)) ∷ [];
  after = [];
  finalizer = (λ ctx err n. n + 10) ∷ [];
  error_handler = λ ctx err n. n + 100;
}

-- The same with a trailer that cannot be set.
abbrev with_trailer : Server ℕ (List String) ℕ ℕ ℕ String ℕ (List String)
with_trailer = record server {
  after = (λ ctx header trailer n. (n, ctx, header, "late" ∷ [])) ∷ [];
}

abbrev lib : Client.Library (List String) ℕ String ℕ (List String)
lib = record {
  no_request = 0;
  no_response = 0;
  wrong_type = "wrong type";
  no_metadata = [];
  with_method = λ ctx. "method" ∷ ctx;
  new_outgoing = λ ctx md. ctx;
}

abbrev client : Client ℕ (List String) ℕ ℕ ℕ String ℕ (List String)
client = record {
  invoke = λ ctx q n. let r = serve_grpc grpc server [] q n in arrives (λ err. err) [] [] r r.err;
  enc = λ ctx i n. (n, record { response = i; err = none });
  dec = λ ctx p n. (n, record { response = p; err = none });
  before = (λ ctx md n. (n, ctx, "token" ∷ md)) ∷ [];
  after = [];
  finalizer = (λ ctx err n. n + 1000) ∷ [];
}

abbrev same : ℕ → ℕ
same x = x

same-IsCodec : IsCodec server client same same
same-IsCodec = record {
  enc_request = λ ctx i st. refl;
  dec_request = λ ctx i st. refl;
  enc_response = λ ctx o st. refl;
  dec_response = λ ctx o st. refl;
}

call_through_example :
    (endpoint lib client [] (typed 4) 0).reply ≡ record { response = 5; err = none }
call_through_example =
    call_through grpc server lib client (λ err. err) same same same-IsCodec refl refl refl [] [] 4 0
      [] [] refl
