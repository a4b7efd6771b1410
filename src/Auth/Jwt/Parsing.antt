-- ===== src/Auth/Jwt/Parsing.antt =====
-- Which tokens the middlewares of auth/jwt let through.
use yoroi.Prelude.{
  ◌≡◌, ◌⊎◌, Option, List, inl, inr, refl, subst, sym, true, false, some, [], arith, Option-cases,
  Bool-cases,
}
use yoroi.Endpoint.{Reply, Endpoint}
use yoroi.Auth.Bytes.{Bytes, has_byte}
use yoroi.Auth.Jwt.{
  Error, Context, Token, Parsed, parsed, not_valid, failed, key, Keyfunc, Library, classify, refuse,
  checked_key, after_parse, new_parser, token_context_missing, token_invalid, other,
}
use yoroi.Auth.Jwt.Header.{
  http_to_context, context_to_http, grpc_to_context, context_to_grpc, extract-generate, space,
}

-- The library gives a token back only if the callback gave a key for it.
pub record KeepsKeys {O Method Claims Key E : Type 0} (lib : Library O Method Claims Key E)
    : Type 0 where
  pub keyed :
      (s : Bytes) (f : Keyfunc Method Claims Key E) (t : Token Method Claims)
      → lib.parse_with_claims s f ≡ parsed t
      → (k : Key) × (f t ≡ key k)

module _ {O Method Claims Key E : Type 0} (lib : Library O Method Claims Key E) where
  checked_key-key :
      (f : Keyfunc Method Claims Key E) (method : Method) (t : Token Method Claims) (k : Key)
      → checked_key lib f method t ≡ key k
      → (lib.same_method t.method method ≡ true) × (f t ≡ key k)
  unfolding checked_key
  checked_key-key f method t k h = ground arith

module _ {W Q O Method Claims Key E : Type 0} (lib : Library O Method Claims Key E)
    (key_func : Keyfunc Method Claims Key E) (method : Method)
    (next : Endpoint W (Context Claims) Q (Error E) O) (ctx : Context Claims) (request : Q)
    (w : W) where
  -- A token from the context that the library parses and finds valid, of the given method, for which
  -- the caller's function has a key.
  pub record Admitted (t : Token Method Claims) : Type 0 where
    pub string : Bytes
    pub in_context : ctx.token ≡ some string
    pub is_parsed : lib.parse_with_claims string (checked_key lib key_func method) ≡ parsed t
    pub is_valid : t.valid ≡ true
    pub same : lib.same_method t.method method ≡ true
    pub with_key : (k : Key) × (key_func t ≡ key k)

  abbrev pub Verdict : W × Reply (Error E) O → Type 0
  Verdict r =
      ((e : Error E) × (r ≡ refuse lib.zero_value e w))
      ⊎ ((t : Token Method Claims) × (Admitted t)
          × (r ≡ next (record ctx { claims = some t.claims }) request w))

  after_parse-Verdict :
      (s : Bytes) (p : Parsed Method Claims E)
      → KeepsKeys lib
      → ctx.token ≡ some s
      → lib.parse_with_claims s (checked_key lib key_func method) ≡ p
      → Verdict (after_parse lib next ctx request w p)
  after_parse-Verdict s (not_valid e) keeps c q = inl (classify e, refl)
  after_parse-Verdict s (failed e) keeps c q = inl (other e, refl)
  after_parse-Verdict s (parsed t) keeps c q = elim (Bool-cases t.valid) [
    | inr h ↦ inl (token_invalid, rw h)
    | inl h ↦
        let (k, e) = keeps.keyed s (checked_key lib key_func method) t q in
        let m = checked_key-key lib key_func method t k e in
        inr (
          t,
          record {
            string = s;
            in_context = c;
            is_parsed = q;
            is_valid = h;
            same = m.0;
            with_key = (k, m.1);
          },
          rw h,
        )
  ]

  new_parser_lem :
      (s : Bytes)
      → ctx.token ≡ some s
      → new_parser lib key_func method next ctx request w
        ≡ after_parse lib next ctx request w
            (lib.parse_with_claims s (checked_key lib key_func method))
  unfolding new_parser
  new_parser_lem s q = ground (arith, q)

  -- If the library gives tokens back only with a key, a request is refused with an error, and the
  -- next endpoint is not called; or its context holds a valid token of the expected signing
  -- method for which there is a key, and the next endpoint answers with the token's claims
  -- in the context.
  pub admits_only_valid :
      KeepsKeys lib → Verdict (new_parser lib key_func method next ctx request w)
  unfolding new_parser
  admits_only_valid keeps = elim (Option-cases ctx.token) [
    | inl q ↦ inl (token_context_missing, ground (arith, q))
    | inr (s, q) ↦
        let p = lib.parse_with_claims s (checked_key lib key_func method) in
        subst Verdict (sym (new_parser_lem s q)) (after_parse-Verdict s p keeps q refl)
  ]

module _ {W Q O Method Claims Key E : Type 0} (lib : Library O Method Claims Key E)
    (key_func : Keyfunc Method Claims Key E) (method : Method)
    (next : Endpoint W (Context Claims) Q (Error E) O) (client server : Context Claims)
    (string : Bytes) (t : Token Method Claims) (request : Q) (w : W) where
  -- A token with no space that a client has in its context reaches a server through the header of an
  -- HTTP request that has no Authorization header yet, or through any gRPC metadata; and if the
  -- library parses it there as valid, the next endpoint is called, in both cases, with the token and
  -- its claims in the context.
  pub token_travels :
      client.token ≡ some string
      → has_byte space string ≡ false
      → lib.parse_with_claims string (checked_key lib key_func method) ≡ parsed t
      → t.valid ≡ true
      → (md : Option (List Bytes))
      → let arrived : Context Claims = record { token = some string; claims = some t.claims } in
        (new_parser lib key_func method next
            (http_to_context server (context_to_http client (record { authorization = [] })))
            request
            w
          ≡ next arrived request w)
        × (ctx : Context Claims) × (grpc_to_context server (context_to_grpc client md) ≡ some ctx)
        × (new_parser lib key_func method next ctx request w ≡ next arrived request w)
  unfolding new_parser http_to_context context_to_http grpc_to_context context_to_grpc
  token_travels c n p v md = (
    ground (arith, c, extract-generate string, n, p, v),
    record server { token = some string },
    ground (arith, c, extract-generate string, n),
    ground (arith, p, v),
  )
