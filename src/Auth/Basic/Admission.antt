-- ===== src/Auth/Basic/Admission.antt =====
-- Whom auth/basic/middleware.go lets through.
use yoroi.Prelude.{
  ◌≡◌, ◌⊎◌, inl, inr, refl, ap, ◌∙◌, true, false, Option, none, some, [], ◌∷◌, ◌++◌, arith,
  Option-cases, Bool-cases,
}
use yoroi.Endpoint.{Reply, Endpoint}
use yoroi.Auth.Bytes.{
  Bytes, cut_prefix, has_byte, cut_prefix-append, cut_prefix-some, split_at-append, split_at-some,
}
use yoroi.Auth.Basic.{
  Platform, Required, prefix, colon, constant_time_compare, parse_basic_auth, Error, deny,
  check_credentials, auth_middleware,
}

-- Equal contents, and nothing else, compare equal.
pub constant_time_compare-eq : (xs ys : Bytes) → constant_time_compare xs ys ≡ true → xs ≡ ys
unfolding constant_time_compare
constant_time_compare-eq [] [] h = refl
constant_time_compare-eq (x ∷ xs) (y ∷ ys) h = ground (arith, constant_time_compare-eq xs ys)
constant_time_compare-eq [] (y ∷ ys) h = cc
constant_time_compare-eq (x ∷ xs) [] h = cc

pub constant_time_compare_refl : (xs : Bytes) → constant_time_compare xs xs ≡ true
unfolding constant_time_compare
constant_time_compare_refl [] = refl
constant_time_compare_refl (x ∷ xs) = ground (arith, constant_time_compare_refl xs)

module _ (decode_base64 : Bytes → Option Bytes) where
  pub parse_basic_auth-some :
      (auth u p : Bytes)
      → parse_basic_auth decode_base64 auth ≡ some (u, p)
      → (rest : Bytes) × (auth ≡ prefix ++ rest)
        × (decode_base64 rest ≡ some (u ++ colon ∷ p))
        × (has_byte colon u ≡ false)
  unfolding parse_basic_auth
  parse_basic_auth-some auth u p h = elim (Option-cases (cut_prefix prefix auth)) [
    | inl q ↦ absurd (ground (arith, q))
    | inr (rest, q) ↦ elim (Option-cases (decode_base64 rest)) [
      | inl d ↦ absurd (ground (arith, q, d))
      | inr (c, d) ↦
          let s = split_at-some colon c u p (ground (arith, q, d)) in
          (rest, cut_prefix-some prefix auth rest q, d ∙ ap some s.0, s.1)
    ]
  ]

  -- A header made of the prefix and an encoding of user, colon and password, the user without a
  -- colon, is taken apart again.
  pub parse_basic_auth-append :
      (rest u p : Bytes)
      → decode_base64 rest ≡ some (u ++ colon ∷ p)
      → has_byte colon u ≡ false
      → parse_basic_auth decode_base64 (prefix ++ rest) ≡ some (u, p)
  unfolding parse_basic_auth
  parse_basic_auth-append rest u p d n =
      rw (cut_prefix-append prefix rest, parse_basic_auth, d) (split_at-append colon u p n)

-- The context carries these credentials, and their hashes are the required ones.
pub record Presents {C O : Type 0} (pf : Platform C O) (required : Required) (ctx : C)
    (user password : Bytes) : Type 0 where
  pub rest : Bytes
  pub header : pf.authorization ctx ≡ some (prefix ++ rest)
  pub decoded : pf.decode_base64 rest ≡ some (user ++ colon ∷ password)
  pub no_colon : has_byte colon user ≡ false
  pub user_hash : pf.sha256 user ≡ pf.sha256 required.user
  pub password_hash : pf.sha256 password ≡ pf.sha256 required.password

module _ {W C Q E O : Type 0} (pf : Platform C O) (required : Required)
    (next : Endpoint W C Q (Error E) O) (ctx : C) (request : Q) (w : W) where
  abbrev pub Verdict : W × Reply (Error E) O → Type 0
  Verdict r =
      (r ≡ deny pf required.realm w)
      ⊎ ((user : Bytes) × (password : Bytes) × (Presents pf required ctx user password)
          × (r ≡ next ctx request w))

  checked :
      (auth : Bytes) (r : Option (Bytes × Bytes))
      → pf.authorization ctx ≡ some auth
      → parse_basic_auth pf.decode_base64 auth ≡ r
      → Verdict (check_credentials pf required next ctx request w r)
  checked auth none a q = inl refl
  checked auth (some (u, p)) a q =
      elim (Bool-cases (constant_time_compare (pf.sha256 u) (pf.sha256 required.user))) [
        | inr h ↦ inl (rw h)
        | inl h ↦
            elim (Bool-cases (constant_time_compare (pf.sha256 p) (pf.sha256 required.password))) [
              | inr k ↦ inl (rw (h, k))
              | inl k ↦
                  let (rest, e, d, n) = parse_basic_auth-some pf.decode_base64 auth u p q in
                  inr (
                    u,
                    p,
                    record {
                      rest = rest;
                      header = a ∙ ap some e;
                      decoded = d;
                      no_colon = n;
                      user_hash = constant_time_compare-eq _ _ h;
                      password_hash = constant_time_compare-eq _ _ k;
                    },
                    rw (h, k),
                  )
            ]
      ]

  -- A request is answered with the unauthorized error for the realm, and the next endpoint is not
  -- called; or the context carries a header `Basic ` with credentials whose hashes are those of
  -- the required user and password, and the answer is that of the next endpoint.
  pub admits_only_required : Verdict (auth_middleware pf required next ctx request w)
  unfolding auth_middleware
  admits_only_required = elim (Option-cases (pf.authorization ctx)) [
    | inl q ↦ inl (rw (q, auth_middleware))
    | inr (auth, q) ↦
        rw (q, auth_middleware) (checked auth (parse_basic_auth pf.decode_base64 auth) q refl)
  ]

  -- Whoever presents the required credentials gets through.
  pub admits_required :
      (user password : Bytes)
      → Presents pf required ctx user password
      → auth_middleware pf required next ctx request w ≡ next ctx request w
  unfolding auth_middleware
  admits_required user password c = rw (
    c.header,
    auth_middleware,
    parse_basic_auth-append pf.decode_base64 c.rest user password c.decoded c.no_colon,
    c.user_hash,
    c.password_hash,
    constant_time_compare_refl (pf.sha256 required.user),
    constant_time_compare_refl (pf.sha256 required.password),
  )
