-- ===== src/Transport/Jsonrpc/Client/Ids.antt =====
-- The identifiers of transport/http/jsonrpc/client.go: NewAutoIncrementID.
use yoroi.Prelude.{ℕ, zero, suc, ◌+◌, ◌-◌, ◌%◌, ◌^◌, ◌<◌, ◌≡◌, ◌≢◌, arith}
use yoroi.Transport.Jsonrpc.Client.{new_auto_increment_id, generate}

-- The variable after `n` calls of Generate.
abbrev pub after : ℕ → ℕ → ℕ
after v zero = v
after v (suc n) = (generate (after v n)).0

-- What the call after `n` others returns.
abbrev pub nth : ℕ → ℕ → ℕ
nth v n = (generate (after v n)).1

after_lem : (init n : ℕ) → after (new_auto_increment_id init) n ≡ (init + n + (2 ^ 64 - 1)) % 2 ^ 64
unfolding new_auto_increment_id generate
after_lem init zero = omega arith
after_lem init (suc n) = omega (arith, after_lem init n)

nth_lem : (init n : ℕ) → nth (new_auto_increment_id init) n ≡ (init + n) % 2 ^ 64
unfolding generate
nth_lem init n = omega (arith, after_lem init n)

-- The generator yields the number it was made with, and then one after the other, modulo 2^64; and any two
-- of 2^64 calls in succession yield different ones.
pub ids_differ :
    (init : ℕ)
    → init < 2 ^ 64
    → (nth (new_auto_increment_id init) 0 ≡ init)
      × ((n : ℕ) → nth (new_auto_increment_id init) n ≡ (init + n) % 2 ^ 64)
      × ((m n : ℕ)
          → m < n
          → n < m + 2 ^ 64
          → nth (new_auto_increment_id init) m ≢ nth (new_auto_increment_id init) n)
ids_differ init b = (
  omega (arith, nth_lem init 0, b),
  nth_lem init,
  λ m n l k e. omega (arith, l, k, e, nth_lem init m, nth_lem init n),
)
