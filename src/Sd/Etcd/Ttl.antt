-- ===== src/Sd/Etcd/Ttl.antt =====
-- `NewTTLOption` of sd/etcd/registrar.go. A time.Duration is the bit pattern of an int64.
use yoroi.Prelude.{ℕ, ◌+◌, ◌*◌, ◌%◌, ◌^◌, ◌≤◌, ◌<◌, Bool, arith, ltb, not, if◌then◌else◌}

abbrev pub word : ℕ
word = 2 ^ 64

-- a <= b for the numbers of two patterns
abbrev pub leq : ℕ → ℕ → Bool
leq a b = not (ltb ((b + 2 ^ 63) % word) ((a + 2 ^ 63) % word))

abbrev pub min_heart_beat_time : ℕ
min_heart_beat_time = 500_000_000

pub record TtlOption : Type 0 where
  pub heartbeat : ℕ
  pub ttl : ℕ

abbrev pub at_least : ℕ → ℕ
at_least heartbeat = if leq heartbeat min_heart_beat_time then min_heart_beat_time else heartbeat

abbrev pub beyond : ℕ → ℕ → ℕ
beyond heartbeat ttl = if leq ttl heartbeat then 3 * heartbeat % word else ttl

unfoldable pub new_ttl_option : ℕ → ℕ → TtlOption
new_ttl_option heartbeat ttl = record {
  heartbeat = at_least heartbeat;
  ttl = beyond (at_least heartbeat) ttl;
}

-- Whatever durations are given, negative ones included, the heartbeat is at least half a second and
-- positive, and if it is at most a third of the longest duration then the time to live is longer.
pub new_ttl_option_bounds :
    (heartbeat ttl : ℕ)
    → heartbeat < word
    → ttl < word
    → let o = new_ttl_option heartbeat ttl in
      (min_heart_beat_time ≤ o.heartbeat)
      × (o.heartbeat < 2 ^ 63)
      × (3 * o.heartbeat < 2 ^ 63 → (o.heartbeat < o.ttl) × (o.ttl < 2 ^ 63))
unfolding new_ttl_option
new_ttl_option_bounds heartbeat ttl h k = ground arith
