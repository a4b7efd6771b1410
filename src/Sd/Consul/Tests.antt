-- ===== src/Sd/Consul/Tests.antt =====
-- The theorems about sd/consul/instancer.go at concrete answers of Consul.
use yoroi.Prelude.{ℕ, zero, suc, String, List, [], ◌∷◌, Bool, false}
use yoroi.Sd.Consul.{Entry, Answer, failed, answered, Loop, first_wait}

abbrev text : ℕ → String
text n = "80"

abbrev both : List (Entry ℕ)
both =
    record { tags = "web" ∷ "v1" ∷ []; node_address = "10.0.0.1"; service_address = ""; port = 80 }
    ∷ record {
      tags = "v2" ∷ "web" ∷ [];
      node_address = "10.0.0.2";
      service_address = "b";
      port = 80;
    }
    ∷ []

-- The first call fails, and then the index is too small once.
abbrev answers : ℕ → Answer ℕ
answers zero = failed "no leader"
answers (suc zero) = answered both 3
answers (suc (suc k)) = answered both 5

abbrev service : ℕ → String → ℕ → Answer ℕ
service k tag wait = answers k

abbrev never : ℕ → Bool
never k = false

abbrev doubled : ℕ → ℕ → ℕ
doubled k d = d

abbrev entries_of : Answer ℕ → List (Entry ℕ)
entries_of (failed err) = []
entries_of (answered entries index) = entries

-- The index goes back to 3.
abbrev waiting : Loop
waiting = record { last_index = 4; d = first_wait; updates = []; returned = false; calls = 1 }

abbrev found : List String
found = "10.0.0.1:80" ∷ "b:80" ∷ []
