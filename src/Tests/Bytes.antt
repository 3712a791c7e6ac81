-- ===== src/Tests/Bytes.antt =====
-- A test that a concrete list holds bytes.
use c_spock_bot.Prelude.{ℕ, ◌≡◌, arith, Bool, true, ◌&&◌, List, [], ◌∷◌, ltb, All, IsByte}

abbrev pub all_bytes : List ℕ → Bool
all_bytes [] = true
all_bytes (b ∷ source) = ltb b 256 && all_bytes source

pub all_bytes-IsByte : (source : List ℕ) → all_bytes source ≡ true → All IsByte source
all_bytes-IsByte [] h = tt
all_bytes-IsByte (b ∷ source) h = (ground arith, all_bytes-IsByte source (ground arith))
