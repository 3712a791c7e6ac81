-- ===== src/Tests/Net.antt =====
-- A read buffer of six bytes, and a packet header.
use c_spock_bot.Prelude.{ℕ, zero, suc, ◌-◌, refl, arith, List, [], ◌∷◌, ◌++◌, length, Option, some}
use c_spock_bot.Net.Buffer.{Bbuf}
use c_spock_bot.Net.Buffer.Stream.{Holds}
use c_spock_bot.Net.Buffer.Room.{Extends}

-- One byte was taken, three wait, two are room.
abbrev buffer : Bbuf
buffer = record {
  memory = 9 ∷ (1 ∷ (2 ∷ (3 ∷ (0 ∷ (0 ∷ [])))));
  cur = 1;
  len = 6;
  in_use = 3;
  rem = 2;
}

buffer-Holds : Holds buffer (1 ∷ 2 ∷ 3 ∷ [])
buffer-Holds = record {
  taken = 9 ∷ [];
  room = 0 ∷ 0 ∷ [];
  layout = refl;
  at_cur = refl;
  counted = refl;
  left = refl;
  whole = refl;
  bounded = omega arith;
}

-- An allocator that fills what it adds with zeros.
abbrev zeros : ℕ → List ℕ
zeros zero = []
zeros (suc n) = 0 ∷ zeros n

abbrev realloc : List ℕ → ℕ → Option (List ℕ)
realloc memory size = some (memory ++ zeros (size - length memory))

buffer-Extends : Extends realloc (1 ∷ 2 ∷ 3 ∷ 3 ∷ 0 ∷ 0 ∷ []) 11
buffer-Extends = record { added = zeros 5; succeeds = refl; sized = refl }
