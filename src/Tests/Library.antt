-- ===== src/Tests/Library.antt =====
-- A concrete library: strings over two letters, and a cNBT that knows the empty compound.
use c_spock_bot.Prelude.{
  ℕ, ◌≡◌, refl, arith, Bool, true, false, List, [], ◌∷◌, length, drop, All, IsByte,
}
use c_spock_bot.Prelude.{some, ltb, ◌==◌}
use c_spock_bot.Nbt.{NbtNode, node, tag_compound, nil}
use c_spock_bot.Library.{Library}

abbrev pub letter : Bool → ℕ
letter true = 97
letter false = 98

abbrev pub letters : List Bool → List ℕ
letters [] = []
letters (b ∷ bs) = letter b ∷ letters bs

abbrev pub from_letters : List ℕ → List Bool
from_letters [] = []
from_letters (c ∷ cs) = (c == 97) ∷ from_letters cs

pub length-letters : (s : List Bool) → length (letters s) ≡ length s
length-letters [] = refl
length-letters (b ∷ s) = omega (arith, length-letters s)

pub letters-IsByte : (s : List Bool) → All IsByte (letters s)
letters-IsByte [] = tt
letters-IsByte (true ∷ s) = (omega arith, letters-IsByte s)
letters-IsByte (false ∷ s) = (omega arith, letters-IsByte s)

pub from_letters-letters : (s : List Bool) → from_letters (letters s) ≡ s
from_letters-letters [] = refl
from_letters-letters (true ∷ s) = rw (from_letters-letters s)
from_letters-letters (false ∷ s) = rw (from_letters-letters s)

abbrev pub empty_compound : NbtNode
empty_compound = node (some []) (tag_compound nil)

abbrev pub library : Library
library = record {
  Str = List Bool;
  sdslen = length;
  content = letters;
  sdsnewlen = from_letters;
  nbt_dump_binary = λ _. 10 ∷ (0 ∷ (0 ∷ (0 ∷ [])));
  nbt_parse2 = λ source. some (empty_compound, drop 4 source);
  malloc = λ n. ltb n 4096;
  length-content = length-letters;
  content-IsByte = letters-IsByte;
  sdsnewlen-content = from_letters-letters;
}
