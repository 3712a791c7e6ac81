-- ===== src/Library.antt =====
-- What src/datautils.c takes from outside it: the strings of sds, the trees of cNBT, and `malloc`.
use c_spock_bot.Prelude.{ℕ, ◌≡◌, Bool, List, length, All, IsByte, Option}
use c_spock_bot.Nbt.{NbtNode}

-- `content s` is what a `memcpy` from the string reads. `nbt_dump_binary` is the data of the buffer
-- that it returns; `nbt_parse2` also advances the pointer, and `none` is NULL. `malloc n` says
-- whether an allocation of `n` bytes succeeds.
pub record Library : Type 1 where
  pub Str : Type 0
  pub sdslen : Str → ℕ
  pub content : Str → List ℕ
  pub sdsnewlen : List ℕ → Str
  pub nbt_dump_binary : NbtNode → List ℕ
  pub nbt_parse2 : List ℕ → Option (NbtNode × List ℕ)
  pub malloc : ℕ → Bool
  pub length-content : (s : Str) → length (content s) ≡ sdslen s
  pub content-IsByte : (s : Str) → All IsByte (content s)
  pub sdsnewlen-content : (s : Str) → sdsnewlen (content s) ≡ s
