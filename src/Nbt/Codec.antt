-- ===== src/Nbt/Codec.antt =====
-- `enc_nbt`, `dec_nbt` and the optional trees of src/datautils.c, over the vendored cNBT.
use c_spock_bot.Prelude.{ℕ, ◌≡◌, ◌++◌, arith, List, ◌∷◌, Option, none, some, ◌==◌, if◌then◌else◌}
use c_spock_bot.Outcome.{Outcome, ok, err, null, ◌>>=◌}
use c_spock_bot.Numeric.{enc_byte, dec_byte}
use c_spock_bot.Nbt.{NbtNode, size_nbt, walk_nbt}
use c_spock_bot.Library.{Library}

unfoldable pub walk_optnbt : List ℕ → ℕ → Outcome ℕ
walk_optnbt source max_len =
    if max_len == 0
    then err 0
    else do (type, _) ← dec_byte source; if type == 10 then walk_nbt source max_len else ok 1

unfoldable pub size_optnbt : Option NbtNode → ℕ
size_optnbt none = 1
size_optnbt (some nbt) = size_nbt nbt

module _ (lib : Library) where
  open lib use {nbt_dump_binary, nbt_parse2}

  unfoldable pub enc_nbt : NbtNode → List ℕ
  enc_nbt source = nbt_dump_binary source

  -- NULL from the parser is handed on.
  abbrev pub parsed : Option (NbtNode × List ℕ) → Outcome (NbtNode × List ℕ)
  parsed none = null
  parsed (some r) = ok r

  unfoldable pub dec_nbt : List ℕ → Outcome (NbtNode × List ℕ)
  dec_nbt source = parsed (nbt_parse2 source)

  unfoldable pub enc_optnbt : Option NbtNode → List ℕ
  unfolding enc_byte enc_nbt
  enc_optnbt none = enc_byte 0
  enc_optnbt (some source) = enc_nbt source

  unfoldable pub dec_optnbt : List ℕ → Outcome (Option NbtNode × List ℕ)
  unfolding dec_nbt
  dec_optnbt source = do
    (type, next) ← dec_byte source
    if type == 10 then (do (nbt, rest) ← dec_nbt source; ok (some nbt, rest)) else ok (none, next)

  -- The parser gives back the tree that was dumped, and stops behind it. The first byte of a dump is
  -- the type of its root, a compound.
  pub record Restores (nbt : NbtNode) (rest : List ℕ) : Type 0 where
    pub tail : List ℕ
    pub starts : nbt_dump_binary nbt ≡ 10 ∷ tail
    pub parses : nbt_parse2 (nbt_dump_binary nbt ++ rest) ≡ some (nbt, rest)

  -- The condition on an optional tree: nothing where there is none.
  abbrev pub RestoresOpt : Option NbtNode → List ℕ → Type 0
  RestoresOpt none rest = Unit {0}
  RestoresOpt (some nbt) rest = Restores nbt rest

  -- An optional tree comes back from `dec_optnbt` as it was given to `enc_optnbt`, a missing one too,
  -- if the parser restores the tree that was dumped.
  pub dec_optnbt-enc_optnbt :
      (nbt : Option NbtNode) (rest : List ℕ)
      → RestoresOpt nbt rest
      → dec_optnbt (enc_optnbt nbt ++ rest) ≡ ok (nbt, rest)
  unfolding dec_optnbt enc_optnbt dec_byte
  dec_optnbt-enc_optnbt none rest h = ground arith
  dec_optnbt-enc_optnbt (some nbt) rest h = ground (arith, h.starts, h.parses)
