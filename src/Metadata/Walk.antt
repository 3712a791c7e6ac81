-- ===== src/Metadata/Walk.antt =====
-- `walk_metadata` and `count_metatags`.
use c_spock_bot.Prelude.{ℕ, zero, suc, ◌+◌, ◌^◌, List, length, drop, leb, ◌==◌}
use c_spock_bot.Prelude.{if◌then◌else◌, sub_size}
use c_spock_bot.Outcome.{Outcome, ok, err, null, fault, stuck, ◌>>=◌, to_int}
use c_spock_bot.Numeric.{dec_byte}
use c_spock_bot.Varnum.{walk_varint, dec_varint}
use c_spock_bot.Text.{walk_string}
use c_spock_bot.Slot.{walk_slot}
use c_spock_bot.Nbt.{walk_nbt}
use c_spock_bot.Particle.{walk_particle}
use c_spock_bot.Metadata.{
  Kind, byte, varint, float, string, optchat, slot, rotation, position, optposition, optuuid, nbt,
  particle, villagerdata, optvarint, unknown, kind,
}

-- What the `switch` leaves in `size`, `source`, `max_len` and `total`.
pub record Walked : Type 0 where
  pub size : ℕ
  pub source : List ℕ
  pub max_len : ℕ
  pub total : ℕ

-- A case that only sets `size`.
abbrev pub sized : List ℕ → ℕ → ℕ → ℕ → Outcome Walked
sized source max_len total size =
    ok (record { size = size; source = source; max_len = max_len; total = total })

-- `if(*source) { if((ret = walk(source + 1, max_len - 1)) < 0) return ret; size += ret; }`
unfoldable pub walk_optional : (List ℕ → ℕ → Outcome ℕ) → List ℕ → ℕ → Outcome ℕ
walk_optional walk source max_len = do
  (opt, next) ← dec_byte source
  if opt == 0 then ok 1 else (do ret ← walk next (sub_size max_len 1); ok (1 + ret))

-- A round of the loop of `meta_villagerdata`.
unfoldable pub walk_villager : ℕ → List ℕ → ℕ → ℕ → Outcome Walked
walk_villager zero source max_len total = sized source max_len total 0
walk_villager (suc n) source max_len total = do
  ret ← walk_varint source max_len
  walk_villager n (drop ret source) (sub_size max_len ret) (total + ret)

unfoldable pub walk_kind : Kind → List ℕ → ℕ → ℕ → Outcome Walked
unfolding walk_optional walk_villager
walk_kind byte source max_len total = sized source max_len total 1
walk_kind varint source max_len total = do
  size ← walk_varint source max_len
  sized source max_len total size
walk_kind float source max_len total = sized source max_len total 4
walk_kind string source max_len total = do
  size ← walk_string source max_len
  sized source max_len total size
walk_kind optchat source max_len total = do
  size ← walk_optional walk_string source max_len
  sized source max_len total size
walk_kind slot source max_len total = do
  size ← walk_slot source max_len
  sized source max_len total size
walk_kind rotation source max_len total = sized source max_len total 12
walk_kind position source max_len total = sized source max_len total 8
walk_kind optposition source max_len total = do
  size ← walk_optional (λ _ _. ok 8) source max_len
  sized source max_len total size
walk_kind optuuid source max_len total = do
  size ← walk_optional (λ _ _. ok 16) source max_len
  sized source max_len total size
walk_kind nbt source max_len total = do
  size ← walk_nbt source max_len
  sized source max_len total size
walk_kind particle source max_len total = do
  size ← walk_particle source max_len
  sized source max_len total size
walk_kind villagerdata source max_len total = walk_villager 3 source max_len total
walk_kind optvarint source max_len total = do
  size ← walk_optional walk_varint source max_len
  sized source max_len total size
walk_kind unknown source max_len total = err 0

-- The `for` loop, on fuel. Each round takes the byte of the index at least.
unfoldable pub walk_metadata_loop : ℕ → List ℕ → ℕ → ℕ → Outcome ℕ
walk_metadata_loop zero source max_len total = stuck
walk_metadata_loop (suc fuel) source max_len total = do
  (index, source) ← dec_byte source
  if index == 0xff then to_int (total + 1) else (do
    let max_len = sub_size max_len 1
    ret ← walk_varint source max_len
    (type, source) ← dec_varint source
    w ← walk_kind (kind type) source (sub_size max_len ret) (total + 1 + ret)
    if leb w.max_len w.size
        then err 0
        else walk_metadata_loop fuel (drop w.size w.source) (sub_size w.max_len w.size)
            (w.total + w.size))

unfoldable pub walk_metadata : List ℕ → ℕ → Outcome ℕ
walk_metadata source max_len =
    if max_len == 0 then err 0 else walk_metadata_loop (suc (length source)) source max_len 0

-- `2 ^ 30`, where no bound is wanted.
abbrev pub no_overflow : ℕ
no_overflow = 2 ^ 30

-- `source += walk(...)`. A negative result moves the pointer back, where the list of the bytes ahead
-- does not reach: a fault of the model.
abbrev pub advance : List ℕ → Outcome ℕ → Outcome (List ℕ)
advance source (ok n) = ok (drop n source)
advance source (err k) = fault
advance source null = fault
advance source fault = fault
advance source stuck = stuck

-- `if(*source++) source += ...;`
unfoldable pub skip_optional : (List ℕ → Outcome (List ℕ)) → List ℕ → Outcome (List ℕ)
skip_optional skip source = do
  (opt, source) ← dec_byte source
  if opt == 0 then ok source else skip source

abbrev pub skip_varint : List ℕ → Outcome (List ℕ)
skip_varint source = advance source (walk_varint source no_overflow)

unfoldable pub skip_kind : Kind → List ℕ → Outcome (List ℕ)
unfolding skip_optional
skip_kind byte source = ok (drop 1 source)
skip_kind varint source = skip_varint source
skip_kind float source = ok (drop 4 source)
skip_kind string source = advance source (walk_string source no_overflow)
skip_kind optchat source = skip_optional (λ s. advance s (walk_string s no_overflow)) source
skip_kind slot source = advance source (walk_slot source no_overflow)
skip_kind rotation source = ok (drop 12 source)
skip_kind position source = ok (drop 8 source)
skip_kind optposition source = skip_optional (λ s. ok (drop 8 s)) source
skip_kind optuuid source = skip_optional (λ s. ok (drop 16 s)) source
skip_kind nbt source = advance source (walk_nbt source no_overflow)
skip_kind particle source = advance source (walk_particle source no_overflow)
skip_kind villagerdata source = do
  source ← skip_varint source
  source ← skip_varint source
  skip_varint source
skip_kind optvarint source = skip_optional skip_varint source
skip_kind unknown source = fault

-- `default: return 0;` gives up the count so far.
unfoldable pub count_kind : Kind → List ℕ → (List ℕ → Outcome ℕ) → Outcome ℕ
count_kind unknown source next = ok 0
count_kind byte source next = next (drop 1 source)
count_kind k source next = do source ← skip_kind k source; next source

unfoldable pub count_metatags_loop : ℕ → List ℕ → ℕ → Outcome ℕ
count_metatags_loop zero source count = stuck
count_metatags_loop (suc fuel) source count = do
  (index, source) ← dec_byte source
  if index == 0xff then ok count else (do
    (type, source) ← dec_varint source
    count_kind (kind type) source (λ s. count_metatags_loop fuel s (count + 1)))

unfoldable pub count_metatags : List ℕ → Outcome ℕ
count_metatags source = count_metatags_loop (suc (length source)) source 0
