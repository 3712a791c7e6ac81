-- ===== src/Net/Buffer.antt =====
-- The read buffer of src/net/sb_net.c, `sbnet_bbuf`.
pub mod Room
pub mod Stream
use c_spock_bot.Prelude.{
  ℕ, ◌+◌, ◌-◌, List, ◌++◌, length, take, drop, ltb, leb, if◌then◌else◌, add_size,
}
use c_spock_bot.Prelude.{sub_size, Option, none, some}
use c_spock_bot.Outcome.{Outcome, ok, err, ◌>>=◌}
use c_spock_bot.Numeric.{read}

-- `memory` is what `base` names, and `cur` the distance from `base`.
pub record Bbuf : Type 0 where
  pub memory : List ℕ
  pub cur : ℕ
  pub len : ℕ
  pub in_use : ℕ
  pub rem : ℕ

unfoldable pub recv_bbuf : Bbuf → ℕ → Outcome (List ℕ × Bbuf)
recv_bbuf src len = if ltb src.in_use len then err 0 else (do
  (dest, _) ← read len (drop src.cur src.memory)
  ok (dest, record src { cur = src.cur + len; in_use = src.in_use - len }))

unfoldable pub adv_bbuf : Bbuf → ℕ → Outcome Bbuf
adv_bbuf buf dist =
    if ltb buf.in_use dist
    then err 0
    else ok (record buf { cur = buf.cur + dist; in_use = buf.in_use - dist })

-- `buf->cur = memmove(buf->base, buf->cur, buf->in_use); buf->rem = buf->len - buf->in_use;`
unfoldable pub compact : Bbuf → Outcome Bbuf
compact buf = do
  (moved, _) ← read buf.in_use (drop buf.cur buf.memory)
  ok (record buf {
    memory = moved ++ drop buf.in_use buf.memory;
    cur = 0;
    rem = sub_size buf.len buf.in_use;
  })

-- The end of `sbnet_bbuf_make_room`, with what `realloc` returned; `none` is the `exit` of
-- `CHK_ALLOC`.
abbrev pub regrown : Bbuf → ℕ → ℕ → Option (List ℕ) → Option Bbuf
regrown buf size len none = none
regrown buf size len (some memory) =
    some (record buf { memory = memory; cur = 0; len = size; rem = len })

unfoldable pub grow : (List ℕ → ℕ → Option (List ℕ)) → Bbuf → ℕ → Option Bbuf
grow realloc buf len =
    let size = add_size buf.in_use len in regrown buf size len (realloc buf.memory size)

unfoldable pub make_room : (List ℕ → ℕ → Option (List ℕ)) → Bbuf → ℕ → Outcome (Option Bbuf)
make_room realloc buf len = if leb len buf.rem then ok (some buf) else (do
  buf ← compact buf
  if leb len buf.rem then ok (some buf) else ok (grow realloc buf len))

-- libuv writes what it read where `sbnet_alloc_cb` pointed it, and `sbnet_read_cb` counts it.
unfoldable pub received : Bbuf → List ℕ → Bbuf
received buf bytes =
    let last = buf.cur + buf.in_use in
    record buf {
      memory = take last buf.memory ++ (bytes ++ drop (last + length bytes) buf.memory);
      in_use = buf.in_use + length bytes;
      rem = buf.rem - length bytes;
    }
