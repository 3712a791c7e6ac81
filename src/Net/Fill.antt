-- ===== src/Net/Fill.antt =====
-- A read of the connection in src/net/sb_net.c: `sbnet_alloc_cb`, then `sbnet_read_cb`.
pub mod Filled
use c_spock_bot.Prelude.{ℕ, ◌+◌, ◌%◌, ◌^◌, List, [], ◌∷◌, length, Bool, Option, none, some}
use c_spock_bot.Outcome.{Outcome, ok, ◌>>=◌, unless_exit}
use c_spock_bot.Net.Buffer.{Bbuf, make_room}
use c_spock_bot.Net.Read.{Netcore, Outside, Effect, End, exits, returns, read_cb}

-- The buffer that libuv is given: where it begins in `read_buf`, and its length, which `uv_buf_init`
-- takes as an `unsigned int`.
pub record Asked : Type 0 where
  pub start : ℕ
  pub len : ℕ

-- `sbnet_alloc_cb`; `none` is an `exit`.
unfoldable pub alloc_cb :
    (List ℕ → ℕ → Option (List ℕ)) → Netcore → ℕ → Outcome (Option (Asked × Netcore))
alloc_cb realloc net size = do
  r ← make_room realloc net.read_buf size
  unless_exit r (λ buf. ok (
      some (
        record { start = buf.cur + buf.in_use; len = size % 2 ^ 32 },
        record net { read_buf = buf },
      )))

module _ (outside : Outside) where
  -- libuv asks for room for `size` bytes, and has read `bytes`; `held` says whether the plugin's lock
  -- is held, before and after.
  unfoldable pub fill :
      (List ℕ → ℕ → Option (List ℕ))
      → Bool
      → Netcore
      → ℕ
      → List ℕ
      → Outcome (List (Effect outside) × Bool × End outside)
  fill realloc held net size bytes = do
    r ← alloc_cb realloc net size
    elim r [
      | none ↦ ok ([], held, exits)
      | some (_, net) ↦ read_cb outside held net (length bytes) bytes
    ]

  -- The reads of a connection one after the other, with the effects of each, until an `exit`.
  unfoldable pub fills :
      (List ℕ → ℕ → Option (List ℕ))
      → Bool
      → Netcore
      → ℕ
      → List (List ℕ)
      → Outcome (List (List (Effect outside)) × Bool × End outside)
  fills realloc held net size [] = ok ([], held, returns net)
  fills realloc held net size (bytes ∷ later) = do
    (effects, held, end) ← fill realloc held net size bytes
    elim end [
      | exits ↦ ok (effects ∷ [], held, exits)
      | returns net ↦ (do
        (more, held, end) ← fills realloc held net size later
        ok (effects ∷ more, held, end))
    ]
