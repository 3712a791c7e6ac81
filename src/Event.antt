-- ===== src/Event.antt =====
-- The callbacks of an event in src/event/sb_event.c.
pub mod Callbacks
pub mod Emit
pub mod Loop
pub mod Table
use c_spock_bot.Prelude.{
  ℕ, zero, suc, ◌+◌, ◌*◌, ◌%◌, ◌^◌, List, [], ◌∷◌, ◌++◌, length, ltb, ◌==◌, if◌then◌else◌,
}
use c_spock_bot.Prelude.{Bool, Option, none, some}
use c_spock_bot.Outcome.{Outcome, ok, fault, ◌>>=◌, unless_exit}

-- A callback with its data has two words, a handle one.
abbrev pub cb_size : ℕ
cb_size = 16

abbrev pub handle_size : ℕ
handle_size = 8

module _ (Cb : Type 0) where
  -- `sbev_event_entry`. `cbs` has the `cur` callbacks in use, with `none` for a NULL; `max` is how many
  -- there is memory for. `free_handles` is the stack of that name, the top first, `free_max` its size.
  pub record Entry : Type 0 where
    pub cbs : List (Option Cb)
    pub max : ℕ
    pub free_handles : List ℕ
    pub free_max : ℕ

  -- `cbs[i].cb`, read and written.
  unfoldable pub callback : List (Option Cb) → ℕ → Outcome (Option Cb)
  callback [] i = fault
  callback (c ∷ cbs) zero = ok c
  callback (c ∷ cbs) (suc i) = callback cbs i

  unfoldable pub put : List (Option Cb) → ℕ → Option Cb → Outcome (List (Option Cb))
  put [] i c' = fault
  put (c ∷ cbs) zero c' = ok (c' ∷ cbs)
  put (c ∷ cbs) (suc i) c' = do cbs ← put cbs i c'; ok (c ∷ cbs)

  -- The end of `sbev_reg_cb` where no handle is free: a store at `cur`, which must lie in the array.
  abbrev pub store_cb : Entry → Cb → Outcome (Option (ℕ × Entry))
  store_cb ent cb =
      let cur = length ent.cbs in
      if ltb cur ent.max
      then ok (some (cur, record ent { cbs = ent.cbs ++ (some cb ∷ []) }))
      else fault

  -- `sbev_reg_cb` where no handle is free. `realloc size` says whether the memory is given; `none` is
  -- the `exit` of `CHK_ALLOC`.
  unfoldable pub append_cb : (ℕ → Bool) → Entry → Cb → Outcome (Option (ℕ × Entry))
  append_cb realloc ent cb =
      let max = ent.max * 2 % 2 ^ 64 in
      if length ent.cbs == ent.max
      then if realloc (cb_size * max % 2 ^ 64)
        then store_cb (record ent { max = max }) cb
        else ok none
      else store_cb ent cb

  -- The body of `sbev_reg_cb` between its locks, by the stack of free handles.
  unfoldable pub reg_free : (ℕ → Bool) → Entry → Cb → List ℕ → Outcome (Option (ℕ × Entry))
  reg_free realloc ent cb [] = append_cb realloc ent cb
  reg_free realloc ent cb (ent_handle ∷ free) = do
    cbs ← put ent.cbs ent_handle (some cb)
    ok (some (ent_handle, record ent { cbs = cbs; free_handles = free }))

  unfoldable pub reg_cb : (ℕ → Bool) → Entry → Cb → Outcome (Option (ℕ × Entry))
  reg_cb realloc ent cb = reg_free realloc ent cb ent.free_handles

  -- `if(ent->free_cur == ent->free_max) ...`
  abbrev pub grow_free : (ℕ → Bool) → Entry → Option Entry
  grow_free realloc ent =
      let free_max = ent.free_max * 2 % 2 ^ 64 in
      if length ent.free_handles == ent.free_max
      then if realloc (handle_size * free_max % 2 ^ 64)
        then some (record ent { free_max = free_max })
        else none
      else some ent

  -- `sbev_unreg_cb` between its locks. The handle is stored at `free_cur`, which must lie in the array.
  unfoldable pub unreg_cb : (ℕ → Bool) → Entry → ℕ → Outcome (Option Entry)
  unreg_cb realloc ent ent_handle = unless_exit (grow_free realloc ent) (λ ent. do
    cbs ← put ent.cbs ent_handle none
    if ltb (length ent.free_handles) ent.free_max
        then ok (some (record ent { cbs = cbs; free_handles = ent_handle ∷ ent.free_handles }))
        else fault)
