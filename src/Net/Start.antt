-- ===== src/Net/Start.antt =====
-- `sbnet_init_net` of src/net/sb_net.c: the state, the read buffer, and an event for each packet.
pub mod Each
pub mod Handles
pub mod Ready
use c_spock_bot.Prelude.{
  ℕ, zero, suc, ◌*◌, ◌%◌, ◌^◌, ◌≡◌, List, [], ◌∷◌, length, ◌==◌, if◌then◌else◌, Bool, true, false,
  Option, none, some,
}
use c_spock_bot.Outcome.{Outcome, ok, err, fault, ◌>>=◌, unless_exit}
use c_spock_bot.Event.Table.{Hashes, Eventcore, reg_event}
use c_spock_bot.Event.Table.Start.{reg_event_cb}
use c_spock_bot.Net.Connect.{Settings}
use c_spock_bot.Net.Read.{uncompressed, Netcore, no_size}

-- A loop over an array, the results in their order; `none` is an `exit`.
abbrev pub each :
    {S X Y : Type 0}
    → (S → X → Outcome (Option (Y × S)))
    → S
    → List X
    → Outcome (Option (List Y × S))
each step s [] = ok (some ([], s))
each step s (x ∷ xs) = do
  r ← step s x
  unless_exit r (λ (y, s). do r ← each step s xs; unless_exit r (λ (ys, s). ok (some (y ∷ ys, s))))

-- `ERR_RET`, of a call that returns 0 or here `some k`, for -(k + 1).
abbrev pub err_ret : {A : Type 0} → Option ℕ → Outcome A → Outcome A
err_ret none next = next
err_ret (some k) next = err k

-- `sbnet_alloc_handles`, for one array of `max_ids` handles: NULL, here `none`, if there are none.
abbrev pub alloc_array : (ℕ → Bool) → Unit {0} → ℕ → Outcome (Option (Option ℕ × Unit {0}))
alloc_array memory u max_ids =
    if max_ids == 0
    then ok (some (none, u))
    else if memory (max_ids * 8 % 2 ^ 64)
    then ok (some (some max_ids, u))
    else ok none

unfoldable pub alloc_handles :
    (ℕ → Bool) → List (List ℕ) → Outcome (Option (List (List (Option ℕ)) × Unit {0}))
alloc_handles memory max_ids = each (each (alloc_array memory)) tt max_ids

-- `lengths strings` is `protocol_max_ids`: the strings of a state and direction are as many.
abbrev pub lengths : {A : Type 0} → List (List A) → List ℕ
lengths [] = []
lengths (names ∷ rest) = length names ∷ lengths rest

abbrev pub max_ids_of : {A : Type 0} → List (List (List A)) → List (List ℕ)
max_ids_of [] = []
max_ids_of (state ∷ states) = lengths state ∷ max_ids_of states

-- What the code takes from libuv and from `csb_init_plugin`, by their results, and the memory that
-- `malloc` gives for the read buffer.
pub record Given : Type 0 where
  pub init_plugin : Option ℕ
  pub loop_init : Option ℕ
  pub tcp_init : Option ℕ
  pub base : Option (List ℕ)

-- `net->session` where nothing is known of `threshold` yet, and an empty read buffer.
unfoldable pub init_state : Netcore → ℕ → List ℕ → Netcore
init_state net handshaking_id base = record net {
  session = record net.session { compression = uncompressed; proto_state = handshaking_id };
  next_packet_size = no_size;
  read_buf = record { memory = base; cur = 0; len = 4096; in_use = 0; rem = 4096 };
}

module _ (Cb : Type 0) (hashes : Hashes) (entry_size : ℕ) (memory : ℕ → Bool) where
  open hashes use {Name}

  abbrev Core : Type 0
  Core = Eventcore Cb hashes entry_size memory

  -- `sbnet_reg_handles`, by state, direction and id.
  unfoldable pub reg_handles :
      Core → List (List (List Name)) → Outcome (Option (List (List (List ℕ)) × Core))
  reg_handles ev strings = each (each (each (reg_event Cb hashes entry_size memory))) ev strings

  -- A registration of a callback at an event, in a sequence of such.
  abbrev pub reg_callback : Core → Name × Cb → Outcome (Option (Unit {0} × Core))
  reg_callback ev (nomen, cb) = do
    r ← reg_event_cb Cb hashes entry_size memory ev nomen cb
    unless_exit r (λ ev. ok (some (tt, ev)))

  -- The names of the four events that the network core handles, and its handlers.
  pub record OwnHandlers : Type 0 where
    pub start_name : Name
    pub tick_name : Name
    pub compress_name : Name
    pub success_name : Name
    pub start_cb : Cb
    pub ontick : Cb
    pub compress_cb : Cb
    pub success_cb : Cb

  abbrev pub own_callbacks : OwnHandlers → List (Name × Cb)
  own_callbacks own =
      (own.start_name, own.start_cb)
      ∷ ((own.tick_name, own.ontick)
          ∷ ((own.compress_name, own.compress_cb) ∷ ((own.success_name, own.success_cb) ∷ [])))

  -- `sbnet_netcore` with what it points to.
  pub record Started : Type 0 where
    pub settings : Settings
    pub net : Netcore
    pub arrays : List (List (Option ℕ))
    pub handles : List (List (List ℕ))
    pub ev : Core

  unfoldable pub init_net :
      Given
      → Settings
      → Netcore
      → ℕ
      → List (List (List Name))
      → OwnHandlers
      → Core
      → Outcome (Option Started)
  init_net given settings net handshaking_id strings own ev = err_ret given.init_plugin (
      unless_exit given.base (λ base. err_ret given.loop_init (
        err_ret given.tcp_init (do
          r ← alloc_handles memory (max_ids_of strings)
          unless_exit r (λ (arrays, _). do
            r ← reg_handles ev strings
            unless_exit r (λ (handles, ev). do
              r ← each reg_callback ev (own_callbacks own)
              unless_exit r (λ (_, ev). ok (
                  some (record {
                    settings = settings;
                    net = init_state net handshaking_id base;
                    arrays = arrays;
                    handles = handles;
                    ev = ev;
                  })))))))))
