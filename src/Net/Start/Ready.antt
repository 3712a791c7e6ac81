-- ===== src/Net/Start/Ready.antt =====
-- The network core as `sbnet_init_net` leaves it.
use c_spock_bot.Prelude.{ℕ, ◌≡◌, List, [], ◌==◌, if◌then◌else◌, Bool, Option, none, some}
use c_spock_bot.Event.Table.{Hashes, Eventcore}
use c_spock_bot.Event.Table.Agrees.{IsTable}
use c_spock_bot.Net.Start.{max_ids_of, OwnHandlers, own_callbacks, Started}
use c_spock_bot.Net.Start.Each.{Each}
use c_spock_bot.Net.Start.Handles.{Kept, Handled, AllHandles}
use c_spock_bot.Net.Connect.{Settings}
use c_spock_bot.Net.Read.{uncompressed, Netcore}
use c_spock_bot.Net.Read.Packets.{Waits}

-- The array for this many handles.
abbrev Allocated : Unit {0} → ℕ → Option ℕ → Type 0
Allocated u max_ids array = array ≡ (if max_ids == 0 then none else some max_ids)

module _ (Cb : Type 0) (hashes : Hashes) (entry_size : ℕ) (memory : ℕ → Bool) where
  open hashes use {Name}

  abbrev Core : Type 0
  Core = Eventcore Cb hashes entry_size memory

  -- The read loop can start, every packet has its event, and the network core handles its own.
  pub record IsReady (settings : Settings) (net : Netcore) (handshaking_id : ℕ)
      (strings : List (List (List Name))) (own : OwnHandlers Cb hashes entry_size memory)
      (ev : Core) (s : Started Cb hashes entry_size memory) : Type 0 where
    pub given : s.settings ≡ settings
    pub waits :
        Waits s.net
          (record net.session { compression = uncompressed; proto_state = handshaking_id })
          none
          []
    pub arrays : Each (Each (Allocated tt)) (max_ids_of strings) s.arrays
    pub handles : AllHandles Cb hashes entry_size memory s.ev strings s.handles
    pub handled :
        (us : List (Unit {0})) × Each
          (Handled Cb hashes entry_size memory s.ev)
          (own_callbacks Cb hashes entry_size memory own)
          us
    pub table : IsTable Cb hashes entry_size memory s.ev
    pub kept : Kept Cb hashes entry_size memory ev s.ev
