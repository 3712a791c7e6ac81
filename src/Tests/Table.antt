-- ===== src/Tests/Table.antt =====
-- A table of events that is full, and the start of the network core on it.
use c_spock_bot.Prelude.{
  ℕ, zero, suc, ◌+◌, ◌^◌, ◌≤◌, ◌≡◌, ◌≢◌, refl, arith, sym, ap, ◌∙◌, List, [], ◌∷◌, length, Bool,
  true, false, Option, none, some, ◌==◌, if◌then◌else◌, ℕ_discrete, Bool-cases, inl, inr,
}
use mathlib.Core.Path.{subst}
use mathlib.Core.Option.{some-injective}
use c_spock_bot.Outcome.{ok}
use c_spock_bot.Event.Callbacks.{Sound}
use c_spock_bot.Event.Table.{Address, Hashes, Named, Eventcore, entry_at, reg_event}
use c_spock_bot.Event.Table.Grown.{at, IsAt}
use c_spock_bot.Net.Connect.{Settings}
use c_spock_bot.Net.Read.{compressed, Netcore}
use c_spock_bot.Net.Start.{OwnHandlers}
use c_spock_bot.Event.Table.Names.{Few}
use c_spock_bot.Event.Table.Agrees.{IsTable}
use c_spock_bot.Event.Table.Registered.{Registers, reg_event-Registers}
use c_spock_bot.Event.Table.Start.{Own, reg_event_cb}
use c_spock_bot.Event.Table.Start.Calls.{Calls, reg_event_cb-Calls}

-- Names are numbers, and a map is a list of pairs.
abbrev find_pair : List (ℕ × Address) → ℕ → Option Address
find_pair [] n = none
find_pair ((m, p) ∷ pairs) n = if m == n then some p else find_pair pairs n

find_pair-here :
    (pairs : List (ℕ × Address)) (n : ℕ) (p : Address)
    → find_pair pairs n ≡ none
    → find_pair ((n, p) ∷ pairs) n ≡ some p
find_pair-here pairs n p h = let same : (n == n) ≡ true = ground arith in rw same refl

find_pair-other :
    (pairs : List (ℕ × Address)) (n n' : ℕ) (p : Address)
    → n ≢ n'
    → find_pair ((n, p) ∷ pairs) n' ≡ find_pair pairs n'
find_pair-other pairs n n' p ne = elim (Bool-cases (n == n')) [
  | inl same ↦ absurd (ne (ground (arith, same)))
  | inr other ↦ rw other refl
]

abbrev pairs : Hashes
pairs = record {
  Name = ℕ;
  Map = List (ℕ × Address);
  same_name = ℕ_discrete;
  find_str = find_pair;
  add_keyptr = λ m n p. (n, p) ∷ m;
  cleared = [];
  find-cleared = λ n. refl;
  find-add = find_pair-here;
  find-add_other = find_pair-other;
}

abbrev always : ℕ → Bool
always size = true

-- The table has one event, 4, and no room for another.
abbrev zeroth : Address
zeroth = record { array = 0; index = 0 }

abbrev first : Named ℕ pairs 200 always
first = record {
  nomen = 4;
  handle = 0;
  entry = record { cbs = []; max = 20; free_handles = []; free_max = 20 };
}

abbrev full : Eventcore ℕ pairs 200 always
full = record {
  entries_map = (4, zeroth) ∷ [];
  array = 0;
  entries = first ∷ [];
  max = 1;
  start = 0;
  tick = 0;
  kill = 0;
  kill_flag = false;
}

first-Sound : Sound ℕ first.entry
first-Sound = record {
  freed = tt;
  in_max = omega arith;
  some_max = omega arith;
  few = omega arith;
  in_free = omega arith;
  some_free = omega arith;
}

full-IsTable : IsTable ℕ pairs 200 always full
full-IsTable = record {
  listed = λ i n h. listed i n h;
  found = λ n p h. found n p h;
  handles = λ i e h. handles i e h;
  in_room = omega arith;
  room = omega arith;
  few = omega arith;
  callbacks = λ i e h. callbacks i e h;
}
  where
    listed :
        (i n : ℕ)
        → IsAt ℕ pairs 200 always (first ∷ []) i n
        → find_pair ((4, zeroth) ∷ []) n ≡ some (at 0 i)
    listed zero n h = subst (λ m. find_pair ((4, zeroth) ∷ []) m ≡ some (at 0 0)) h refl
    listed (suc i) n h = absurd (omega arith)

    found :
        (n : ℕ) (p : Address)
        → find_pair ((4, zeroth) ∷ []) n ≡ some p
        → (p.array ≡ 0) × IsAt ℕ pairs 200 always (first ∷ []) p.index n
    found n p h = elim (Bool-cases (4 == n)) [
      | inl same ↦
          let is : some zeroth ≡ some p = sym (rw same refl) ∙ h in
          let is_p = some-injective zeroth p is in
          let four : 4 ≡ n = ground (arith, same) in
          (
            ap (λ (q : Address). q.array) (sym is_p),
            subst (λ (q : Address). IsAt ℕ pairs 200 always (first ∷ []) q.index n) is_p four,
          )
      | inr other ↦ let no_pair : none ≡ some p = sym (rw other refl) ∙ h in absurd (cc)
    ]

    handles :
        (i : ℕ) (e : Named ℕ pairs 200 always)
        → entry_at ℕ pairs 200 always (first ∷ []) i ≡ ok e
        → e.handle ≡ i
    handles zero e h =
        let is : first ≡ e = cc in ap (λ (x : Named ℕ pairs 200 always). x.handle) (sym is)
    handles (suc i) e h = absurd (cc)

    callbacks :
        (i : ℕ) (e : Named ℕ pairs 200 always)
        → entry_at ℕ pairs 200 always (first ∷ []) i ≡ ok e
        → Sound ℕ e.entry
    callbacks zero e h =
        let is : first ≡ e = cc in
        subst (λ (x : Named ℕ pairs 200 always). Sound ℕ x.entry) is first-Sound
    callbacks (suc i) e h = absurd (cc)

full-Few : (b : ℕ) → b ≤ 100 → Few ℕ pairs 200 always full.entries b
full-Few b small zero e h =
    let is : first ≡ e = cc in
    subst (λ (x : Named ℕ pairs 200 always). length x.entry.cbs + b ≤ 2 ^ 62) is
      (omega (arith, small))
full-Few b small (suc i) e h = absurd (cc)

-- The table grows for event 7.
reg_event-Registers_example :
    (h : ℕ) × (ev' : Eventcore ℕ pairs 200 always) × (reg_event ℕ pairs 200 always full 7
      ≡ ok (some (h, ev')))
    × Registers ℕ pairs 200 always full 7 h ev'
reg_event-Registers_example =
    reg_event-Registers ℕ pairs 200 always full 7 (λ size. refl) (omega arith) full-IsTable

reg_event_cb-Calls_example :
    (h : ℕ) × (k : ℕ) × (ev' : Eventcore ℕ pairs 200 always) × (reg_event_cb ℕ pairs 200 always full
        7 5
      ≡ ok (some ev'))
    × Calls ℕ pairs 200 always full 7 5 h k ev'
reg_event_cb-Calls_example =
    reg_event_cb-Calls ℕ pairs 200 always full 7 5 (λ size. refl) (omega arith) full-IsTable
      (full-Few 1 (omega arith))

abbrev own : Own ℕ pairs 200 always
own = record { start_name = 1; tick_name = 2; kill_name = 3 }

-- Nothing of an earlier connection is known, and 4096 bytes are read into.
abbrev zeros : ℕ → List ℕ
zeros zero = []
zeros (suc n) = 0 ∷ zeros n

abbrev unknown : Netcore
unknown = record {
  session = record { compression = compressed; threshold = 0; proto_state = 9 };
  read_buf = record { memory = []; cur = 0; len = 0; in_use = 0; rem = 0 };
  next_packet_size = 0;
}

-- Two states with two directions, of which one has no packets.
abbrev strings : List (List (List ℕ))
strings = ((10 ∷ 11 ∷ []) ∷ ((12 ∷ []) ∷ [])) ∷ (((13 ∷ 14 ∷ []) ∷ ([] ∷ [])) ∷ [])

abbrev handlers : OwnHandlers ℕ pairs 200 always
handlers = record {
  start_name = 1;
  tick_name = 2;
  compress_name = 13;
  success_name = 14;
  start_cb = 101;
  ontick = 102;
  compress_cb = 103;
  success_cb = 104;
}

abbrev settings : Settings
settings = record { addr = 49 ∷ []; username = 98 ∷ []; port = 25565 }
