-- ===== src/Event/Table/Registered.antt =====
-- `sbev_reg_event` on a table whose map agrees with its entries.
use c_spock_bot.Prelude.{
  ap, ℕ, suc, ◌+◌, ◌*◌, ◌%◌, ◌^◌, ◌≤◌, ◌<◌, ◌≡◌, refl, sym, ◌∙◌, arith, List, [], ◌∷◌, ◌++◌, length,
  length-append, ltb, Bool, true, ◌==◌,
}
use c_spock_bot.Prelude.{Option, none, some, ◌⊎◌, inl, inr, Bool-cases}
use mathlib.Core.Path.{subst}
use c_spock_bot.Outcome.{Outcome, ok}
use c_spock_bot.Event.{cb_size, handle_size}
use c_spock_bot.Event.Table.{
  Address, Hashes, Named, Eventcore, entry_at, init_event_entry, add_all, grow_entries, new_entry,
  reg_event,
}
use c_spock_bot.Event.Table.Grown.{IsAt, add_all-other}
use c_spock_bot.Event.Table.Names.{entry_at-cases, search_name, Keeps, Keeps-front, Has-end}
use c_spock_bot.Event.Table.Agrees.{IsTable, grown-IsTable, put-IsTable, reg_event-known}

module _ (Cb : Type 0) (hashes : Hashes) (entry_size : ℕ) (memory : ℕ → Bool) where
  open hashes use {
    Name, Map, same_name, find_str, add_keyptr, cleared, find-cleared, find-add, find-add_other,
  }

  abbrev Event : Type 0
  Event = Named Cb hashes entry_size memory

  abbrev Core : Type 0
  Core = Eventcore Cb hashes entry_size memory

  abbrev Has : List Event → ℕ → Name → Type 0
  Has = IsAt Cb hashes entry_size memory

  abbrev read_entry : List Event → ℕ → Outcome Event
  read_entry = entry_at Cb hashes entry_size memory

  -- What a registration of `n` makes of the table: the name has the handle that is returned, and the
  -- names that were there keep theirs.
  pub record Registers (ev : Core) (n : Name) (h : ℕ) (ev' : Core) : Type 0 where
    pub table : IsTable Cb hashes entry_size memory ev'
    pub named : Has ev'.entries h n
    pub kept : Keeps Cb hashes entry_size memory ev.entries ev'.entries
    pub fresh :
        (i : ℕ) (e : Event)
        → read_entry ev'.entries i ≡ ok e
        → (read_entry ev.entries i ≡ ok e) ⊎ (e.entry.cbs ≡ [])
    pub one_more : length ev'.entries ≤ length ev.entries + 1
    pub start : ev'.start ≡ ev.start
    pub tick : ev'.tick ≡ ev.tick
    pub kill : ev'.kill ≡ ev.kill
    pub flag : ev'.kill_flag ≡ ev.kill_flag

  put_entry-Registers :
      (ev : Core) (n : Name)
      → ((size : ℕ) → memory size ≡ true)
      → IsTable Cb hashes entry_size memory ev
      → find_str ev.entries_map n ≡ none
      → length ev.entries < ev.max
      → (h : ℕ) × (ev' : Core) × (new_entry Cb hashes entry_size memory (some ev) n
          ≡ ok (some (h, ev')))
        × Registers ev n h ev'
  unfolding init_event_entry
  put_entry-Registers ev n room t new space =
      let is_space : ltb (length ev.entries) ev.max ≡ true = ground (arith, space) in
      let e : Event = record {
        nomen = n;
        handle = length ev.entries;
        entry = record { cbs = []; max = 20; free_handles = []; free_max = 20 };
      } in
      (
        length ev.entries,
        record ev {
          entries = ev.entries ++ (e ∷ []);
          entries_map =
              add_keyptr ev.entries_map n (record { array = ev.array; index = length ev.entries });
        },
        rw (room (cb_size * 20), room (handle_size * 20), is_space) refl,
        record {
          table = put-IsTable Cb hashes entry_size memory ev e t new refl space (record {
            freed = tt;
            in_max = omega arith;
            some_max = omega arith;
            few = omega arith;
            in_free = omega arith;
            some_free = omega arith;
          });
          named = Has-end Cb hashes entry_size memory ev.entries e n refl;
          kept = Keeps-front Cb hashes entry_size memory ev.entries e;
          fresh = λ i x read.
              elim (entry_at-cases Cb hashes entry_size memory ev.entries e x i read) [
                | inl old ↦ inl old
                | inr (at_end, same) ↦ inr (ap (λ (y : Event). y.entry.cbs) (sym same))
              ];
          one_more = omega (arith, length-append ev.entries (e ∷ []));
          start = refl;
          tick = refl;
          kill = refl;
          flag = refl;
        },
      )

  Address-cases : (o : Option Address) → (o ≡ none) ⊎ ((p : Address) × (o ≡ some p))
  Address-cases none = inl refl
  Address-cases (some p) = inr (p, refl)

  -- What `n` is found to be in a table.
  find-cases :
      (ev : Core) (n : Name)
      → IsTable Cb hashes entry_size memory ev
      → ((i : ℕ) × Has ev.entries i n) ⊎ (find_str ev.entries_map n ≡ none)
  find-cases ev n t = elim (search_name Cb hashes entry_size memory ev.entries n) [
    | inl here ↦ inl here
    | inr new ↦ elim (Address-cases (find_str ev.entries_map n)) [
      | inl missing ↦ inr missing
      | inr (p, found) ↦
          let (same, old) = t.found n p found in let no = new p.index old in absurd (omega arith)
    ]
  ]

  add_all-missing :
      (ev : Core) (n : Name)
      → IsTable Cb hashes entry_size memory ev
      → find_str ev.entries_map n ≡ none
      → find_str (add_all Cb hashes entry_size memory (suc ev.array) 0 ev.entries cleared) n ≡ none
  add_all-missing ev n t missing =
      add_all-other Cb hashes entry_size memory (suc ev.array) 0 ev.entries cleared n
        (λ i old. let is = t.listed i n old in absurd (cc))
      ∙ find-cleared n

  Registers-since :
      (ev grown : Core) (n : Name) (h : ℕ) (ev' : Core)
      → grown.entries ≡ ev.entries
      → grown.start ≡ ev.start
      → grown.tick ≡ ev.tick
      → grown.kill ≡ ev.kill
      → grown.kill_flag ≡ ev.kill_flag
      → Registers grown n h ev'
      → Registers ev n h ev'
  Registers-since ev grown n h ev' entries start tick kill flag r = record {
    table = r.table;
    named = r.named;
    kept = λ i e old. r.kept i e (subst (λ es. read_entry es i ≡ ok e) (sym entries) old);
    fresh = λ i e read.
        subst (λ es. (read_entry es i ≡ ok e) ⊎ (e.entry.cbs ≡ [])) entries (r.fresh i e read);
    one_more = subst (λ es. length ev'.entries ≤ length es + 1) entries r.one_more;
    start = r.start ∙ start;
    tick = r.tick ∙ tick;
    kill = r.kill ∙ kill;
    flag = r.flag ∙ flag;
  }

  -- If memory is given and there are less than 2^62 events, registering a name succeeds on every table
  -- and reads and writes no freed array nor behind the end of one, also where the array is full and
  -- moves: the name stands at the handle that is returned, each event keeps its handle, its name and
  -- its callbacks, the map again points at every entry where it is now, and the core's own handles and the kill flag stay.
  pub reg_event-Registers :
      (ev : Core) (n : Name)
      → ((size : ℕ) → memory size ≡ true)
      → length ev.entries < 2 ^ 62
      → IsTable Cb hashes entry_size memory ev
      → (h : ℕ) × (ev' : Core) × (reg_event Cb hashes entry_size memory ev n ≡ ok (some (h, ev')))
        × Registers ev n h ev'
  unfolding reg_event grow_entries
  reg_event-Registers ev n room small t = elim (find-cases ev n t) [
    | inl (i, old) ↦ (
      i,
      ev,
      reg_event-known Cb hashes entry_size memory ev i n t old,
      record {
        table = t;
        named = old;
        kept = λ j e h. h;
        fresh = λ j e h. inl h;
        one_more = omega arith;
        start = refl;
        tick = refl;
        kill = refl;
        flag = refl;
      },
    )
    | inr missing ↦ elim (Bool-cases (length ev.entries == ev.max)) [
      | inl full ↦
          let at_max : length ev.entries ≡ ev.max = ground (arith, full) in
          let max = ev.max * 2 % 2 ^ 64 in
          let grown : Core = record ev {
            max = max;
            array = suc ev.array;
            entries_map = add_all Cb hashes entry_size memory (suc ev.array) 0 ev.entries cleared;
          } in
          let (h, ev', put, r) =
            put_entry-Registers grown n room
              (grown-IsTable Cb hashes entry_size memory ev t at_max small)
              (add_all-missing ev n t missing) (omega (arith, at_max, small, t.room)) in
          (
            h,
            ev',
            rw (missing, full, room (entry_size * max % 2 ^ 64)) put,
            Registers-since ev grown n h ev' refl refl refl refl refl r,
          )
      | inr space ↦
          let below : length ev.entries < ev.max = ground (arith, space, t.in_room) in
          let (h, ev', put, r) = put_entry-Registers ev n room t missing below in
          (h, ev', rw (missing, space) put, r)
    ]
  ]
