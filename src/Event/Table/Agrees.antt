-- ===== src/Event/Table/Agrees.antt =====
-- The map of names of a table of events against its entries.
use c_spock_bot.Prelude.{
  ℕ, suc, ◌+◌, ◌*◌, ◌%◌, ◌^◌, ◌≤◌, ◌<◌, ◌≡◌, ◌≢◌, refl, sym, ap, ◌∙◌, arith, List, [], ◌∷◌, ◌++◌,
  length, length-append, Bool, true, ◌==◌,
}
use c_spock_bot.Prelude.{none, some, inl, inr}
use mathlib.Core.Path.{subst}
use mathlib.Core.Option.{some-injective}
use c_spock_bot.Outcome.{Outcome, ok}
use c_spock_bot.Event.Table.{
  Address, Hashes, Named, Eventcore, entry_at, handle_of, add_all, reg_event,
}
use c_spock_bot.Event.Table.Grown.{at, IsAt, Once, add_all-other, add_all-at}
use c_spock_bot.Event.Table.Names.{
  Has-entry, search_name, Has-front, Has-end, Has-cases, entry_at-cases,
}
use c_spock_bot.Event.Callbacks.{Sound}

module _ (Cb : Type 0) (hashes : Hashes) (entry_size : ℕ) (memory : ℕ → Bool) where
  open hashes use {
    Name, Map, same_name, find_str, add_keyptr, cleared, find-cleared, find-add, find-add_other,
  }

  abbrev Event : Type 0
  Event = Named Cb hashes entry_size memory

  abbrev Core : Type 0
  Core = Eventcore Cb hashes entry_size memory

  abbrev Has : List Event → ℕ → Name → Type 0
  Has = IsAt Cb hashes entry_size memory

  abbrev read_entry : List Event → ℕ → Outcome Event
  read_entry = entry_at Cb hashes entry_size memory

  -- The map knows exactly the names of the entries, and where they are now; an entry's handle is its
  -- index.
  pub record IsTable (ev : Core) : Type 0 where
    pub listed :
        (i : ℕ) (n : Name) → Has ev.entries i n → find_str ev.entries_map n ≡ some (at ev.array i)
    pub found :
        (n : Name) (p : Address)
        → find_str ev.entries_map n ≡ some p
        → (p.array ≡ ev.array) × Has ev.entries p.index n
    pub handles : (i : ℕ) (e : Event) → read_entry ev.entries i ≡ ok e → e.handle ≡ i
    pub in_room : length ev.entries ≤ ev.max
    pub room : 0 < ev.max
    pub few : ev.max ≤ 20 + 2 * length ev.entries
    pub callbacks : (i : ℕ) (e : Event) → read_entry ev.entries i ≡ ok e → Sound Cb e.entry

  IsTable-Once : (ev : Core) → IsTable ev → Once Cb hashes entry_size memory ev.entries
  IsTable-Once ev t i j n hi hj =
      ap (λ (p : Address). p.index)
        (some-injective (at ev.array i) (at ev.array j) (sym (t.listed i n hi) ∙ t.listed j n hj))

  -- A name that is known gives its handle, and the table stays as it is.
  pub reg_event-known :
      (ev : Core) (i : ℕ) (n : Name)
      → IsTable ev
      → Has ev.entries i n
      → reg_event Cb hashes entry_size memory ev n ≡ ok (some (i, ev))
  unfolding reg_event handle_of
  reg_event-known ev i n t h =
      let (e, read, _) = Has-entry Cb hashes entry_size memory ev.entries i n h in
      let here : (ev.array == ev.array) ≡ true = ground arith in
      rw (t.listed i n h, here, read, t.handles i e read) refl

  pub grown-IsTable :
      (ev : Core)
      → IsTable ev
      → length ev.entries ≡ ev.max
      → length ev.entries < 2 ^ 62
      → IsTable (record ev {
        max = ev.max * 2 % 2 ^ 64;
        array = suc ev.array;
        entries_map = add_all Cb hashes entry_size memory (suc ev.array) 0 ev.entries cleared;
      })
  grown-IsTable ev t full small = record {
    listed = listed';
    found = λ n p e. elim (search_name Cb hashes entry_size memory ev.entries n) [
      | inl (i, h) ↦
          let same : at (suc ev.array) i ≡ p =
            some-injective (at (suc ev.array) i) p (sym (listed' i n h) ∙ e) in
          (
            ap (λ (q : Address). q.array) (sym same),
            subst (λ (q : Address). Has ev.entries q.index n) same h,
          )
      | inr new ↦
          let missing =
            add_all-other Cb hashes entry_size memory (suc ev.array) 0 ev.entries cleared n new
            ∙ find-cleared n in
          absurd (cc)
    ];
    handles = t.handles;
    in_room = omega (arith, full, small);
    room = omega (arith, t.room, full, small);
    few = omega (arith, full, small);
    callbacks = t.callbacks;
  }
    where
      listed' :
          (i : ℕ) (n : Name)
          → Has ev.entries i n
          → find_str (add_all Cb hashes entry_size memory (suc ev.array) 0 ev.entries cleared) n
            ≡ some (at (suc ev.array) i)
      listed' i n h =
          add_all-at Cb hashes entry_size memory (suc ev.array) 0 ev.entries cleared i n
            (IsTable-Once ev t) (λ k n' h'. find-cleared n') h
          ∙ ap (λ k. some (at (suc ev.array) k)) (omega arith)

  pub put-IsTable :
      (ev : Core) (e : Event)
      → IsTable ev
      → find_str ev.entries_map e.nomen ≡ none
      → e.handle ≡ length ev.entries
      → length ev.entries < ev.max
      → Sound Cb e.entry
      → IsTable (record ev {
        entries = ev.entries ++ (e ∷ []);
        entries_map =
            add_keyptr ev.entries_map e.nomen
              (record { array = ev.array; index = length ev.entries });
      })
  put-IsTable ev e t new numbered space sound = record {
    listed = λ i n h. elim (Has-cases Cb hashes entry_size memory ev.entries e i n h) [
      | inl old ↦ find-add_other ev.entries_map e.nomen n p (apart i n old) ∙ t.listed i n old
      | inr (at_end, same) ↦
          subst (λ m. find_str (add_keyptr ev.entries_map e.nomen p) m ≡ some (at ev.array i)) same
            (find-add ev.entries_map e.nomen p new ∙ ap (λ k. some (at ev.array k)) (sym at_end))
    ];
    found = λ n q h. elim (same_name e.nomen n) [
      | yes same ↦
          let here : find_str (add_keyptr ev.entries_map e.nomen p) n ≡ some p =
            subst (λ m. find_str (add_keyptr ev.entries_map e.nomen p) m ≡ some p) same
              (find-add ev.entries_map e.nomen p new) in
          let is : p ≡ q = some-injective p q (sym here ∙ h) in
          (
            ap (λ (r : Address). r.array) (sym is),
            subst (λ (r : Address). Has (ev.entries ++ (e ∷ [])) r.index n) is
                (Has-end Cb hashes entry_size memory ev.entries e n same),
          )
      | no ne ↦
          let (array, old) = t.found n q (sym (find-add_other ev.entries_map e.nomen n p ne) ∙ h) in
          (array, Has-front Cb hashes entry_size memory ev.entries e q.index n old)
    ];
    handles = λ i x h. elim (entry_at-cases Cb hashes entry_size memory ev.entries e x i h) [
      | inl old ↦ t.handles i x old
      | inr (at_end, same) ↦ ap (λ (y : Event). y.handle) (sym same) ∙ (numbered ∙ sym at_end)
    ];
    in_room = rw one_more (omega (arith, space));
    room = t.room;
    few = rw one_more (omega (arith, t.few));
    callbacks = λ i x h. elim (entry_at-cases Cb hashes entry_size memory ev.entries e x i h) [
      | inl old ↦ t.callbacks i x old
      | inr (at_end, same) ↦ subst (λ (y : Event). Sound Cb y.entry) same sound
    ];
  }
    where
      one_more : length (ev.entries ++ (e ∷ [])) ≡ length ev.entries + 1
      one_more = length-append ev.entries (e ∷ [])

      p : Address
      p = record { array = ev.array; index = length ev.entries }

      apart : (i : ℕ) (n : Name) → Has ev.entries i n → e.nomen ≢ n
      apart i n old same =
          let is = t.listed i n old in
          let missing = subst (λ m. find_str ev.entries_map m ≡ none) same new in absurd (cc)
