-- ===== src/Event/Table/Start/Replaced.antt =====
-- An entry of a table of events whose callbacks were written.
use c_spock_bot.Prelude.{
  ℕ, zero, suc, ◌≡◌, ◌≢◌, refl, sym, ap, ◌∙◌, arith, List, [], ◌∷◌, length, Bool, ◌⊎◌, inl, inr,
  ℕ_discrete,
}
use mathlib.Core.Path.{subst}
use c_spock_bot.Outcome.{Outcome, ok}
use c_spock_bot.Event.{Entry}
use c_spock_bot.Event.Callbacks.{Sound}
use c_spock_bot.Event.Table.{Hashes, Named, Eventcore, entry_at}
use c_spock_bot.Event.Table.Grown.{IsAt}
use c_spock_bot.Event.Table.Agrees.{IsTable}
use c_spock_bot.Event.Table.Start.{put_callbacks}

module _ (Cb : Type 0) (hashes : Hashes) (entry_size : ℕ) (memory : ℕ → Bool) where
  open hashes use {Name}

  abbrev Event : Type 0
  Event = Named Cb hashes entry_size memory

  abbrev Core : Type 0
  Core = Eventcore Cb hashes entry_size memory

  abbrev read_entry : List Event → ℕ → Outcome Event
  read_entry = entry_at Cb hashes entry_size memory

  abbrev Has : List Event → ℕ → Name → Type 0
  Has = IsAt Cb hashes entry_size memory

  -- The entry at `h` has other callbacks, and all else is as it was.
  pub record Replaced (es : List Event) (h : ℕ) (e : Event) (entry : Entry Cb) (es' : List Event)
      : Type 0 where
    pub here : read_entry es' h ≡ ok (record e { entry = entry })
    pub others : (i : ℕ) → i ≢ h → read_entry es' i ≡ read_entry es i
    pub names : (i : ℕ) (n : Name) → Has es i n → Has es' i n
    pub names_back : (i : ℕ) (n : Name) → Has es' i n → Has es i n
    pub size : length es' ≡ length es

  pub put_callbacks-Replaced :
      (es : List Event) (h : ℕ) (e : Event) (entry : Entry Cb)
      → read_entry es h ≡ ok e
      → (es' : List Event) × (put_callbacks Cb hashes entry_size memory es h entry ≡ ok es')
        × Replaced es h e entry es'
  put_callbacks-Replaced [] h e entry read = absurd (cc)
  put_callbacks-Replaced (x ∷ es) zero e entry read =
      let same : x ≡ e = cc in
      (
        record x { entry = entry } ∷ es,
        refl,
        record {
          here = ap (λ (y : Event). ok (record y { entry = entry })) same;
          others = λ i ne. others i ne;
          names = λ i n. names i n;
          names_back = λ i n. names_back i n;
          size = refl;
        },
      )
    where
      others :
          (i : ℕ) → i ≢ 0 → read_entry (record x { entry = entry } ∷ es) i ≡ read_entry (x ∷ es) i
      others zero ne = absurd (ne refl)
      others (suc i) ne = refl

      names : (i : ℕ) (n : Name) → Has (x ∷ es) i n → Has (record x { entry = entry } ∷ es) i n
      names zero n h = h
      names (suc i) n h = h

      names_back : (i : ℕ) (n : Name) → Has (record x { entry = entry } ∷ es) i n → Has (x ∷ es) i n
      names_back zero n h = h
      names_back (suc i) n h = h
  put_callbacks-Replaced (x ∷ es) (suc h) e entry read =
      let (es', put, r) = put_callbacks-Replaced es h e entry read in
      (
        x ∷ es',
        rw put refl,
        record {
          here = r.here;
          others = λ i ne. others es' r i ne;
          names = λ i n. names es' r i n;
          names_back = λ i n. names_back es' r i n;
          size = ap suc r.size;
        },
      )
    where
      others :
          (es' : List Event)
          → Replaced es h e entry es'
          → (i : ℕ) → i ≢ suc h
          → read_entry (x ∷ es') i ≡ read_entry (x ∷ es) i
      others es' r zero ne = refl
      others es' r (suc i) ne = r.others i (λ eq. ne (ap suc eq))

      names :
          (es' : List Event)
          → Replaced es h e entry es'
          → (i : ℕ) (n : Name) → Has (x ∷ es) i n
          → Has (x ∷ es') i n
      names es' r zero n p = p
      names es' r (suc i) n p = r.names i n p

      names_back :
          (es' : List Event)
          → Replaced es h e entry es'
          → (i : ℕ) (n : Name) → Has (x ∷ es') i n
          → Has (x ∷ es) i n
      names_back es' r zero n p = p
      names_back es' r (suc i) n p = r.names_back i n p

  -- Entry `i` behind the write: the one that was written, or one as it was.
  pub Replaced-cases :
      (es : List Event) (h : ℕ) (e : Event) (entry : Entry Cb) (es' : List Event) (i : ℕ)
      (x : Event)
      → Replaced es h e entry es'
      → read_entry es' i ≡ ok x
      → ((i ≡ h) × (record e { entry = entry } ≡ x)) ⊎ (read_entry es i ≡ ok x)
  Replaced-cases es h e entry es' i x r read = elim (ℕ_discrete i h) [
    | yes eq ↦
        let here : ok (record e { entry = entry }) ≡ ok x =
          sym r.here ∙ (sym (ap (read_entry es') eq) ∙ read) in
        inl (eq, cc)
    | no ne ↦ inr (sym (r.others i ne) ∙ read)
  ]

  pub Replaced-IsTable :
      (ev : Core) (h : ℕ) (e : Event) (entry : Entry Cb) (es' : List Event)
      → IsTable Cb hashes entry_size memory ev
      → read_entry ev.entries h ≡ ok e
      → Sound Cb entry
      → Replaced ev.entries h e entry es'
      → IsTable Cb hashes entry_size memory (record ev { entries = es' })
  Replaced-IsTable ev h e entry es' t read sound r = record {
    listed = λ i n p. t.listed i n (r.names_back i n p);
    found = λ n p is. let (array, old) = t.found n p is in (array, r.names p.index n old);
    handles = λ i x p. elim (Replaced-cases ev.entries h e entry es' i x r p) [
      | inl (eq, same) ↦ ap (λ (y : Event). y.handle) (sym same) ∙ (t.handles h e read ∙ sym eq)
      | inr old ↦ t.handles i x old
    ];
    in_room = omega (arith, r.size, t.in_room);
    room = t.room;
    few = omega (arith, r.size, t.few);
    callbacks = λ i x p. elim (Replaced-cases ev.entries h e entry es' i x r p) [
      | inl (eq, same) ↦ subst (λ (y : Event). Sound Cb y.entry) same sound
      | inr old ↦ t.callbacks i x old
    ];
  }
