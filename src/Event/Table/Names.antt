-- ===== src/Event/Table/Names.antt =====
-- The names of the entries of a table of events.
use c_spock_bot.Prelude.{
  ◌+◌, ◌^◌, ℕ, zero, suc, ◌≤◌, ◌≡◌, ◌≢◌, refl, ap, arith, List, [], ◌∷◌, ◌++◌, length, Bool,
}
use c_spock_bot.Prelude.{◌⊎◌, inl, inr}
use mathlib.Core.Path.{subst}
use c_spock_bot.Outcome.{Outcome, ok}
use c_spock_bot.Event.Table.{Hashes, Named, entry_at}
use c_spock_bot.Event.Table.Grown.{IsAt}

module _ (Cb : Type 0) (hashes : Hashes) (entry_size : ℕ) (memory : ℕ → Bool) where
  open hashes use {
    Name, Map, same_name, find_str, add_keyptr, cleared, find-cleared, find-add, find-add_other,
  }

  abbrev Event : Type 0
  Event = Named Cb hashes entry_size memory

  abbrev Has : List Event → ℕ → Name → Type 0
  Has = IsAt Cb hashes entry_size memory

  abbrev read_entry : List Event → ℕ → Outcome Event
  read_entry = entry_at Cb hashes entry_size memory

  pub Has-entry :
      (entries : List Event) (i : ℕ) (n : Name)
      → Has entries i n
      → (e : Event) × (read_entry entries i ≡ ok e) × (e.nomen ≡ n)
  Has-entry [] i n h = absurd (omega arith)
  Has-entry (e ∷ entries) zero n h = (e, refl, h)
  Has-entry (e ∷ entries) (suc i) n h = Has-entry entries i n h

  entry_at-Has :
      (entries : List Event) (i : ℕ) (e : Event)
      → read_entry entries i ≡ ok e
      → Has entries i e.nomen
  entry_at-Has [] i e h = absurd (cc)
  entry_at-Has (x ∷ entries) zero e h = let same : x ≡ e = cc in ap (λ (y : Event). y.nomen) same
  entry_at-Has (x ∷ entries) (suc i) e h = entry_at-Has entries i e h

  -- Every entry stays where it is, with its name, its handle and its callbacks.
  abbrev pub Keeps : List Event → List Event → Type 0
  Keeps entries entries' =
      (i : ℕ) (e : Event) → read_entry entries i ≡ ok e → read_entry entries' i ≡ ok e

  pub Keeps-Has :
      (entries entries' : List Event) (i : ℕ) (n : Name)
      → Keeps entries entries'
      → Has entries i n
      → Has entries' i n
  Keeps-Has entries entries' i n keeps h =
      let (e, read, same) = Has-entry entries i n h in
      subst (Has entries' i) same (entry_at-Has entries' i e (keeps i e read))

  pub Keeps-front : (entries : List Event) (x : Event) → Keeps entries (entries ++ (x ∷ []))
  Keeps-front [] x i e h = absurd (cc)
  Keeps-front (y ∷ entries) x zero e h = h
  Keeps-front (y ∷ entries) x (suc i) e h = Keeps-front entries x i e h

  -- Each event has room for `b` more callbacks, below 2^62.
  abbrev pub Few : List Event → ℕ → Type 0
  Few entries b =
      (i : ℕ) (e : Event) → read_entry entries i ≡ ok e → length e.entry.cbs + b ≤ 2 ^ 62

  -- Whether a name occurs.
  pub search_name :
      (entries : List Event) (n : Name)
      → ((i : ℕ) × Has entries i n) ⊎ ((i : ℕ) → Has entries i n → 1 ≤ 0)
  search_name [] n = inr (λ i h. h)
  search_name (e ∷ entries) n = elim (same_name e.nomen n) [
    | yes eq ↦ inl (0, eq)
    | no ne ↦ elim (search_name entries n) [
      | inl (i, h) ↦ inl (suc i, h)
      | inr new ↦ inr (λ i. nowhere new ne i)
    ]
  ]
    where
      nowhere :
          ((i : ℕ) → Has entries i n → 1 ≤ 0)
          → e.nomen ≢ n
          → (i : ℕ) → Has (e ∷ entries) i n
          → 1 ≤ 0
      nowhere new ne zero h = absurd (ne h)
      nowhere new ne (suc i) h = new i h

  pub Has-front :
      (entries : List Event) (e : Event) (i : ℕ) (n : Name)
      → Has entries i n
      → Has (entries ++ (e ∷ [])) i n
  Has-front [] e i n h = absurd (omega arith)
  Has-front (x ∷ entries) e zero n h = h
  Has-front (x ∷ entries) e (suc i) n h = Has-front entries e i n h

  pub Has-end :
      (entries : List Event) (e : Event) (n : Name)
      → e.nomen ≡ n
      → Has (entries ++ (e ∷ [])) (length entries) n
  Has-end [] e n h = h
  Has-end (x ∷ entries) e n h = Has-end entries e n h

  pub Has-cases :
      (entries : List Event) (e : Event) (i : ℕ) (n : Name)
      → Has (entries ++ (e ∷ [])) i n
      → Has entries i n ⊎ ((i ≡ length entries) × (e.nomen ≡ n))
  Has-cases [] e zero n h = inr (refl, h)
  Has-cases [] e (suc i) n h = absurd (omega arith)
  Has-cases (x ∷ entries) e zero n h = inl h
  Has-cases (x ∷ entries) e (suc i) n h = elim (Has-cases entries e i n h) [
    | inl h' ↦ inl h'
    | inr (at_end, same) ↦ inr (omega arith, same)
  ]

  pub entry_at-cases :
      (entries : List Event) (e x : Event) (i : ℕ)
      → read_entry (entries ++ (e ∷ [])) i ≡ ok x
      → (read_entry entries i ≡ ok x) ⊎ ((i ≡ length entries) × (e ≡ x))
  entry_at-cases [] e x zero h = inr (refl, cc)
  entry_at-cases [] e x (suc i) h = absurd (cc)
  entry_at-cases (y ∷ entries) e x zero h = inl h
  entry_at-cases (y ∷ entries) e x (suc i) h = elim (entry_at-cases entries e x i h) [
    | inl h' ↦ inl h'
    | inr (at_end, same) ↦ inr (omega arith, same)
  ]
