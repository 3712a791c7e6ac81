-- ===== src/Event/Table/Grown.antt =====
-- The map of names that is filled again when the table has grown.
use c_spock_bot.Prelude.{
  ℕ, zero, suc, ◌+◌, ◌≤◌, ◌≡◌, ◌≢◌, refl, sym, ap, ◌∙◌, arith, List, [], ◌∷◌, Bool, none, some,
}
use mathlib.Core.Path.{subst}
use c_spock_bot.Event.Table.{Address, Hashes, Named, add_all}

abbrev pub at : ℕ → ℕ → Address
at array i = record { array = array; index = i }

module _ (Cb : Type 0) (hashes : Hashes) (entry_size : ℕ) (memory : ℕ → Bool) where
  open hashes use {Name, Map, same_name, find_str, add_keyptr, find-add, find-add_other}

  abbrev Event : Type 0
  Event = Named Cb hashes entry_size memory

  -- Entry `i` has this name.
  abbrev pub IsAt : List Event → ℕ → Name → Type 0
  IsAt [] i n = 1 ≤ 0
  IsAt (e ∷ entries) zero n = e.nomen ≡ n
  IsAt (e ∷ entries) (suc i) n = IsAt entries i n

  -- No name occurs twice.
  abbrev pub Once : List Event → Type 0
  Once entries = (i j : ℕ) (n : Name) → IsAt entries i n → IsAt entries j n → i ≡ j

  Once-tail : (e : Event) (entries : List Event) → Once (e ∷ entries) → Once entries
  Once-tail e entries once i j n hi hj =
      let more : suc i ≡ suc j = once (suc i) (suc j) n hi hj in omega arith

  head-new :
      (e : Event) (entries : List Event) (j : ℕ)
      → Once (e ∷ entries)
      → IsAt entries j e.nomen
      → 1 ≤ 0
  head-new e entries j once h = let clash : 0 ≡ suc j = once 0 (suc j) e.nomen refl h in omega arith

  -- Names that are none of the entries' are found as before.
  pub add_all-other :
      (array i : ℕ) (entries : List Event) (m : Map) (n : Name)
      → ((j : ℕ) → IsAt entries j n → 1 ≤ 0)
      → find_str (add_all Cb hashes entry_size memory array i entries m) n ≡ find_str m n
  add_all-other array i [] m n new = refl
  add_all-other array i (e ∷ entries) m n new =
      add_all-other array (suc i) entries (add_keyptr m e.nomen (at array i)) n
        (λ j h. new (suc j) h)
      ∙ find-add_other m e.nomen n (at array i) (λ eq. let z = new zero eq in omega arith)

  -- Every entry's name is found at its index.
  pub add_all-at :
      (array i : ℕ) (entries : List Event) (m : Map) (j : ℕ) (n : Name)
      → Once entries
      → ((k : ℕ) (n' : Name) → IsAt entries k n' → find_str m n' ≡ none)
      → IsAt entries j n
      → find_str (add_all Cb hashes entry_size memory array i entries m) n ≡ some (at array (i + j))
  add_all-at array i [] m j n once fresh h = absurd (omega arith)
  add_all-at array i (e ∷ entries) m zero n once fresh h =
      subst
        (λ x.
          find_str
            (add_all Cb hashes entry_size memory array (suc i) entries
              (add_keyptr m e.nomen (at array i)))
            x
          ≡ some (at array (i + 0)))
        h
        (add_all-other array (suc i) entries (add_keyptr m e.nomen (at array i)) e.nomen
            (λ j h. head-new e entries j once h)
          ∙ (find-add m e.nomen (at array i) (fresh zero e.nomen refl)
              ∙ ap (λ k. some (at array k)) (omega arith)))
  add_all-at array i (e ∷ entries) m (suc j) n once fresh h =
      add_all-at array (suc i) entries (add_keyptr m e.nomen (at array i)) j n
        (Once-tail e entries once)
        (λ k n' h'. find-add_other m e.nomen n' (at array i) (apart k n' h') ∙ fresh (suc k) n' h')
        h
      ∙ ap (λ k. some (at array k)) (omega arith)
    where
      apart : (k : ℕ) (n' : Name) → IsAt entries k n' → e.nomen ≢ n'
      apart k n' h' eq =
          let z = head-new e entries k once (subst (IsAt entries k) (sym eq) h') in omega arith
