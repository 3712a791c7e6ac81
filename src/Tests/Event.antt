-- ===== src/Tests/Event.antt =====
-- An event with three callbacks, of which the second was taken off.
use c_spock_bot.Prelude.{ℕ, ◌≡◌, refl, arith, Bool, true, [], ◌∷◌, none, some}
use c_spock_bot.Outcome.{ok}
use c_spock_bot.Event.{Entry, callback, reg_cb, unreg_cb}
use c_spock_bot.Event.Callbacks.{Changed, Sound, Registered, reg_cb-Registered, unreg_cb-Freed}

abbrev entry : Entry ℕ
entry = record {
  cbs = some 5 ∷ (none ∷ (some 7 ∷ []));
  max = 20;
  free_handles = 1 ∷ [];
  free_max = 20;
}

entry-Sound : Sound ℕ entry
unfolding callback
entry-Sound = record {
  freed = (refl, tt, tt);
  in_max = omega arith;
  some_max = omega arith;
  few = omega arith;
  in_free = omega arith;
  some_free = omega arith;
}

abbrev always : ℕ → Bool
always _ = true

reg_cb-Registered_example :
    (h : ℕ) × (ent' : Entry ℕ) × (reg_cb ℕ always entry 6 ≡ ok (some (h, ent')))
    × Registered ℕ entry 6 h ent'
reg_cb-Registered_example = reg_cb-Registered ℕ always entry 6 entry-Sound (omega arith) (λ n. refl)

unreg_cb-Freed_example :
    (ent' : Entry ℕ) × (unreg_cb ℕ always entry 2 ≡ ok (some ent'))
    × Changed ℕ entry.cbs 2 none ent'.cbs
    × (ent'.free_handles ≡ 2 ∷ (1 ∷ []))
    × Sound ℕ ent'
unfolding callback
unreg_cb-Freed_example =
    unreg_cb-Freed ℕ always entry 2 7 refl entry-Sound (omega arith) (λ n. refl)
