-- ===== src/Event/Callbacks.antt =====
-- The handles of an event's callbacks.
use c_spock_bot.Prelude.{
  ℕ, zero, suc, ◌*◌, ◌%◌, ◌^◌, ◌≡◌, ◌≢◌, refl, sym, ap, ◌∙◌, List, [], ◌∷◌, ◌++◌,
}
use c_spock_bot.Prelude.{length, Bool, true, ◌==◌, Option, none, some, Bool-cases, inl, inr}
use c_spock_bot.Prelude.{◌+◌, ◌≤◌, ◌<◌, arith, ltb, length-append}
use c_spock_bot.Outcome.{ok, fault}
use c_spock_bot.Event.{
  cb_size, handle_size, Entry, callback, put, store_cb, append_cb, reg_free, reg_cb, grow_free,
  unreg_cb,
}

module _ (Cb : Type 0) where
  -- What `put` leaves: the callback at `i`, and the others as they were.
  pub record Changed (cbs : List (Option Cb)) (i : ℕ) (c : Option Cb) (cbs' : List (Option Cb))
      : Type 0 where
    pub here : callback Cb cbs' i ≡ ok c
    pub others : (j : ℕ) → j ≢ i → callback Cb cbs' j ≡ callback Cb cbs j

  put-Changed :
      (cbs : List (Option Cb)) (i : ℕ) (old c : Option Cb)
      → callback Cb cbs i ≡ ok old
      → (cbs' : List (Option Cb)) × (put Cb cbs i c ≡ ok cbs')
        × Changed cbs i c cbs'
        × (length cbs' ≡ length cbs)
  unfolding callback put
  put-Changed [] i old c e = absurd (cc)
  put-Changed (x ∷ cbs) zero old c e =
      (c ∷ cbs, refl, record { here = refl; others = λ j ne. elsewhere j ne }, refl)
    where
      elsewhere : (j : ℕ) → j ≢ 0 → callback Cb (c ∷ cbs) j ≡ callback Cb (x ∷ cbs) j
      elsewhere zero ne = absurd (ne refl)
      elsewhere (suc j) ne = refl
  put-Changed (x ∷ cbs) (suc i) old c e =
      let r = put-Changed cbs i old c e in
      (
        x ∷ r.0,
        rw (r.1) refl,
        record { here = r.2.here; others = λ j ne. elsewhere r.0 r.2.others j ne },
        ap suc r.3,
      )
    where
      elsewhere :
          (cbs' : List (Option Cb))
          → ((j : ℕ) → j ≢ i → callback Cb cbs' j ≡ callback Cb cbs j)
          → (j : ℕ) → j ≢ suc i
          → callback Cb (x ∷ cbs') j ≡ callback Cb (x ∷ cbs) j
      elsewhere cbs' same zero ne = refl
      elsewhere cbs' same (suc j) ne = same j (λ e. ne (ap suc e))

  abbrev pub NotIn : ℕ → List ℕ → Type 0
  NotIn h [] = Unit {0}
  NotIn h (k ∷ free) = (k ≢ h) × NotIn h free

  -- The free handles are distinct, and their callbacks are NULL.
  abbrev pub Freed : List (Option Cb) → List ℕ → Type 0
  Freed cbs [] = Unit {0}
  Freed cbs (h ∷ free) = (callback Cb cbs h ≡ ok none) × NotIn h free × Freed cbs free

  Freed-Changed :
      (cbs cbs' : List (Option Cb)) (free : List ℕ) (i : ℕ) (c : Option Cb)
      → Changed cbs i c cbs'
      → NotIn i free
      → Freed cbs free
      → Freed cbs' free
  Freed-Changed cbs cbs' [] i c ch ni h = tt
  Freed-Changed cbs cbs' (k ∷ free) i c ch (ne, ni) (e, nk, h) =
      (ch.others k ne ∙ e, nk, Freed-Changed cbs cbs' free i c ch ni h)

  -- A handle whose callback is not NULL, or that names none, is not free.
  busy-NotIn :
      (cbs : List (Option Cb)) (free : List ℕ) (h : ℕ)
      → callback Cb cbs h ≢ ok none
      → Freed cbs free
      → NotIn h free
  busy-NotIn cbs [] h busy f = tt
  busy-NotIn cbs (k ∷ free) h busy (e, nk, f) =
      ((λ same. busy (ap (callback Cb cbs) (sym same) ∙ e)), busy-NotIn cbs free h busy f)

  callback-end : (cbs : List (Option Cb)) → callback Cb cbs (length cbs) ≡ fault
  unfolding callback
  callback-end [] = refl
  callback-end (x ∷ cbs) = callback-end cbs

  append-Changed :
      (cbs : List (Option Cb)) (c : Option Cb) → Changed cbs (length cbs) c (cbs ++ (c ∷ []))
  unfolding callback
  append-Changed cbs c = record { here = at_end cbs; others = elsewhere cbs }
    where
      at_end : (xs : List (Option Cb)) → callback Cb (xs ++ (c ∷ [])) (length xs) ≡ ok c
      at_end [] = refl
      at_end (x ∷ xs) = at_end xs

      elsewhere :
          (xs : List (Option Cb)) (j : ℕ)
          → j ≢ length xs
          → callback Cb (xs ++ (c ∷ [])) j ≡ callback Cb xs j
      elsewhere [] zero ne = absurd (ne refl)
      elsewhere [] (suc j) ne = refl
      elsewhere (x ∷ xs) zero ne = refl
      elsewhere (x ∷ xs) (suc j) ne = elsewhere xs j (λ e. ne (ap suc e))

  -- The free handles are distinct and NULL, and both arrays hold what is in them.
  pub record Sound (ent : Entry Cb) : Type 0 where
    pub freed : Freed ent.cbs ent.free_handles
    pub in_max : length ent.cbs ≤ ent.max
    pub some_max : 0 < ent.max
    pub few : ent.max ≤ 20 + 2 * length ent.cbs
    pub in_free : length ent.free_handles ≤ ent.free_max
    pub some_free : 0 < ent.free_max

  -- Of a registration: the handle was that of no callback, it is that of `cb` now, all other handles
  -- keep theirs, and the event is sound again.
  pub record Registered (ent : Entry Cb) (cb : Cb) (h : ℕ) (ent' : Entry Cb) : Type 0 where
    pub unused : (c : Cb) → callback Cb ent.cbs h ≢ ok (some c)
    pub changed : Changed ent.cbs h (some cb) ent'.cbs
    pub sound : Sound ent'
    pub one_more : length ent'.cbs ≤ length ent.cbs + 1

  store_cb-Registered :
      (ent : Entry Cb) (cb : Cb)
      → Sound ent
      → ent.free_handles ≡ []
      → length ent.cbs < ent.max
      → (h : ℕ) × (ent' : Entry Cb) × (store_cb Cb ent cb ≡ ok (some (h, ent')))
        × Registered ent cb h ent'
  store_cb-Registered ent cb s e space =
      let below : ltb (length ent.cbs) ent.max ≡ true = ground (arith, space) in
      let size = length-append ent.cbs (some cb ∷ []) in
      (
        length ent.cbs,
        record ent { cbs = ent.cbs ++ (some cb ∷ []) },
        rw below refl,
        record {
          unused = λ c found. fault-ne (sym (callback-end ent.cbs) ∙ found);
          changed = append-Changed ent.cbs (some cb);
          sound = record {
            freed = rw e tt;
            in_max = omega (arith, size, space);
            some_max = s.some_max;
            few = omega (arith, size, s.few);
            in_free = s.in_free;
            some_free = s.some_free;
          };
          one_more = omega (arith, size);
        },
      )
    where
      fault-ne : {c : Option Cb} → fault ≢ ok c
      fault-ne e = cc

  append_cb-Registered :
      (realloc : ℕ → Bool) (ent : Entry Cb) (cb : Cb)
      → Sound ent
      → length ent.cbs < 2 ^ 62
      → ent.free_handles ≡ []
      → ((n : ℕ) → realloc n ≡ true)
      → (h : ℕ) × (ent' : Entry Cb) × (append_cb Cb realloc ent cb ≡ ok (some (h, ent')))
        × Registered ent cb h ent'
  unfolding append_cb
  append_cb-Registered realloc ent cb s small e memory =
      elim (Bool-cases (length ent.cbs == ent.max)) [
        | inl full ↦
            let at_max : length ent.cbs ≡ ent.max = ground (arith, full) in
            let max = ent.max * 2 % 2 ^ 64 in
            let (h, ent', stored, r) =
              store_cb-Registered (record ent { max = max }) cb
                (record {
                  freed = s.freed;
                  in_max = omega (arith, at_max, small);
                  some_max = omega (arith, at_max, small, s.some_max);
                  few = omega (arith, at_max, small);
                  in_free = s.in_free;
                  some_free = s.some_free;
                })
                e (omega (arith, at_max, small, s.some_max)) in
            (
              h,
              ent',
              rw (full, memory (cb_size * max % 2 ^ 64)) stored,
              record {
                unused = r.unused;
                changed = r.changed;
                sound = r.sound;
                one_more = r.one_more;
              },
            )
        | inr space ↦
            let below : length ent.cbs < ent.max = ground (arith, space, s.in_max) in
            let (h, ent', stored, r) = store_cb-Registered ent cb s e below in
            (h, ent', rw space stored, r)
      ]

  reg_free-Registered :
      (realloc : ℕ → Bool) (ent : Entry Cb) (cb : Cb) (free : List ℕ)
      → ent.free_handles ≡ free
      → Sound ent
      → length ent.cbs < 2 ^ 62
      → ((n : ℕ) → realloc n ≡ true)
      → (h : ℕ) × (ent' : Entry Cb) × (reg_free Cb realloc ent cb free ≡ ok (some (h, ent')))
        × Registered ent cb h ent'
  unfolding reg_free
  reg_free-Registered realloc ent cb [] e s small memory =
      append_cb-Registered realloc ent cb s small e memory
  reg_free-Registered realloc ent cb (k ∷ free) e s small memory =
      let (null, nk, f) : Freed ent.cbs (k ∷ free) = rw e at s.freed in
      let (cbs', stored, changed, size) = put-Changed ent.cbs k none (some cb) null in
      (
        k,
        record ent { cbs = cbs'; free_handles = free },
        rw stored refl,
        record {
          unused = λ c found. clash (sym null ∙ found);
          changed = changed;
          sound = record {
            freed = Freed-Changed ent.cbs cbs' free k (some cb) changed nk f;
            in_max = omega (arith, size, s.in_max);
            some_max = s.some_max;
            few = omega (arith, size, s.few);
            in_free = omega (arith, ap length e, s.in_free);
            some_free = s.some_free;
          };
          one_more = omega (arith, size);
        },
      )
    where
      clash : {c : Cb} → ok none ≢ ok (some c)
      clash e = cc

  -- If the free handles of an event are distinct and NULL, both arrays have room for what is in them,
  -- there are fewer than 2^62 handles, and memory is given, `sbev_reg_cb` returns a handle that no
  -- callback had and stores the callback there, in the array, which grows where it is full; the other
  -- handles keep their callbacks, and the event is again as it was said to be.
  pub reg_cb-Registered :
      (realloc : ℕ → Bool) (ent : Entry Cb) (cb : Cb)
      → Sound ent
      → length ent.cbs < 2 ^ 62
      → ((n : ℕ) → realloc n ≡ true)
      → (h : ℕ) × (ent' : Entry Cb) × (reg_cb Cb realloc ent cb ≡ ok (some (h, ent')))
        × Registered ent cb h ent'
  unfolding reg_cb
  reg_cb-Registered realloc ent cb s small memory =
      reg_free-Registered realloc ent cb ent.free_handles refl s small memory

  grow_free-Sound :
      (realloc : ℕ → Bool) (ent : Entry Cb)
      → Sound ent
      → ent.free_max < 2 ^ 63
      → ((n : ℕ) → realloc n ≡ true)
      → (max : ℕ) × (grow_free Cb realloc ent ≡ some (record ent { free_max = max }))
        × (length ent.free_handles < max)
  grow_free-Sound realloc ent s small memory =
      elim (Bool-cases (length ent.free_handles == ent.free_max)) [
        | inl full ↦
            let at_max : length ent.free_handles ≡ ent.free_max = ground (arith, full) in
            let max = ent.free_max * 2 % 2 ^ 64 in
            (
              max,
              rw (full, memory (handle_size * max % 2 ^ 64)) refl,
              omega (arith, at_max, small, s.some_free),
            )
        | inr space ↦ (ent.free_max, rw space refl, ground (arith, space, s.in_free))
      ]

  -- If moreover a callback is registered at a handle, and there is memory for fewer than 2^63 free
  -- handles, `sbev_unreg_cb` makes it NULL, leaves the others, and puts the handle on top of the free
  -- ones, in the array, which grows where it is full; the event is again as it was said to be.
  pub unreg_cb-Freed :
      (realloc : ℕ → Bool) (ent : Entry Cb) (h : ℕ) (c : Cb)
      → callback Cb ent.cbs h ≡ ok (some c)
      → Sound ent
      → ent.free_max < 2 ^ 63
      → ((n : ℕ) → realloc n ≡ true)
      → (ent' : Entry Cb) × (unreg_cb Cb realloc ent h ≡ ok (some ent'))
        × Changed ent.cbs h none ent'.cbs
        × (ent'.free_handles ≡ h ∷ ent.free_handles)
        × Sound ent'
  unfolding unreg_cb
  unreg_cb-Freed realloc ent h c e s small memory =
      let (max, grown, room) = grow_free-Sound realloc ent s small memory in
      let below : ltb (length ent.free_handles) max ≡ true = ground (arith, room) in
      let (cbs', stored, changed, size) = put-Changed ent.cbs h (some c) none e in
      let busy = busy-NotIn ent.cbs ent.free_handles h (λ e'. clash (sym e ∙ e')) s.freed in
      (
        record ent { cbs = cbs'; free_handles = h ∷ ent.free_handles; free_max = max },
        rw (grown, stored, below) refl,
        changed,
        refl,
        record {
          freed = (
            changed.here,
            busy,
            Freed-Changed ent.cbs cbs' ent.free_handles h none changed busy s.freed,
          );
          in_max = omega (arith, size, s.in_max);
          some_max = s.some_max;
          few = omega (arith, size, s.few);
          in_free = omega (arith, room);
          some_free = omega (arith, room);
        },
      )
    where
      clash : {c : Cb} → ok (some c) ≢ ok none
      clash e = cc
