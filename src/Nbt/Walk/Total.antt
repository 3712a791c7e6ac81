-- ===== src/Nbt/Walk/Total.antt =====
-- `walk_nbt` on any input: the fuel of the model is enough, and what bounds the result.
use c_spock_bot.Prelude.{ℕ, zero, suc, ◌+◌, ◌-◌, ◌*◌, ◌%◌, ◌^◌, ◌≤◌, ◌<◌, ◌≡◌, ◌≢◌, refl, arith}
use c_spock_bot.Prelude.{List, [], ◌∷◌, length, drop, length-drop, rounds, sub_size, ltb}
use c_spock_bot.Prelude.{append-nil, if◌then◌else◌, ◌==◌, true, false}
use c_spock_bot.Outcome.{Outcome, ok, err, null, fault, stuck, ◌>>=◌, or_minus_one}
use c_spock_bot.Outcome.Laws.{
  Ensures, Ensures->>=, Ensures-or_minus_one, Ensures-if, Ensures-ne-stuck, Ensures-to_int,
}
use c_spock_bot.Numeric.{enc_be32, dec_byte, dec_be16, dec_be32}
use c_spock_bot.Numeric.Read.{Leaves, dec_byte-Leaves, dec_be16-Leaves, dec_be32-Leaves}
use c_spock_bot.Numeric.RoundTrip.{dec_be-enc_be}
use c_spock_bot.Nbt.{
  Walker, walk_nbt_string, walk_nbt_array, walk_list_loop, walk_nbt_list, walk_compound_loop,
  walk_nbt_compound, walk_payload, walk_unnamed_nbt, walk_nbt,
}

abbrev Any : {A : Type 0} → A → Type 0
Any a = Unit {0}

-- A walk ends, and returns at most `m`.
abbrev Ends : ℕ → Outcome ℕ → Type 0
Ends m = Ensures Unit (λ n. n ≤ m)

-- A walk whose failure makes the caller return -1.
Ends->>= :
    {B : Type 0} (Q : B → Type 0) (m : ℕ) (walked : Outcome ℕ) (f : ℕ → Outcome B)
    → Ends m walked
    → ((n : ℕ) → n ≤ m → Ensures Unit Q (f n))
    → Ensures Unit Q (or_minus_one walked >>= f)
Ends->>= Q m walked f h k =
    Ensures->>= Unit (λ n. n ≤ m) Q (or_minus_one walked) f
      (Ensures-or_minus_one Unit (λ n. n ≤ m) walked h) k

walk_nbt_string-Ends : (source : List ℕ) (m : ℕ) → Ends m (walk_nbt_string source m)
unfolding walk_nbt_string
walk_nbt_string-Ends source m =
    Ensures-if Unit _ (ltb m 2) _ _ (λ e. tt)
      λ e.
        Ensures->>= Unit (Leaves 2 source) _ (dec_be16 source) _ (dec_be16-Leaves source)
          (λ r h. Ensures-if Unit _ (ltb m (2 + r.0)) _ _ (λ e. tt) (λ e. ground arith))

walk_nbt_array-Runs : (source : List ℕ) (m w : ℕ) → Ensures Unit Any (walk_nbt_array source m w)
unfolding walk_nbt_array
walk_nbt_array-Runs source m w =
    Ensures-if Unit _ (ltb m 4) _ _ (λ e. tt)
      λ e. Ensures->>= Unit (Leaves 4 source) _ (dec_be32 source) _ (dec_be32-Leaves source) (λ r h.
        Ensures-if Unit _ (ltb m (4 + r.0 * w)) _ _ (λ e. tt)
          (λ e. Ensures-to_int Unit _ _ (λ _ _. tt)))

-- Walks that end on every memory of fewer than `l` bytes.
abbrev EndsBelow : ℕ → Walker → Type 0
EndsBelow l walk = (source : List ℕ) (m : ℕ) → length source < l → Ends m (walk source m)

walk_list_loop-Runs :
    (l : ℕ) (walk : Walker) (n : ℕ) (source : List ℕ) (m size : ℕ)
    → EndsBelow l walk
    → length source < l
    → Ensures Unit Any (walk_list_loop walk n source m size)
unfolding walk_list_loop
walk_list_loop-Runs l walk zero source m size h hs = Ensures-to_int Unit _ _ (λ _ _. tt)
walk_list_loop-Runs l walk (suc n) source m size h hs =
    Ends->>= Any m (walk source m) _ (h source m hs) (λ step _.
      walk_list_loop-Runs l walk n (drop step source) (sub_size m step) (size + step) h
        (omega (arith, length-drop step source)))

walk_nbt_list-Runs :
    (l : ℕ) (walk : ℕ → Walker) (source : List ℕ) (m : ℕ)
    → ((t : ℕ) → EndsBelow l (walk t))
    → length source ≤ l
    → Ensures Unit Any (walk_nbt_list walk source m)
unfolding walk_nbt_list
walk_nbt_list-Runs l walk source m h hs =
    Ensures-if Unit _ (ltb m 5) _ _ (λ e. tt)
      λ e. Ensures->>= Unit (Leaves 1 source) _ (dec_byte source) _ (dec_byte-Leaves source) λ r hr.
        Ensures->>= Unit (Leaves 4 r.1) _ (dec_be32 r.1) _ (dec_be32-Leaves r.1)
          λ c hc. walk_list_loop-Runs l (walk r.0) (rounds c.0) c.1 m 5 (h r.0) (omega arith)

walk_compound_loop-Runs :
    (l : ℕ) (walk : ℕ → Walker) (fuel : ℕ) (source : List ℕ) (m total : ℕ)
    → ((t : ℕ) → EndsBelow l (walk t))
    → length source ≤ l
    → length source < fuel
    → Ensures Unit Any (walk_compound_loop walk fuel source m total)
unfolding walk_compound_loop
walk_compound_loop-Runs l walk zero source m total h hs hf = absurd (omega arith)
walk_compound_loop-Runs l walk (suc fuel) source m total h hs hf =
    Ensures-if Unit _ (m == 0) _ _ (λ e. tt)
      λ e. Ensures->>= Unit (Leaves 1 source) _ (dec_byte source) _ (dec_byte-Leaves source) λ r hr.
        Ensures-if Unit _ (r.0 == 0) _ _ (λ e. Ensures-to_int Unit _ _ (λ _ _. tt))
          λ e.
            let m1 : ℕ = sub_size m 1 in
            Ends->>= Any m1 (walk_nbt_string r.1 m1) _ (walk_nbt_string-Ends r.1 m1) λ s _.
              let m2 : ℕ = sub_size m1 s in
              let inside : length (drop s r.1) < l = omega (arith, length-drop s r.1) in
              Ends->>= Any m2 (walk r.0 (drop s r.1) m2) _ (h r.0 (drop s r.1) m2 inside) λ k _.
                walk_compound_loop-Runs l walk fuel (drop k (drop s r.1)) (sub_size m2 k)
                  (total + 1 + s + k) h
                  (omega (arith, length-drop s r.1, length-drop k (drop s r.1)))
                  (omega (arith, length-drop s r.1, length-drop k (drop s r.1)))

walk_payload-Runs :
    (l : ℕ) (walk : ℕ → Walker) (t : ℕ) (source : List ℕ) (m : ℕ)
    → ((t : ℕ) → EndsBelow l (walk t))
    → length source ≤ l
    → Ensures Unit Any (walk_payload walk t source m)
unfolding walk_payload walk_nbt_compound
walk_payload-Runs l walk t source m h hs =
    when 1 _ _ (λ _. tt)
      λ _.
        when 2 _ _ (λ _. tt)
          λ _.
            when 3 _ _ (λ _. tt)
              λ _.
                when 4 _ _ (λ _. tt)
                  λ _.
                    when 5 _ _ (λ _. tt)
                      λ _.
                        when 6 _ _ (λ _. tt)
                          λ _.
                            when 7 _ _ (λ _. walk_nbt_array-Runs source m 1)
                              λ _.
                                when 8 _ _
                                  (λ _.
                                    weaken (walk_nbt_string source m)
                                      (walk_nbt_string-Ends source m))
                                  λ _.
                                    when 9 _ _ (λ _. walk_nbt_list-Runs l walk source m h hs)
                                      λ _.
                                        when 10 _ _
                                          (λ _.
                                            walk_compound_loop-Runs l walk (suc (length source))
                                              source m 0 h hs (omega arith))
                                          λ _.
                                            when 11 _ _ (λ _. walk_nbt_array-Runs source m 4)
                                              λ _.
                                                when 12 _ _ (λ _. walk_nbt_array-Runs source m 8)
                                                  λ _. tt
  where
    when :
        (k : ℕ) (x y : Outcome ℕ)
        → ((t == k) ≡ true → Ensures Unit Any x)
        → ((t == k) ≡ false → Ensures Unit Any y)
        → Ensures Unit Any (if t == k then x else y)
    when k x y hx hy = Ensures-if Unit Any (t == k) x y hx hy

    weaken : (o : Outcome ℕ) → Ends m o → Ensures Unit Any o
    weaken (ok n) e = tt
    weaken (err n) e = tt
    weaken null e = tt
    weaken fault e = tt
    weaken stuck e = e

walk_unnamed_nbt-Ends : (d t : ℕ) → EndsBelow d (walk_unnamed_nbt d t)
unfolding walk_unnamed_nbt
walk_unnamed_nbt-Ends zero t source m hs = absurd (omega arith)
walk_unnamed_nbt-Ends (suc d) t source m hs =
    Ensures->>= Unit Any _ (or_minus_one (walk_payload (walk_unnamed_nbt d) t source m)) _
      (Ensures-or_minus_one Unit Any (walk_payload (walk_unnamed_nbt d) t source m) (
        walk_payload-Runs d (walk_unnamed_nbt d) t source m (walk_unnamed_nbt-Ends d)
          (omega arith)))
      (λ n _. Ensures-if Unit _ (ltb m n) _ _ (λ e. tt) (λ e. ground arith))

-- The recursion of `walk_nbt` ends on every input: the length of the memory is fuel enough.
pub walk_nbt-ne-stuck : (source : List ℕ) (max_len : ℕ) → walk_nbt source max_len ≢ stuck
unfolding walk_nbt
walk_nbt-ne-stuck source m = Ensures-ne-stuck Unit Any _ (
    Ensures-if Unit Any (m == 0) _ _ (λ _. tt)
      λ _.
        Ensures->>= Unit (Leaves 1 source) Any (dec_byte source) _ (dec_byte-Leaves source) λ r _.
          let m1 : ℕ = sub_size m 1 in
          Ends->>= Any m1 (walk_nbt_string r.1 m1) _ (walk_nbt_string-Ends r.1 m1) λ s _.
            let m2 : ℕ = sub_size m1 s in
            let source' : List ℕ = drop s r.1 in
            Ends->>= Any m2 (walk_unnamed_nbt (suc (length source')) r.0 source' m2) _
              (walk_unnamed_nbt-Ends (suc (length source')) r.0 source' m2 (omega arith))
              λ k _. Ensures-to_int Unit Any (1 + s + k) (λ _ _. tt))

-- `walk_unnamed_nbt` never returns more than `max_len`, on any input and any type.
pub walk_unnamed_nbt-le :
    (depth type : ℕ) (source : List ℕ) (max_len n : ℕ)
    → walk_unnamed_nbt depth type source max_len ≡ ok n
    → n ≤ max_len
unfolding walk_unnamed_nbt
walk_unnamed_nbt-le zero t source m n e = cc
walk_unnamed_nbt-le (suc d) t source m n e = ground arith

first_element_overread :
    (d k : ℕ) → walk_list_loop (walk_unnamed_nbt (suc d) 8) (suc k) [] 5 5 ≡ fault
unfolding walk_list_loop walk_unnamed_nbt dec_be16
first_element_overread d k = refl

dec_be32-count : (count : ℕ) → count < 2 ^ 31 → dec_be32 (enc_be32 count) ≡ ok (count, [])
dec_be32-count count h =
    let e : dec_be32 (enc_be32 count) ≡ ok (count % 2 ^ 32, []) =
      rw (append-nil (enc_be32 count)) at ((dec_be-enc_be count []).1) in
    ground arith

list_overread :
    (d k : ℕ)
    → k + 1 < 2 ^ 31
    → walk_nbt_list (walk_unnamed_nbt (suc d)) (8 ∷ enc_be32 (k + 1)) 5 ≡ fault
unfolding walk_nbt_list dec_byte
list_overread d k hi =
    let e : rounds (k + 1) ≡ suc k = ground arith in
    rw (dec_be32-count (k + 1) hi) (rw e (first_element_overread d k))

-- `walk_nbt_list` hands its elements a `max_len` that still counts its own five bytes. So a buffer
-- that holds just the head of a non-empty list of strings, and nothing behind it, is read behind its
-- end by `walk_unnamed_nbt`, although `max_len` is the true size of the buffer.
pub walk_nbt_list_overread :
    (depth count : ℕ)
    → 1 ≤ count
    → count < 2 ^ 31
    → walk_unnamed_nbt (suc (suc depth)) 9 (8 ∷ enc_be32 count) 5 ≡ fault
unfolding walk_unnamed_nbt walk_payload
walk_nbt_list_overread d count lo hi =
    let k : ℕ = count - 1 in
    let e : count ≡ k + 1 = omega arith in rw (e, list_overread d k (omega arith))
