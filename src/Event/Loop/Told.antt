-- ===== src/Event/Loop/Told.antt =====
-- What a run of the loop has emitted.
use c_spock_bot.Prelude.{
  ℕ, zero, suc, ◌≤◌, ◌≡◌, refl, sym, arith, List, [], ◌∷◌, ◌++◌, if◌then◌else◌, Bool, true, false,
  Bool-cases, inl, inr, ap,
}
use mathlib.Core.Path.{subst}
use c_spock_bot.Event.Loop.{
  OwnEvent, start_event, tick_event, kill_event, Act, emitted, killed, Stand, starting, start_wait,
  checking, ticking, tick_wait, killing, kill_wait, checking_once, ticking_once, once_wait,
  returned, Loop, own_step, call_kill, Who, itself, another, step, run, begun,
}

-- The emissions, the latest first.
abbrev pub emissions : List Act → List OwnEvent
emissions [] = []
emissions (emitted own ∷ acts) = own ∷ emissions acts
emissions (killed ∷ acts) = emissions acts

abbrev pub was_killed : List Act → Bool
was_killed [] = false
was_killed (emitted own ∷ acts) = was_killed acts
was_killed (killed ∷ acts) = true

-- How many ticks were emitted after the first call of `sbev_kill`.
abbrev pub late : List Act → ℕ
late [] = 0
late (emitted tick_event ∷ acts) = if was_killed acts then suc (late acts) else late acts
late (emitted start_event ∷ acts) = late acts
late (emitted kill_event ∷ acts) = late acts
late (killed ∷ acts) = late acts

abbrev ticks : ℕ → List OwnEvent
ticks zero = []
ticks (suc n) = tick_event ∷ ticks n

-- A start and then `n` ticks, the latest first.
abbrev pub ticked : ℕ → List OwnEvent
ticked n = ticks n ++ (start_event ∷ [])

-- What is known of the acts at each stand of the continuous loop.
abbrev pub Told : Stand → List Act → Type 0
Told starting acts = (emissions acts ≡ []) × (late acts ≡ 0)
Told start_wait acts = (emissions acts ≡ ticked 0) × (late acts ≡ 0)
Told checking acts = (n : ℕ) × (emissions acts ≡ ticked n) × (late acts ≤ 1)
Told ticking acts = (n : ℕ) × (emissions acts ≡ ticked n) × (late acts ≡ 0)
Told tick_wait acts = (n : ℕ) × (emissions acts ≡ ticked n) × (late acts ≤ 1)
Told killing acts =
    (n : ℕ) × (emissions acts ≡ ticked n) × (late acts ≤ 1) × (was_killed acts ≡ true)
Told kill_wait acts =
    (n : ℕ) × (emissions acts ≡ kill_event ∷ ticked n) × (late acts ≤ 1) × (was_killed acts ≡ true)
Told returned acts =
    (n : ℕ) × (emissions acts ≡ kill_event ∷ ticked n) × (late acts ≤ 1) × (was_killed acts ≡ true)
Told checking_once acts = ⊥
Told ticking_once acts = ⊥
Told once_wait acts = ⊥

late-alive : (acts : List Act) → was_killed acts ≡ false → late acts ≡ 0
late-alive [] h = refl
late-alive (emitted start_event ∷ acts) h = late-alive acts h
late-alive (emitted tick_event ∷ acts) h = rw h (late-alive acts h)
late-alive (emitted kill_event ∷ acts) h = late-alive acts h
late-alive (killed ∷ acts) h = absurd (cc)

late-tick : (acts : List Act) → late (emitted tick_event ∷ acts) ≤ suc (late acts)
late-tick acts = elim (Bool-cases (was_killed acts)) [
  | inl h ↦ rw h (omega arith)
  | inr h ↦ rw h (omega arith)
]

Told-killed : (stand : Stand) (acts : List Act) → Told stand acts → Told stand (killed ∷ acts)
Told-killed starting acts t = t
Told-killed start_wait acts t = t
Told-killed checking acts t = t
Told-killed ticking acts t = t
Told-killed tick_wait acts t = t
Told-killed killing acts t = (t.0, t.1, t.2, refl)
Told-killed kill_wait acts t = (t.0, t.1, t.2, refl)
Told-killed checking_once acts t = t
Told-killed ticking_once acts t = t
Told-killed once_wait acts t = t
Told-killed returned acts t = (t.0, t.1, t.2, refl)

-- The flag is set where `sbev_kill` was called.
abbrev Known : Loop → Type 0
Known l = (l.kill_flag ≡ was_killed l.acts) × Told l.stand l.acts

module _ (ends : Loop → Bool) where
  Known-checked :
      (l : Loop)
      → l.kill_flag ≡ was_killed l.acts
      → Told checking l.acts
      → Known (own_step ends true l checking)
  Known-checked l flag t = elim (Bool-cases l.kill_flag) [
    | inl set ↦ let was : was_killed l.acts ≡ true = cc in rw set (sym was, (t.0, t.1, t.2, was))
    | inr clear ↦
        let was : was_killed l.acts ≡ false = cc in
        rw clear (sym was, (t.0, t.1, late-alive l.acts was))
  ]

  -- After a wait, whether it has ended or not.
  Known-wait :
      (l : Loop) (stand : Stand)
      → l.kill_flag ≡ was_killed l.acts
      → Told l.stand l.acts
      → Told stand l.acts
      → Known (if ends l then record l { stand = stand } else l)
  Known-wait l stand flag here there = elim (Bool-cases (ends l)) [
    | inl over ↦ rw over (flag, there)
    | inr waits ↦ rw waits (flag, here)
  ]

  Known-own :
      (l : Loop) (stand : Stand)
      → l.stand ≡ stand
      → l.kill_flag ≡ was_killed l.acts
      → Told stand l.acts
      → Known (own_step ends true l stand)
  Known-own l starting at flag t = (flag, (rw (t.0) refl, t.1))
  Known-own l start_wait at flag t =
      Known-wait l checking flag (rw at t) (0, t.0, omega (arith, t.1))
  Known-own l checking at flag t = Known-checked l flag t
  Known-own l ticking at flag t =
      (flag, (suc t.0, ap (λ xs. tick_event ∷ xs) t.1, omega (arith, late-tick l.acts, t.2)))
  Known-own l tick_wait at flag t = Known-wait l checking flag (rw at t) t
  Known-own l killing at flag t = (flag, (t.0, ap (λ xs. kill_event ∷ xs) t.1, t.2, t.3))
  Known-own l kill_wait at flag t = Known-wait l returned flag (rw at t) t
  Known-own l checking_once at flag t = absurd t
  Known-own l ticking_once at flag t = absurd t
  Known-own l once_wait at flag t = absurd t
  Known-own l returned at flag t = (flag, rw at t)

  Known-step : (l : Loop) (who : Who) → Known l → Known (step ends true l who)
  unfolding step call_kill
  Known-step l itself k = Known-own l l.stand refl k.0 k.1
  Known-step l another k = (refl, Told-killed l.stand l.acts k.1)

  Known-run : (l : Loop) (later : List Who) → Known l → Known (run ends true l later)
  unfolding run
  Known-run l [] k = k
  Known-run l (who ∷ later) k = Known-run (step ends true l who) later (Known-step l who k)

  -- Whenever others call `sbev_kill`, and whichever waits end, what `sbev_start_event` with the
  -- continuous loop has emitted when it has returned is start first, then ticks, and kill once as the
  -- last, with at most one tick after the first call of `sbev_kill`; it does not return if there was
  -- none.
  pub run-Told :
      (later : List Who)
      → (run ends true begun later).stand ≡ returned
      → (n : ℕ) × (emissions (run ends true begun later).acts ≡ kill_event ∷ ticked n)
        × (late (run ends true begun later).acts ≤ 1)
        × (was_killed (run ends true begun later).acts ≡ true)
  run-Told later ended =
      subst (λ stand. Told stand (run ends true begun later).acts) ended
        (Known-run begun later (refl, (refl, refl))).1
