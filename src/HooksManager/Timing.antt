-- ===== src/HooksManager/Timing.antt =====
-- A hook runs in the second round after it was last scheduled, and in no other.
use husarnet.Common.{
  ℕ, zero, suc, ◌+◌, ◌<◌, ◌≡◌, refl, ap, ◌∙◌, true, Option, none, some, List, [], ◌∷◌, ◌++◌, ◌==◌,
  ltb, ◌&&◌, if◌then◌else◌, arith, Bool-cases, inl, inr,
}
use husarnet.HooksManager.{
  HooksManager, new_hooks_manager, schedule_hook, is_due, next_timer, due_hooks, periodic_round,
}

-- What happens to the hooks, the newest first.
pub data Event : Type 0 where
  scheduled : ℕ → Event
  round_over : Event

-- The manager after a history.
abbrev pub after : ℕ → List Event → HooksManager
after count [] = new_hooks_manager true
after count (scheduled hook ∷ es) = schedule_hook hook (after count es)
after count (round_over ∷ es) = (periodic_round count (after count es)).1

-- The rounds since a hook was last scheduled, if it ever was.
abbrev pub rounds_since : ℕ → List Event → Option ℕ
rounds_since hook [] = none
rounds_since hook (scheduled other ∷ es) =
    let before = rounds_since hook es in if hook == other then some 0 else before
rounds_since hook (round_over ∷ es) = elim (rounds_since hook es) [
  | none ↦ none
  | some n ↦ some (suc n)
]

-- The timer that goes with so many rounds.
timer_after : Option ℕ → Option ℕ
timer_after none = none
timer_after (some zero) = some 200
timer_after (some (suc zero)) = some 100
timer_after (some (suc (suc n))) = none

next_timer_after :
    (o : Option ℕ)
    → next_timer (timer_after o) ≡ timer_after (elim o [ none ↦ none | some n ↦ some (suc n) ])
unfolding next_timer timer_after
next_timer_after none = refl
next_timer_after (some zero) = refl
next_timer_after (some (suc zero)) = refl
next_timer_after (some (suc (suc n))) = refl

still_enabled : (count : ℕ) (es : List Event) → (after count es).enabled ≡ true
unfolding schedule_hook periodic_round
still_enabled count [] = refl
still_enabled count (scheduled hook ∷ es) = ground (arith, still_enabled count es)
still_enabled count (round_over ∷ es) = ground (arith, still_enabled count es)

schedule_hook-timers :
    (other hook : ℕ) (m : HooksManager)
    → m.enabled ≡ true
    → (schedule_hook other m).hook_timers hook
      ≡ (if hook == other then some 200 else m.hook_timers hook)
unfolding schedule_hook
schedule_hook-timers other hook m e = ground (arith, e)

periodic_round-timers :
    (count hook : ℕ) (m : HooksManager)
    → m.enabled ≡ true
    → (periodic_round count m).1.hook_timers hook ≡ next_timer (m.hook_timers hook)
unfolding periodic_round
periodic_round-timers count hook m e = ground (arith, e)

periodic_round-due :
    (count : ℕ) (m : HooksManager)
    → m.enabled ≡ true
    → (periodic_round count m).0 ≡ due_hooks count m.hook_timers
unfolding periodic_round
periodic_round-due count m e = ground (arith, e)

timer_of :
    (count hook : ℕ) (es : List Event)
    → (after count es).hook_timers hook ≡ timer_after (rounds_since hook es)
unfolding timer_after
timer_of count hook [] = refl
timer_of count hook (scheduled other ∷ es) =
    schedule_hook-timers other hook (after count es) (still_enabled count es)
    ∙ (ap (λ t. if hook == other then some 200 else t) (timer_of count hook es) ∙ same)
  where
    same :
        (if hook == other then some 200 else timer_after (rounds_since hook es))
        ≡ timer_after (if hook == other then some 0 else rounds_since hook es)
    same = elim (Bool-cases (hook == other)) [ inl e ↦ rw e refl | inr e ↦ rw e refl ]
timer_of count hook (round_over ∷ es) =
    periodic_round-timers count hook (after count es) (still_enabled count es)
    ∙ (ap next_timer (timer_of count hook es) ∙ next_timer_after (rounds_since hook es))

-- How often a hook is among those that run.
abbrev pub times : ℕ → List ℕ → ℕ
times hook [] = 0
times hook (other ∷ rest) = (if hook == other then 1 else 0) + times hook rest

times-append : (hook : ℕ) (xs ys : List ℕ) → times hook (xs ++ ys) ≡ times hook xs + times hook ys
times-append hook [] ys = omega arith
times-append hook (x ∷ xs) ys = omega (arith, times-append hook xs ys)

times-due_hooks :
    (hook count : ℕ) (timers : ℕ → Option ℕ)
    → times hook (due_hooks count timers)
      ≡ (if ltb hook count && is_due (timers hook) then 1 else 0)
unfolding due_hooks
times-due_hooks hook zero timers = ground arith
times-due_hooks hook (suc count) timers =
    let before = times-due_hooks hook count timers in
    let appended = times-append hook (due_hooks count timers) (count ∷ []) in
    elim (Bool-cases (hook == count)) [
      | inl e ↦
          let same : hook ≡ count = ground (arith, e) in
          let due : is_due (timers hook) ≡ is_due (timers count) =
            ap (λ h. is_due (timers h)) same in
          ground (arith, e, same, due, before, appended)
      | inr e ↦ ground (arith, e, before, appended)
    ]

-- Once if the hook was last scheduled one round ago, else not.
abbrev pub runs : Option ℕ → ℕ
runs (some (suc zero)) = 1
runs (some zero) = 0
runs (some (suc (suc n))) = 0
runs none = 0

due_after : (o : Option ℕ) → (if is_due (timer_after o) then 1 else 0) ≡ runs o
unfolding is_due timer_after
due_after none = refl
due_after (some zero) = refl
due_after (some (suc zero)) = refl
due_after (some (suc (suc n))) = refl

-- In a round a hook runs once if exactly one round has passed since it was last scheduled, and else not
-- at all, after any history: scheduling it again starts its time anew, and it runs once only.
pub times-periodic_round :
    (count hook : ℕ) (es : List Event)
    → hook < count
    → times hook (periodic_round count (after count es)).0 ≡ runs (rounds_since hook es)
times-periodic_round count hook es h =
    ran
    ∙ (times-due_hooks hook count (after count es).hook_timers
        ∙ (ground (arith, h, timer_of count hook es, due_after (rounds_since hook es))))
  where
    ran :
        times hook (periodic_round count (after count es)).0
        ≡ times hook (due_hooks count (after count es).hook_timers)
    ran = ap (times hook) (periodic_round-due count (after count es) (still_enabled count es))
