-- ===== src/HooksManager.antt =====
-- core/husarnet/hooks_manager.h and hooks_manager.cpp: hooks that run a while after they were last
-- scheduled. A hook is the number of its type; a timer below 0 is `none`.
pub mod Timing
use husarnet.Common.{
  ℕ, zero, suc, ◌-◌, Bool, true, false, not, Option, none, some, List, [], ◌∷◌, ◌++◌, ◌==◌, leb,
  if◌then◌else◌,
}

-- HOOKS_PERIOD
abbrev pub hooks_period : ℕ
hooks_period = 100

-- HOOKS_BUMP_TIME
abbrev pub hooks_bump_time : ℕ
hooks_bump_time = 200

pub record HooksManager : Type 0 where
  pub enabled : Bool
  pub hook_timers : ℕ → Option ℕ

-- `HooksManager(enableHooks)`
abbrev pub new_hooks_manager : Bool → HooksManager
new_hooks_manager enable_hooks = record { enabled = enable_hooks; hook_timers = λ hook. none }

unfoldable pub schedule_hook : ℕ → HooksManager → HooksManager
schedule_hook hook m = if not m.enabled then m else record m {
  hook_timers = λ other. if other == hook then some hooks_bump_time else m.hook_timers other;
}

-- Whether a hook with this timer runs in the next round, and its timer afterwards.
unfoldable pub is_due : Option ℕ → Bool
is_due none = false
is_due (some time) = leb time hooks_period

unfoldable pub next_timer : Option ℕ → Option ℕ
next_timer none = none
next_timer (some time) = if leb time hooks_period then none else some (time - hooks_period)

-- The hooks below `count` that run, in the order of their types.
unfoldable pub due_hooks : ℕ → (ℕ → Option ℕ) → List ℕ
unfolding is_due
due_hooks zero timers = []
due_hooks (suc count) timers =
    let before = due_hooks count timers in
    if is_due (timers count) then before ++ (count ∷ []) else before

-- A round of `periodicThread` for `count` types of hooks: which hooks run, and the timers afterwards.
unfoldable pub periodic_round : ℕ → HooksManager → List ℕ × HooksManager
unfolding due_hooks next_timer
periodic_round count m = if not m.enabled then ([], m) else (
  due_hooks count m.hook_timers,
  record m { hook_timers = λ hook. next_timer (m.hook_timers hook) },
)
