-- ===== src/Timer/Api.antt =====
-- The functions that arm a timer (timer/timer_list.c), on the bases of all CPUs. `apply_slack`,
-- `get_nohz_timer_target`, `kzalloc_node` and `migrate_timers` are not part of the repository: their
-- results are arguments.
use study_notes.Common.{
  ℕ, List, [], ◌∷◌, Option, none, some, Bool, true, false, not, ◌&&◌, ◌==◌, sub64, if◌then◌else◌,
  Run, done, bug,
}
use study_notes.Timer.Wheel.{
  Timer, Tv, Base, catchup, internal_add_timer, time_after_eq, run_timers,
}

-- `struct timer_list`: `pending` is `entry.next != NULL`, and `base` names the `struct tvec_base`.
pub record TimerList : Type 0 where
  pub timer : Timer
  pub pending : Bool
  pub base : ℕ

-- The bases by name, and `per_cpu(tvec_bases, cpu)`.
pub record Bases : Type 0 where
  pub base : ℕ → Base
  pub tvec_bases : ℕ → ℕ

abbrev pub write_base : (ℕ → Base) → ℕ → Base → ℕ → Base
write_base base n b i = if n == i then b else base i

-- The list without the entry of the timer.
abbrev pub unlinked : ℕ → List Timer → List Timer
unlinked name [] = []
unlinked name (x ∷ xs) = let rest = unlinked name xs in if x.name == name then rest else x ∷ rest

-- `__list_del` of `detach_timer`: the timer stands in one list only, whichever it is.
abbrev pub detach_timer : ℕ → (Tv → ℕ → List Timer) → Tv → ℕ → List Timer
detach_timer name tv k i = unlinked name (tv k i)

-- The counters of `detach_if_pending`.
abbrev pub count_detached : Base → Timer → Base
count_detached b t = record b {
  active_timers = if t.deferrable then b.active_timers else sub64 b.active_timers 1;
  next_timer =
      if not t.deferrable && (t.expires == b.next_timer) then b.timer_jiffies else b.next_timer;
  all_timers = sub64 b.all_timers 1;
}

-- `detach_if_pending`: the base, the timer, and whether it was pending.
unfoldable pub detach_if_pending : ℕ → TimerList → Base → Bool → Base × TimerList × Bool
detach_if_pending jiffies t b clear_pending = if not t.pending then (b, t, false) else (
  catchup jiffies (count_detached (record b { tv = detach_timer t.timer.name b.tv }) t.timer),
  record t { pending = not clear_pending },
  true,
)

-- `base->running_timer == timer`
abbrev pub is_running : Base → ℕ → Bool
is_running b name = elim b.running_timer [ none ↦ false | some n ↦ n == name ]

-- `__mod_timer`, where `get_nohz_timer_target` returns `cpu`.
unfoldable pub mod_timer_on : ℕ → ℕ → Bases → TimerList → ℕ → Bool → Bases × TimerList × Bool
mod_timer_on jiffies cpu w t expires pending_only =
    let (b, t', ret) = detach_if_pending jiffies t (w.base t.base) false in
    let bases = write_base w.base t.base b in
    let new_base = w.tvec_bases cpu in
    let n =
      if not (t.base == new_base) && not (is_running b t.timer.name) then new_base else t.base in
    let timer = record t.timer { expires = expires } in
    if not ret && pending_only then (record w { base = bases }, t', ret) else (
      record w { base = write_base bases n (internal_add_timer jiffies (bases n) timer) },
      record { timer = timer; pending = true; base = n },
      ret,
    )

module _ (apply_slack : Timer → ℕ → ℕ) where
  unfoldable pub mod_timer : ℕ → ℕ → Bases → TimerList → ℕ → Bases × TimerList × Bool
  mod_timer jiffies cpu w t expires =
      let expires' = apply_slack t.timer expires in
      if t.pending && (t.timer.expires == expires')
      then (w, t, true)
      else mod_timer_on jiffies cpu w t expires' false

  unfoldable pub add_timer : ℕ → ℕ → Bases → TimerList → Run (Bases × TimerList)
  add_timer jiffies cpu w t =
      if t.pending
      then bug
      else (let (w', t', ret) = mod_timer jiffies cpu w t t.timer.expires in done (w', t'))

-- `tvec_base_done[]` and `boot_done` of `init_timers_cpu`, with the bases.
pub record Boot : Type 0 where
  pub bases : Bases
  pub tvec_base_done : ℕ → Bool
  pub boot_done : Bool

-- `boot_tvec_bases`
abbrev pub boot_tvec_bases : ℕ
boot_tvec_bases = 0

-- The last part of `init_timers_cpu`: empty lists and counters.
abbrev pub reset : ℕ → Base → Base
reset jiffies b = record b {
  timer_jiffies = jiffies;
  next_timer = jiffies;
  active_timers = 0;
  all_timers = 0;
  tv = λ k i. [];
}

abbrev pub reset_in : ℕ → Bases → ℕ → Bases
reset_in jiffies w n = record w { base = write_base w.base n (reset jiffies (w.base n)) }

-- `init_timers_cpu`: `kzalloc` is the base that `kzalloc_node` returns, if any, and whether it has its
-- flag bits free. `none` is -ENOMEM.
unfoldable pub init_timers_cpu : ℕ → Option (ℕ × Bool) → ℕ → Boot → Option Boot
init_timers_cpu jiffies kzalloc cpu s =
    if s.tvec_base_done cpu
    then some (record s { bases = reset_in jiffies s.bases (s.bases.tvec_bases cpu) })
    else if not s.boot_done
    then some (record {
      bases = reset_in jiffies s.bases boot_tvec_bases;
      tvec_base_done = λ c. if cpu == c then true else s.tvec_base_done c;
      boot_done = true;
    })
    else elim kzalloc [
      | none ↦ none
      | some (n, false) ↦ none
      | some (n, true) ↦ some (record {
        bases =
            reset_in jiffies
              (record s.bases { tvec_bases = λ c. if cpu == c then n else s.bases.tvec_bases c }) n;
        tvec_base_done = λ c. if cpu == c then true else s.tvec_base_done c;
        boot_done = s.boot_done;
      })
    ]

-- The actions that `timer_cpu_notify` tells apart.
pub data Action : Type 0 where
  up_prepare up_prepare_frozen dead dead_frozen : Action
  other_action : ℕ → Action

-- `timer_cpu_notify`: the state, and whether it is NOTIFY_OK. `migrate_timers` is a parameter.
unfoldable pub timer_cpu_notify :
    (ℕ → Boot → Boot) → ℕ → Option (ℕ × Bool) → Action → ℕ → Boot → Boot × Bool
timer_cpu_notify migrate_timers jiffies kzalloc up_prepare cpu s =
    elim (init_timers_cpu jiffies kzalloc cpu s) [ none ↦ (s, false) | some s' ↦ (s', true) ]
timer_cpu_notify migrate_timers jiffies kzalloc up_prepare_frozen cpu s =
    elim (init_timers_cpu jiffies kzalloc cpu s) [ none ↦ (s, false) | some s' ↦ (s', true) ]
timer_cpu_notify migrate_timers jiffies kzalloc dead cpu s = (migrate_timers cpu s, true)
timer_cpu_notify migrate_timers jiffies kzalloc dead_frozen cpu s = (migrate_timers cpu s, true)
timer_cpu_notify migrate_timers jiffies kzalloc (other_action n) cpu s = (s, true)

-- `run_timer_softirq` on the base of this CPU.
unfoldable pub run_timer_softirq :
    (Timer → Base → List Timer → Base × List Timer)
    → ℕ
    → ℕ
    → Base
    → Run (Base × List (ℕ × List Timer))
run_timer_softirq call jiffies fuel b =
    let run = run_timers call jiffies fuel b in
    if time_after_eq jiffies b.timer_jiffies then run else done (b, [])
