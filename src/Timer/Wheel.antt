-- ===== src/Timer/Wheel.antt =====
-- `struct tvec_base` and its functions (timer/timer_list.c), with CONFIG_BASE_SMALL unset: TVN_BITS is
-- 6 and TVR_BITS is 8. A `struct timer_list` is its `expires`, its deferrable flag and a name; whether
-- it is pending is whether it stands in the wheel. `jiffies` is an argument.
use study_notes.Common.{
  ℕ, zero, suc, ◌/◌, ◌%◌, ◌^◌, List, [], ◌∷◌, ◌++◌, Option, none, some, Bool, true, false, not,
  ◌&&◌, ◌||◌, sub64, add64, ltb, leb, ◌==◌, if◌then◌else◌, length, Run, done, spent, ◌>>=◌,
}

pub record Timer : Type 0 where
  pub name : ℕ
  pub expires : ℕ
  pub deferrable : Bool

-- `tv1` to `tv5`.
pub data Tv : Type 0 where
  tv1 tv2 tv3 tv4 tv5 : Tv

abbrev pub same_tv : Tv → Tv → Bool
same_tv tv1 tv1 = true
same_tv tv2 tv2 = true
same_tv tv3 tv3 = true
same_tv tv4 tv4 = true
same_tv tv5 tv5 = true
same_tv _ _ = false

-- `tv k i` is the list that hangs on `tvk.vec[i]`.
pub record Base : Type 0 where
  pub running_timer : Option ℕ
  pub timer_jiffies : ℕ
  pub next_timer : ℕ
  pub active_timers : ℕ
  pub all_timers : ℕ
  pub tv : Tv → ℕ → List Timer

-- The lists with the one at `k`, `i` replaced.
abbrev pub write : (Tv → ℕ → List Timer) → Tv → ℕ → List Timer → Tv → ℕ → List Timer
write tv k i l k' i' = if same_tv k k' && (i == i') then l else tv k' i'

-- `MAX_TVAL`
abbrev pub max_tval : ℕ
max_tval = 0xffff_ffff

-- `time_after_eq(a, b)`, `time_before(a, b)`: the sign of the wrapped difference.
abbrev pub time_after_eq : ℕ → ℕ → Bool
time_after_eq a b = ltb (sub64 a b) (2 ^ 63)

abbrev pub time_before : ℕ → ℕ → Bool
time_before a b = not (time_after_eq a b)

-- Where a timer goes, by its distance from the wheel's time.
unfoldable pub slot : ℕ → ℕ → Tv × ℕ
slot now expires =
    let idx = sub64 expires now in
    if ltb idx (2 ^ 8)
    then (tv1, expires % 2 ^ 8)
    else if ltb idx (2 ^ 14)
    then (tv2, expires / 2 ^ 8 % 2 ^ 6)
    else if ltb idx (2 ^ 20)
    then (tv3, expires / 2 ^ 14 % 2 ^ 6)
    else if ltb idx (2 ^ 26)
    then (tv4, expires / 2 ^ 20 % 2 ^ 6)
    else if leb (2 ^ 63) idx
    then (tv1, now % 2 ^ 8)
    else (tv5, (if ltb max_tval idx then add64 max_tval now else expires) / 2 ^ 26 % 2 ^ 6)

-- `__internal_add_timer`: the timer goes to the tail of its list.
unfoldable pub put : Base → Timer → Base
put b t =
    let (k, i) = slot b.timer_jiffies t.expires in
    record b { tv = write b.tv k i (b.tv k i ++ t ∷ []) }

unfoldable pub catchup : ℕ → Base → Base
catchup jiffies b = if b.all_timers == 0 then record b { timer_jiffies = jiffies } else b

-- The counters of `internal_add_timer`.
abbrev pub count_added : Base → Timer → Base
count_added b t =
    if t.deferrable then record b { all_timers = add64 b.all_timers 1 } else record b {
      all_timers = add64 b.all_timers 1;
      active_timers = add64 b.active_timers 1;
      next_timer =
          if (b.active_timers == 0) || time_before t.expires b.next_timer
          then t.expires
          else b.next_timer;
    }

unfoldable pub internal_add_timer : ℕ → Base → Timer → Base
internal_add_timer jiffies b t = count_added (put (catchup jiffies b) t) t

-- The timers of a list, put into the wheel one after the other.
unfoldable pub put_all : Base → List Timer → Base
put_all b [] = b
put_all b (t ∷ ts) = put_all (put b t) ts

-- `cascade`: it returns its index, which the caller has.
unfoldable pub cascade : Base → Tv → ℕ → Base
cascade b k i = put_all (record b { tv = write b.tv k i [] }) (b.tv k i)

-- `INDEX(n)`
abbrev pub index0 : Base → ℕ
index0 b = b.timer_jiffies / 2 ^ 8 % 2 ^ 6

abbrev pub index1 : Base → ℕ
index1 b = b.timer_jiffies / 2 ^ 14 % 2 ^ 6

abbrev pub index2 : Base → ℕ
index2 b = b.timer_jiffies / 2 ^ 20 % 2 ^ 6

abbrev pub index3 : Base → ℕ
index3 b = b.timer_jiffies / 2 ^ 26 % 2 ^ 6

-- "Cascade timers": each level only where the level below has come round.
unfoldable pub cascades4 : Base → Base
cascades4 b =
    if index2 b == 0
    then cascade (cascade b tv4 (index2 b)) tv5 (index3 b)
    else cascade b tv4 (index2 b)

unfoldable pub cascades3 : Base → Base
cascades3 b =
    if index1 b == 0 then cascades4 (cascade b tv3 (index1 b)) else cascade b tv3 (index1 b)

unfoldable pub cascades : Base → Base
cascades b =
    if b.timer_jiffies % 2 ^ 8 == 0
    then (if index0 b == 0 then cascades3 (cascade b tv2 (index0 b)) else cascade b tv2 (index0 b))
    else b

-- A round of `__run_timers` up to the work list: cascade, step the time, take the list of the jiffy.
unfoldable pub collect : Base → Base × List Timer
collect b =
    let index = b.timer_jiffies % 2 ^ 8 in
    let b' = cascades b in
    (
      record b' { timer_jiffies = add64 b'.timer_jiffies 1; tv = write b'.tv tv1 index [] },
      b'.tv tv1 index,
    )

-- `detach_expired_timer`: the timer is off its list already.
unfoldable pub detach_expired : ℕ → Base → Timer → Base
detach_expired jiffies b t = catchup jiffies (record b {
  active_timers = if t.deferrable then b.active_timers else sub64 b.active_timers 1;
  all_timers = sub64 b.all_timers 1;
})

-- `call` is `call_timer_fn`: a timer's function gets the base and what is left of the work list, and may
-- take timers off both, or put some into the base.
module _ (call : Timer → Base → List Timer → Base × List Timer) (jiffies : ℕ) where
  -- The inner loop: the first timer that is left on the work list is taken off and detached, then its
  -- function is called. It also returns the timers whose functions were called.
  unfoldable pub run_work : ℕ → Base → List Timer → Run (Base × List Timer)
  run_work zero b head = spent
  run_work (suc fuel) b [] = done (b, [])
  run_work (suc fuel) b (t ∷ head) =
      let (b', head') =
        call t (detach_expired jiffies (record b { running_timer = some t.name }) t) head in
      run_work fuel b' head' >>= λ (b'', called). done (b'', t ∷ called)

  -- The outer loop, which also returns whose functions were called at which jiffy.
  unfoldable pub run_loop : ℕ → Base → Run (Base × List (ℕ × List Timer))
  run_loop zero b = spent
  run_loop (suc fuel) b = elim (time_after_eq jiffies b.timer_jiffies) [
    | false ↦ done (record b { running_timer = none }, [])
    | true ↦
        let (b', work) = collect b in
        run_work (suc (length work)) b' work >>= λ (b'', called).
        run_loop fuel b'' >>= λ (out, log). done (out, (b.timer_jiffies, called) ∷ log)
  ]

  unfoldable pub run_timers : ℕ → Base → Run (Base × List (ℕ × List Timer))
  run_timers fuel b =
      let loop = run_loop fuel b in if b.all_timers == 0 then done (catchup jiffies b, []) else loop
