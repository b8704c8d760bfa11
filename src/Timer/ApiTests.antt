-- ===== src/Timer/ApiTests.antt =====
-- Runs of the functions that arm a timer.
use study_notes.Common.{◌≡◌, refl, ◌⊎◌, some, none, true, false, arith}
use study_notes.Timer.Sums.{sum_by}
use study_notes.Timer.Handlers.{idle, idle-Sound}
use study_notes.Timer.Api.{TimerList, Bases, Boot, mod_timer, init_timers_cpu}
use study_notes.Timer.Mod.{InBases, Modified, mod_timer-Modified}
use study_notes.Timer.Init.{Ready, usable, init_timers_cpu-Ready}

-- Each CPU has a base of its own, and nothing is pending.
abbrev quiet : Bases
quiet = record { base = λ i. idle; tvec_bases = λ cpu. cpu }

abbrev lone : TimerList
lone = record {
  timer = record { name = 1; expires = 103; deferrable = false };
  pending = false;
  base = 0;
}

quiet-InBases : InBases quiet lone
unfolding sum_by
quiet-InBases = record { sound = λ i. idle-Sound; once = λ i. refl; itself = λ e. cc }

mod_timer-Modified_example :
    Modified quiet lone 105 (mod_timer (λ t expires. expires) 100 1 quiet lone 105)
mod_timer-Modified_example =
    mod_timer-Modified 100 (omega arith) (λ t expires. expires) 1 quiet lone 105 quiet-InBases
      (λ i. omega arith) (omega arith)

-- The first CPU comes up.
abbrev cold : Boot
cold = record {
  bases = record { base = λ i. idle; tvec_bases = λ cpu. 0 };
  tvec_base_done = λ cpu. false;
  boot_done = false;
}

init_timers_cpu-Ready_example :
    ((s' : Boot) × (init_timers_cpu 200 none 0 cold ≡ some s') × Ready 200 0 cold s')
    ⊎ ((init_timers_cpu 200 none 0 cold ≡ none)
        × (cold.tvec_base_done 0 ≡ false)
        × (cold.boot_done ≡ true)
        × (usable none ≡ false))
init_timers_cpu-Ready_example = init_timers_cpu-Ready 200 none 0 cold (omega arith) (λ e. refl)
