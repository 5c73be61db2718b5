-- ===== src/Program/Tests.antt =====
-- A server that starts, answers one poll, is interrupted and ends.
use jabber.Base.{inr, arith, ◌≡◌, refl, true, false, ℕ, none, some, List, [], ◌∷◌, codes}
use jabber.World.{World}
use jabber.World.Steps.{Runs, Yields}
use jabber.Config.{Options, negsuc, config_defaults, known_option}
use jabber.Config.Options.{stopper}
use jabber.Log.{no_log}
use jabber.Sample.{sample_env, one_client}
use jabber.Program.{
  Sockets, System, Tick, Revents, exited, flag_set, interrupted, reported, server_init, listening,
  init_table, program_main,
}
use jabber.Program.Invariant.{IsOutcome, program_main-IsOutcome}
use jabber.Program.Start.{program_main-stopper, server_init-wraps}

abbrev good_sockets : Sockets
good_sockets = record { socket = some 3; inet_pton = λ a. true; bind_to = λ p. true; listen = true }

abbrev good_system : System
good_system = record { sockets = good_sockets; log_opens = true; times = λ n. codes "now" }

abbrev no_events : ℕ → Revents
no_events i = record { broken = false; readable = false; can_write = false }

abbrev few_ticks : List Tick
few_ticks = interrupted ∷ reported no_events none ∷ flag_set ∷ []

abbrev before_start : World
before_start = record one_client { heap = λ p. none; sessions = λ i. none; nfds = 0 }

program_main-IsOutcome_example :
    Yields IsOutcome (
      program_main sample_env good_system few_ticks ((b'd', codes "example.org") ∷ []) before_start)
program_main-IsOutcome_example =
    program_main-IsOutcome sample_env good_system few_ticks before_start (λ p. refl)
      ((b'd', codes "example.org") ∷ [])

abbrev help_options : Options
help_options = (b'd', codes "example.org") ∷ (b'h', []) ∷ []

program_main-stopper_example :
    Runs
      (program_main sample_env good_system few_ticks help_options)
      before_start
      (exited 0, no_log)
      before_start
unfolding stopper known_option
program_main-stopper_example =
    program_main-stopper sample_env good_system few_ticks help_options before_start b'h' refl

-- Port -61072 is bound as port 4464.
server_init-wraps_example :
    server_init good_sockets (record config_defaults { port = some (negsuc 61071) }) before_start
    ≡ some (listening 3, init_table 3 before_start)
server_init-wraps_example =
    server_init-wraps good_sockets config_defaults (negsuc 61071) 4464 3 before_start
      (omega arith, (1, inr (61071, refl, omega arith))) refl
