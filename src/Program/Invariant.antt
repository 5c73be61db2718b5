-- ===== src/Program/Invariant.antt =====
-- The whole run of the program keeps the table of sessions, c/src/server.c and c/src/main.c.
use jabber.Base.{
  ℕ, refl, Bool, true, false, Option, none, some, List, [], ◌∷◌, Text, arith, Bool-cases, inl, inr,
}
use jabber.World.{World, Env, ◌>>=◌, ◌>>◌, pure, fault, gets, change}
use jabber.World.Keeps.{Keeps, Ends, Keeps-pure, Keeps-bind, Keeps-gets}
use jabber.World.Steps.{Yields, Yields-bind, Post-Yields, Ends-bind, Ends-Yields}
use jabber.Output.{max_clients}
use jabber.Config.{Config, Options, ArgResult, args_done, help_shown, bad_option, ℤ}
use jabber.Log.{Log}
use jabber.Server.{close_fd, server_shutdown}
use jabber.Server.Alive.{Running, Running-IsStable}
use jabber.Server.Rounds.{server_round-Running}
use jabber.Server.Shutdown.{NoSession, ShutDown, server_shutdown-ShutDown}
use jabber.Program.{
  Sockets, InitResult, listening, init_failed, init_table, uint16, bind_socket, with_port,
  with_socket, server_init, Revents, Tick, flag_set, interrupted, poll_error, reported, report,
  RunResult, run_ended, running_on, Ended, exited, still_running, server_run, end_server, after_run,
  serve, System, start_server, start, program_main,
}

report-Keeps : (r : ℕ → Revents) → Keeps (Running max_clients) (change (report r))
unfolding report
report-Keeps r =
    (Running-IsStable max_clients).keeps_io (report r)
      (λ w. record { heap = refl; next_address = refl; sessions = refl; nfds = refl })

-- The loop keeps the table, however many rounds it makes and whatever they bring.
server_run-Keeps : (e : Env) (ticks : List Tick) → Keeps (Running max_clients) (server_run e ticks)
unfolding server_run
server_run-Keeps e [] = Keeps-pure running_on
server_run-Keeps e (flag_set ∷ ticks) = Keeps-pure run_ended
server_run-Keeps e (interrupted ∷ ticks) = server_run-Keeps e ticks
server_run-Keeps e (poll_error ∷ ticks) = Keeps-pure run_ended
server_run-Keeps e (reported r accepted ∷ ticks) = Keeps-bind _ _ (report-Keeps r) (λ _.
    Keeps-bind _ _ (Keeps-gets _) (λ listener.
      Keeps-bind _ _ (record { at = λ w t. server_round-Running e listener.readable accepted w t })
        (λ _. server_run-Keeps e ticks)))

-- The table that the program starts with.
init_table-Running : (fd : ℕ) (w : World) → NoSession w → Running max_clients (init_table fd w)
unfolding init_table
init_table-Running fd w h = record {
  table = record {
    some_fd = omega arith;
    bounded = omega arith;
    occupied = λ i a b. absurd (omega arith);
    vacant = λ i a. refl;
    indexed = λ p s e. ground (arith, h p);
    fresh = λ p a. h p;
  };
  alive = λ q s at spared. ground (arith, h q);
  few = omega arith;
}

-- The state behind `server_init`.
abbrev IsInit : InitResult → World → Type 0
IsInit (listening fd) w = Running max_clients w
IsInit init_failed w = NoSession w

module _ (w : World) (h : NoSession w) where
  refused : (fd : ℕ) → Yields IsInit ((change (close_fd fd) >> pure init_failed) w)
  unfolding close_fd change pure ◌>>=◌
  refused fd = h

  bind_socket-IsInit :
      (s : Sockets) (address : Text) (fd port : ℕ) → Yields IsInit (bind_socket s address fd port w)
  unfolding bind_socket change pure ◌>>=◌
  bind_socket-IsInit s address fd port = elim (Bool-cases (s.inet_pton address)) [
    | inr x ↦ rw x (refused fd)
    | inl x ↦ elim (Bool-cases (s.bind_to port)) [
      | inr y ↦ rw (x, y) (refused fd)
      | inl y ↦ elim (Bool-cases s.listen) [
        | inr z ↦ rw (x, y, z) (refused fd)
        | inl z ↦ rw (x, y, z) (init_table-Running fd w h)
      ]
    ]
  ]

  with_port-IsInit :
      (s : Sockets) (address : Text) (fd : ℕ) (port : Option ℤ)
      → Yields IsInit (with_port s address fd port w)
  unfolding with_port fault
  with_port-IsInit s address fd none = tt
  with_port-IsInit s address fd (some port) = bind_socket-IsInit s address fd (uint16 port)

  with_socket-IsInit :
      (s : Sockets) (cfg : Config) (socket : Option ℕ) → Yields IsInit (with_socket s cfg socket w)
  unfolding with_socket pure
  with_socket-IsInit s cfg none = h
  with_socket-IsInit s cfg (some fd) = with_port-IsInit s cfg.bind_address fd cfg.port

-- What the program comes to: it goes on with a table that is well formed and whose sessions are
-- alive, or it has exited and no session is left.
abbrev pub IsOutcome : Ended × Log → World → Type 0
IsOutcome (still_running, log) w = Running max_clients w
IsOutcome (exited code, log) w = NoSession w

closed_listener :
    (e : Env) (fd : ℕ) (w : World) → Running max_clients w → Ends NoSession (end_server e fd w)
unfolding end_server close_fd change
closed_listener e fd w t =
    Ends-bind (ShutDown w) NoSession (server_shutdown e) _ w (server_shutdown-ShutDown e w t.table)
      (λ a v shut. shut.no_session)

after_run-IsOutcome :
    (e : Env) (times : ℕ → Text) (fd : ℕ) (log : Log) (r : RunResult) (w : World)
    → Running max_clients w
    → Yields IsOutcome (after_run e times fd log r w)
unfolding after_run pure
after_run-IsOutcome e times fd log running_on w t = t
after_run-IsOutcome e times fd log run_ended w t =
    Yields-bind (λ a. NoSession) IsOutcome (end_server e fd) _ w
      (Ends-Yields NoSession (end_server e fd w) (closed_listener e fd w t))
      (λ a v none_left. none_left)

serve-IsOutcome :
    (e : Env) (times : ℕ → Text) (ticks : List Tick) (log : Log) (r : InitResult) (w : World)
    → IsInit r w
    → Yields IsOutcome (serve e times ticks log r w)
unfolding serve pure
serve-IsOutcome e times ticks log init_failed w h = h
serve-IsOutcome e times ticks log (listening fd) w t =
    Yields-bind (λ r. Running max_clients) IsOutcome (server_run e ticks) _ w
      (Post-Yields (Running max_clients) _ ((server_run-Keeps e ticks).at w t))
      (λ r v k. after_run-IsOutcome e times fd log r v k)

module _ (e : Env) (s : System) (ticks : List Tick) (w : World) (h : NoSession w) where
  start_server-IsOutcome :
      (cfg : Config) (r : Log × Bool) → Yields IsOutcome (start_server e s ticks cfg r w)
  unfolding start_server server_init pure
  start_server-IsOutcome cfg (log, false) = h
  start_server-IsOutcome cfg (log, true) =
      Yields-bind IsInit IsOutcome (server_init s.sockets cfg) _ w
        (with_socket-IsInit w h s.sockets cfg s.sockets.socket)
        (λ r v k. serve-IsOutcome _ s.times ticks _ r v k)

  start-IsOutcome : (p : Config × ArgResult) → Yields IsOutcome (start e s ticks p w)
  unfolding start pure
  start-IsOutcome (cfg, help_shown) = h
  start-IsOutcome (cfg, bad_option) = h
  start-IsOutcome (cfg, args_done) = start_server-IsOutcome cfg _

  -- The whole program, from its command line on, whatever its files, the system and its clients do:
  -- as long as it goes on without undefined behaviour the table of sessions is well formed, every
  -- session in it alive, and once it has exited no session is left. It starts without sessions.
  pub program_main-IsOutcome : (opts : Options) → Yields IsOutcome (program_main e s ticks opts w)
  unfolding program_main gets ◌>>=◌
  program_main-IsOutcome opts = start-IsOutcome _
