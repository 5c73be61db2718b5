-- ===== src/Program.antt =====
-- The program from its start to its end: `server_init` and the loop of `server_run`,
-- c/src/server.c, and c/src/main.c. What poll and accept answer is a list, one entry for each time
-- that the loop tests its flag; the loop runs on where the list ends. The log has the messages of
-- main itself.
pub mod Invariant
pub mod Start
mod Tests
use jabber.Base.{
  ℕ, ◌+◌, ◌-◌, ◌%◌, Bool, true, false, not, Option, none, some, List, [], ◌∷◌, ◌++◌, Text, codes,
  ltb, ◌==◌, if◌then◌else◌,
}
use jabber.Config.{
  ℤ, pos, negsuc, Config, log_info, log_error, Options, ArgResult, args_done, help_shown,
  bad_option, config_defaults, config_parse_args,
}
use jabber.Message.Order.{decimal}
use jabber.Log.{Log, no_log, log_init, log_close, log_write}
use jabber.World.{World, Env, PollFd, M, ◌>>=◌, ◌>>◌, pure, fault, gets, change}
use jabber.Server.{close_fd, server_round, server_shutdown}

-- What the calls of server_init answer: socket, inet_pton, bind to a port, and listen.
pub record Sockets : Type 0 where
  pub socket : Option ℕ
  pub inet_pton : Text → Bool
  pub bind_to : ℕ → Bool
  pub listen : Bool

-- 0 with the listening socket, and -1.
pub data InitResult : Type 0 where
  listening : ℕ → InitResult
  init_failed : InitResult

-- (uint16_t)port
unfoldable pub uint16 : ℤ → ℕ
uint16 (pos n) = n % 65536
uint16 (negsuc n) = 65535 - n % 65536

abbrev pub zero_pollfd : PollFd
zero_pollfd = record {
  fd = some 0;
  pollin = false;
  pollout = false;
  broken = false;
  readable = false;
  can_write = false;
}

unfoldable pub init_table : ℕ → World → World
init_table fd w = record w {
  pollfds = λ i. if i == 0 then record zero_pollfd { fd = some fd; pollin = true } else zero_pollfd;
  sessions = λ i. none;
  nfds = 1;
}

unfoldable pub bind_socket : Sockets → Text → ℕ → ℕ → M InitResult
bind_socket s address fd port =
    if not (s.inet_pton address)
    then change (close_fd fd) >> pure init_failed
    else if not (s.bind_to port)
    then change (close_fd fd) >> pure init_failed
    else if not s.listen
    then change (close_fd fd) >> pure init_failed
    else change (init_table fd) >> pure (listening fd)

unfoldable pub with_port : Sockets → Text → ℕ → Option ℤ → M InitResult
unfolding uint16
with_port s address fd none = fault
with_port s address fd (some port) = bind_socket s address fd (uint16 port)

unfoldable pub with_socket : Sockets → Config → Option ℕ → M InitResult
with_socket s cfg none = pure init_failed
with_socket s cfg (some fd) = with_port s cfg.bind_address fd cfg.port

unfoldable pub server_init : Sockets → Config → M InitResult
server_init s cfg = with_socket s cfg s.socket

-- The `revents` of one entry.
pub record Revents : Type 0 where
  pub broken : Bool
  pub readable : Bool
  pub can_write : Bool

-- One test of the flag: it is set, or poll ends with EINTR, another error, or its report; with
-- the last, what accept gives if it is called.
pub data Tick : Type 0 where
  flag_set interrupted poll_error : Tick
  reported : (ℕ → Revents) → Option ℕ → Tick

unfoldable pub report : (ℕ → Revents) → World → World
report r w = record w {
  pollfds = λ i.
      if ltb i w.nfds
      then record (w.pollfds i) {
        broken = (r i).broken;
        readable = (r i).readable;
        can_write = (r i).can_write;
      }
      else w.pollfds i;
}

-- What the list of ticks leaves: the loop ended, or it goes on.
pub data RunResult : Type 0 where
  run_ended running_on : RunResult

-- The exit code, or the server goes on.
pub data Ended : Type 0 where
  exited : ℕ → Ended
  still_running : Ended

unfoldable pub port_text : Option ℤ → Text
unfolding decimal
port_text none = []
port_text (some (pos n)) = decimal 1 n
port_text (some (negsuc n)) = codes "-" ++ decimal 1 (n + 1)

unfoldable pub start_message : Config → Text
unfolding port_text
start_message cfg =
    codes "xmppd starting on "
    ++ (cfg.bind_address
        ++ (codes ":"
            ++ (port_text cfg.port
                ++ (codes " domain=" ++ (cfg.domain ++ (codes " datadir=" ++ cfg.datadir))))))

-- g_config, as the handlers see it.
unfoldable pub configured : Config → Env → Env
configured cfg e = record e { domain = cfg.domain; datadir = cfg.datadir }

module _ (e : Env) where
  unfoldable pub server_run : List Tick → M RunResult
  server_run [] = pure running_on
  server_run (flag_set ∷ ticks) = pure run_ended
  server_run (interrupted ∷ ticks) = server_run ticks
  server_run (poll_error ∷ ticks) = pure run_ended
  server_run (reported r accepted ∷ ticks) = do
    change (report r)
    listener ← gets (λ w. w.pollfds 0)
    server_round e listener.readable accepted
    server_run ticks

  -- The sessions, then the listening socket.
  unfoldable pub end_server : ℕ → M (Unit {0})
  end_server listen_fd = do server_shutdown e; change (close_fd listen_fd)

  unfoldable pub after_run : (ℕ → Text) → ℕ → Log → RunResult → M (Ended × Log)
  after_run times listen_fd log running_on = pure (still_running, log)
  after_run times listen_fd log run_ended = do
    end_server listen_fd
    pure (exited 0, log_close (log_write log_info (times 1) (codes "xmppd shutting down") log))

  unfoldable pub serve : (ℕ → Text) → List Tick → Log → InitResult → M (Ended × Log)
  serve times ticks log init_failed = pure (
    exited 1,
    log_close (log_write log_error (times 1) (codes "Failed to initialize server") log),
  )
  serve times ticks log (listening fd) = do result ← server_run ticks; after_run times fd log result

-- The system of a run: the sockets, whether the log file opens, and the times of the log.
pub record System : Type 0 where
  pub sockets : Sockets
  pub log_opens : Bool
  pub times : ℕ → Text

module _ (e : Env) (s : System) (ticks : List Tick) where
  unfoldable pub start_server : Config → Log × Bool → M (Ended × Log)
  unfolding configured start_message
  start_server cfg (log, opened) = if not opened then pure (exited 1, log) else do
    result ← server_init s.sockets cfg
    serve (configured cfg e) s.times ticks (log_write log_info (s.times 0) (start_message cfg) log)
        result

  unfoldable pub start : Config × ArgResult → M (Ended × Log)
  unfolding log_init
  start (cfg, help_shown) = pure (exited 0, no_log)
  start (cfg, bad_option) = pure (exited 1, no_log)
  start (cfg, args_done) = start_server cfg (log_init s.log_opens cfg.logfile cfg.loglevel no_log)

  unfoldable pub program_main : Options → M (Ended × Log)
  program_main opts = do
    parsed ← gets (λ w. config_parse_args w.files opts config_defaults)
    start parsed
