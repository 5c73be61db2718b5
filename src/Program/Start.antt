-- ===== src/Program/Start.antt =====
-- The start of the program, c/src/main.c, where the command line ends it, and the port that
-- `server_init`, c/src/server.c, binds to.
use jabber.Base.{
  ℕ, ◌+◌, ◌*◌, ◌<◌, ◌≡◌, ◌⊎◌, ap, ◌∙◌, ◌&&◌, Text, refl, some, List, ◌==◌, if◌then◌else◌, arith,
  Bool-cases, inl, inr,
}
use jabber.World.{World, Env, ◌>>=◌, pure, gets, change}
use jabber.Server.{close_fd}
use jabber.World.Steps.{Runs}
use jabber.Config.{Config, ℤ, negsuc, Options, pos, config_defaults}
use jabber.Config.Options.{stopper, verdict, config_parse_args-overridden}
use jabber.Log.{no_log}
use jabber.Program.{
  Sockets, System, Tick, exited, uint16, server_init, with_socket, with_port, start, program_main,
  listening, init_failed, init_table, bind_socket,
}

start-verdict :
    (e : Env) (s : System) (ticks : List Tick) (w : World) (cfg : Config) (opt : ℕ)
    → start e s ticks (cfg, verdict (some opt)) w
      ≡ some ((exited (if opt == b'h' then 0 else 1), no_log), w)
unfolding start pure
start-verdict e s ticks w cfg opt = elim (Bool-cases (opt == b'h')) [
  | inl x ↦ rw x refl
  | inr x ↦ rw x refl
]

-- Where the command line has an option that is not a setting, the first such one ends the program
-- before it opens its log or a socket and before it changes anything: with 0 for help, and with 1
-- for an option that it does not know.
pub program_main-stopper :
    (e : Env) (s : System) (ticks : List Tick) (opts : Options) (w : World) (opt : ℕ)
    → stopper opts ≡ some opt
    → Runs (program_main e s ticks opts) w (exited (if opt == b'h' then 0 else 1), no_log) w
unfolding program_main gets ◌>>=◌
program_main-stopper e s ticks opts w opt stops =
    rw (config_parse_args-overridden w.files opts config_defaults, stops)
      (start-verdict e s ticks w _ opt)

-- `p` is `i` modulo 65536, for an int `i` of either sign.
abbrev pub SamePort : ℤ → ℕ → Type 0
SamePort i p =
    (p < 65536)
    × ((k : ℕ) × ((i ≡ pos (p + 65536 * k)) ⊎ ((n : ℕ) × (i ≡ negsuc n) × (n + 1 + p ≡ 65536 * k))))

uint16-wraps : (i : ℤ) (p : ℕ) → SamePort i p → uint16 i ≡ p
unfolding uint16
uint16-wraps i p (small, (k, inl e)) = rw e (omega arith)
uint16-wraps i p (small, (k, inr (n, e, sum))) = rw e (omega arith)

-- Both ways in which the socket may be left: bound and listening, or closed.
bind_socket-answer :
    (s : Sockets) (address : Text) (fd p : ℕ) (w : World)
    → bind_socket s address fd p w
      ≡ some (
          if s.inet_pton address && s.bind_to p && s.listen
          then (listening fd, init_table fd w)
          else (init_failed, close_fd fd w))
unfolding bind_socket change pure ◌>>=◌
bind_socket-answer s address fd p w = elim (Bool-cases (s.inet_pton address)) [
  | inr a ↦ rw a refl
  | inl a ↦ elim (Bool-cases (s.bind_to p)) [
    | inr b ↦ rw (a, b) refl
    | inl b ↦ elim (Bool-cases s.listen) [ inr l ↦ rw (a, b, l) refl | inl l ↦ rw (a, b, l) refl ]
  ]
]

-- The port is not checked: where the socket was made, `server_init` binds to the number of 16 bits
-- that is the port of the configuration modulo 65536, of whatever sign that is. It answers with the
-- socket and sets up the table if the address parses and this number can be bound and listened on,
-- and else closes the socket and changes nothing else.
pub server_init-wraps :
    (s : Sockets) (cfg : Config) (i : ℤ) (p fd : ℕ) (w : World)
    → SamePort i p
    → s.socket ≡ some fd
    → server_init s (record cfg { port = some i }) w
      ≡ some (
          if s.inet_pton cfg.bind_address && s.bind_to p && s.listen
          then (listening fd, init_table fd w)
          else (init_failed, close_fd fd w))
unfolding server_init with_socket with_port
server_init-wraps s cfg i p fd w same made =
    ap (λ o. with_socket s (record cfg { port = some i }) o w) made
    ∙ ap (λ q. bind_socket s cfg.bind_address fd q w) (uint16-wraps i p same)
    ∙ bind_socket-answer s cfg.bind_address fd p w
