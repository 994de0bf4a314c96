-- ===== src/Envelope/Typ.antt =====
-- The frame types of workers/pairfob-origin/src/envelope.ts.
use pairfob.Prelude.{ℕ}

abbrev pub hello_daemon : ℕ
hello_daemon = 1

abbrev pub hello_client : ℕ
hello_client = 2

abbrev pub pair_open : ℕ
pair_open = 3

abbrev pub pair_attach : ℕ
pair_attach = 4

abbrev pub fwd : ℕ
fwd = 5

abbrev pub pair_close : ℕ
pair_close = 6

abbrev pub error : ℕ
error = 7

abbrev pub ping : ℕ
ping = 8

abbrev pub pong : ℕ
pong = 9

abbrev pub pair_attached : ℕ
pair_attached = 11

abbrev pub session_attach : ℕ
session_attach = 12

abbrev pub session_bound : ℕ
session_bound = 13

abbrev pub daemon_replaced : ℕ
daemon_replaced = 14

abbrev pub session_established : ℕ
session_established = 15
