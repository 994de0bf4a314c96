-- ===== src/Constants.antt =====
-- workers/pairfob-origin/src/constants.ts: the limits of a room, and its patterns as tests.
pub mod Tokens
use Prim.Native.Char.{code}
use pairfob.Prelude.{ℕ, String, Bool, true, false, ◌&&◌, ◌||◌, ◌==◌, leb}
use pairfob.Hex.{text_length}

abbrev pub protocol : ℕ
protocol = 2

abbrev pub hello_grace_ms : ℕ
hello_grace_ms = 5000

abbrev pub resume_ms : ℕ
resume_ms = 15000

abbrev pub pair_first_ms : ℕ
pair_first_ms = 15000

abbrev pub pair_confirm_ms : ℕ
pair_confirm_ms = 30000

abbrev pub ticket_ms : ℕ
ticket_ms = 15000

abbrev pub default_ttl_ms : ℕ
default_ttl_ms = 180000

abbrev pub min_ttl_s : ℕ
min_ttl_s = 60

abbrev pub max_ttl_s : ℕ
max_ttl_s = 300

abbrev pub max_established : ℕ
max_established = 10

abbrev pub max_resume : ℕ
max_resume = 2

abbrev pub max_pending_hello : ℕ
max_pending_hello = 8

abbrev pub max_pairing : ℕ
max_pairing = 1

abbrev pub fwd_flush_bytes : ℕ
fwd_flush_bytes = 65536

abbrev pub loc_mint_tries : ℕ
loc_mint_tries = 8

-- [0-9a-f]
abbrev pub is_lower_hex_code : ℕ → Bool
is_lower_hex_code c = (leb b'0' c && leb c b'9') || (leb b'a' c && leb c b'f')

all_lower_hex : String → Bool
all_lower_hex String.[] = true
all_lower_hex (String.◌∷◌ c s) = is_lower_hex_code (code c) && all_lower_hex s

-- /^[0-9a-f]{n}$/
hex_word : ℕ → String → Bool
hex_word n s = text_length s == n && all_lower_hex s

-- PAIR_REF_RE and TICKET_RE
unfoldable pub is_pair_ref : String → Bool
unfolding hex_word all_lower_hex
is_pair_ref s = hex_word 32 s

unfoldable pub is_ticket : String → Bool
unfolding hex_word all_lower_hex
is_ticket s = hex_word 32 s

-- DAEMON_ID_RE: d_ and twenty digits
unfoldable pub is_daemon_id : String → Bool
unfolding hex_word all_lower_hex
is_daemon_id (String.◌∷◌ c (String.◌∷◌ d s)) = code c == b'd' && code d == b'_' && hex_word 20 s
is_daemon_id _ = false

-- RECONNECT_TOKEN_RE: rt_ and thirty-two digits
unfoldable pub is_reconnect_token : String → Bool
unfolding hex_word all_lower_hex
is_reconnect_token (String.◌∷◌ c (String.◌∷◌ d (String.◌∷◌ e s))) =
    code c == b'r' && code d == b't' && code e == b'_' && hex_word 32 s
is_reconnect_token _ = false

-- CLAIM_PROOF_RE: cp_ and thirty-two digits
unfoldable pub is_claim_proof : String → Bool
unfolding hex_word all_lower_hex
is_claim_proof (String.◌∷◌ c (String.◌∷◌ d (String.◌∷◌ e s))) =
    code c == b'c' && code d == b'p' && code e == b'_' && hex_word 32 s
is_claim_proof _ = false
