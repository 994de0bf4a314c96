-- ===== src/Room/Enrollment.antt =====
-- workers/pairfob-origin/src/room/core.ts: enrolment, rekeying and the kick of a room, with
-- timingSafeEqual of crypto.ts.
pub mod Secrets
use Prim.Native.Nat.{bit_or, bit_xor}
use pairfob.Prelude.{
  ℕ, zero, suc, String, Bool, true, false, not, ◌&&◌, ◌||◌, Option, none, some, List, [], ◌∷◌, ◌==◌,
  ◌===◌, max, if◌then◌else◌, length, get_or,
}
use pairfob.Store.{
  MetaRow, load_meta, put_meta, delete_meta, set_reconnect_hash, clear_reconnect_hash,
}
use pairfob.Room.{Room, Env, ids, for_sockets, close}
use pairfob.Room.Core.{drop_daemon}

-- for (let i = 0; i < n; i++) diff |= x ^ y, from the end: the rounds commute
abbrev pub or_diffs : List ℕ → List ℕ → ℕ → ℕ → ℕ
or_diffs a b diff zero = diff
or_diffs a b diff (suc n) = bit_or (or_diffs a b diff n) (bit_xor (get_or a n 0) (get_or b n 0))

unfoldable pub timing_safe_equal : (utf8 : String → List ℕ) → String → String → Bool
timing_safe_equal utf8 a b =
    let ba = utf8 a in
    let bb = utf8 b in
    or_diffs ba bb (bit_xor (length ba) (length bb)) (max (length ba) (length bb)) == 0

-- The room after a call, and the `ok` that it answers.
pub record Answer : Type 0 where
  pub room : Room
  pub ok : Bool

unfoldable pub enroll : String → String → Room → Answer
unfolding load_meta put_meta
enroll hash grant_id r = elim (load_meta r.store) [
  | some m ↦
      if m.reconnect_hash === hash && m.grant_id === grant_id
      then record {
        room = record r {
          enrolled = true;
          reconnect_hash = m.reconnect_hash;
          grant_id = m.grant_id;
        };
        ok = true;
      }
      else record { room = r; ok = false }
  | none ↦
      let row : MetaRow = record {
        daemon_id = r.daemon_id;
        reconnect_hash = hash;
        grant_id = grant_id;
        created_at = r.clock;
      } in
      record {
        room = record r {
          store = put_meta r.store row;
          enrolled = true;
          reconnect_hash = hash;
          grant_id = grant_id;
        };
        ok = true;
      }
]

abbrev pub holds_secret : (String → String → Bool) → String → String → Option MetaRow → Bool
holds_secret same hash grant_id none = false
holds_secret same hash grant_id (some m) = m.grant_id === grant_id && same m.reconnect_hash hash

unfoldable pub verify_enroll : Env → String → String → Room → Bool
unfolding load_meta
verify_enroll env hash grant_id r =
    holds_secret (timing_safe_equal env.utf8) hash grant_id (load_meta r.store)

unfoldable pub kick : Room → Room
unfolding clear_reconnect_hash drop_daemon close
kick r =
    let cleared = record r { store = clear_reconnect_hash r.store; reconnect_hash = "" } in
    let dropped = drop_daemon "kicked" cleared in
    let closed = for_sockets (ids dropped.sockets) (λ ws. close ws "kicked") dropped in
    record closed { daemon = none }

unfoldable pub abort_enroll : Env → String → String → Room → Answer
unfolding load_meta kick delete_meta
abort_enroll env hash grant_id r =
    if not (holds_secret (timing_safe_equal env.utf8) hash grant_id (load_meta r.store))
    then record { room = r; ok = false }
    else (let kicked = kick r in
        record {
          room = record kicked {
            store = delete_meta kicked.store;
            enrolled = false;
            grant_id = "";
          };
          ok = true;
        })

abbrev pub rekey_from : (String → String → Bool) → String → String → Room → Option MetaRow → Answer
rekey_from same old_hash new_hash r none = record { room = r; ok = false }
rekey_from same old_hash new_hash r (some m) =
    if m.reconnect_hash === ""
    then record { room = r; ok = false }
    else if same m.reconnect_hash new_hash
    then record { room = r; ok = true }
    else if not (same m.reconnect_hash old_hash)
    then record { room = r; ok = false }
    else record {
      room = record r { store = set_reconnect_hash r.store new_hash; reconnect_hash = new_hash };
      ok = true;
    }

unfoldable pub rekey : Env → String → String → Room → Answer
unfolding load_meta set_reconnect_hash
rekey env old_hash new_hash r =
    rekey_from (timing_safe_equal env.utf8) old_hash new_hash r (load_meta r.store)
