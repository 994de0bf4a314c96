-- ===== src/Room/Counts.antt =====
-- workers/pairfob-origin/src/room/core.ts: the counts of binds that the caps read, and the oldest resume.
use pairfob.Prelude.{
  ℕ, Bool, not, ◌&&◌, Option, none, some, List, [], ◌∷◌, ltb, if◌then◌else◌, count,
}
use pairfob.Attachment
use pairfob.Attachment.{
  Attachment, is_daemon, is_phone, is_none, is_pairing, is_resumehello, is_established,
  is_hello_mode, kind_text, role_text, is_registered_daemon, needs_constructor_sql,
}
use pairfob.Room.{Room, Socket}
use pairfob.Room.Core.{attachments}

pub record Kinds : Type 0 where
  pub est : ℕ
  pub resume : ℕ
  pub pairing : ℕ

abbrev pub counts_as : (Attachment.BindKind → Bool) → Attachment → Bool
counts_as p a = is_phone a.role && p a.kind

-- countKinds: one count for each kind of bind of a phone
unfoldable pub count_kinds : Room → Kinds
count_kinds r = record {
  est = count (counts_as is_established) (attachments r.sockets);
  resume = count (counts_as is_resumehello) (attachments r.sockets);
  pairing = count (counts_as is_pairing) (attachments r.sockets);
}

abbrev pub is_pending : Attachment → Bool
is_pending a = is_hello_mode a.mode && is_none a.kind && not (is_registered_daemon a)

unfoldable pub count_pending_hellos : Room → ℕ
unfolding is_registered_daemon
count_pending_hellos r = count is_pending (attachments r.sockets)

-- The oldest waiting resume so far, and its time.
pub record Oldest : Type 0 where
  pub ws : ℕ
  pub created : ℕ

abbrev pub older : Option Oldest → ℕ → ℕ → Option Oldest
older none ws ms = some (record { ws = ws; created = ms })
older (some b) ws ms = if ltb ms b.created then some (record { ws = ws; created = ms }) else some b

abbrev pub oldest_from : Option Oldest → List Socket → Option Oldest
oldest_from best [] = best
oldest_from best (s ∷ ss) = elim s.attachment [
  | none ↦ oldest_from best ss
  | some a ↦ oldest_from (if is_resumehello a.kind then older best s.id a.created_ms else best) ss
]

unfoldable pub lru_resume : Room → Option ℕ
lru_resume r = elim (oldest_from none r.sockets) [ none ↦ none | some b ↦ some b.ws ]
