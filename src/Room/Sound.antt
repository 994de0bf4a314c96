-- ===== src/Room/Sound.antt =====
-- The invariant of a room: the caps on binds, and that no bound phone is foreign to the computer.
pub mod Steps
pub mod Upkeep
pub mod Upgrade
pub mod Session
pub mod Established
pub mod Pairing
pub mod PairAttach
pub mod Relay
pub mod Dispatch
use pairfob.Prelude.{
  ℕ, ◌+◌, ◌≤◌, ◌<◌, ◌≡◌, refl, sym, subst, Bool, true, false, not, ◌&&◌, Option, some, List, [],
  ◌∷◌, arith, count, All, ◌==◌, if◌then◌else◌, ◌===◌, ◌||◌,
}
use pairfob.Attachment.{Attachment, is_phone, is_none, is_established, is_pairing, owner_mismatch}
use pairfob.Constants.{max_established, max_pairing}
use pairfob.Room.{Room, att, write_att}
use pairfob.Room.Counts.{count_kinds, counts_as}
use pairfob.Room.Attached.{atts}
use pairfob.Room.Written.{att-All, count-write_att, count-write_att-le, All-write_att, one_if}

-- A bound phone is one that `ownerMismatch` lets pass.
abbrev pub foreign : Attachment → Bool
foreign a = is_phone a.role && not (is_none a.kind) && owner_mismatch a

abbrev pub IsOwned : Attachment → Type 0
IsOwned a = foreign a ≡ false

abbrev pub established_in : List Attachment → ℕ
established_in as' = count (counts_as is_established) as'

abbrev pub pairing_in : List Attachment → ℕ
pairing_in as' = count (counts_as is_pairing) as'

pub record IsSound (as' : List Attachment) : Type 0 where
  pub established : established_in as' ≤ max_established
  pub pairing : pairing_in as' ≤ max_pairing
  pub owned : All IsOwned as'

-- What leaves the attachments leaves the invariant.
pub IsSound-eq : {as' bs : List Attachment} → bs ≡ as' → IsSound as' → IsSound bs
IsSound-eq e v = subst IsSound (sym e) v

-- A write that stays under the caps.
pub IsSound-write_att :
    (ws : ℕ) (old a : Attachment) (r : Room)
    → att r ws ≡ some old
    → IsOwned a
    → established_in (atts r) + one_if (counts_as is_established a)
      ≤ max_established + one_if (counts_as is_established old)
    → pairing_in (atts r) + one_if (counts_as is_pairing a)
      ≤ max_pairing + one_if (counts_as is_pairing old)
    → IsSound (atts r)
    → IsSound (atts (write_att ws a r))
IsSound-write_att ws old a r e o h k v = record {
  established = omega (arith, count-write_att (counts_as is_established) ws old a r e);
  pairing = omega (arith, count-write_att (counts_as is_pairing) ws old a r e);
  owned = All-write_att IsOwned ws a r o v.owned;
}

-- A write of an attachment that counts for nothing.
pub IsSound-write_unbound :
    (ws : ℕ) (a : Attachment) (r : Room)
    → is_none a.kind ≡ true
    → IsSound (atts r)
    → IsSound (atts (write_att ws a r))
IsSound-write_unbound ws a r n v =
    let est : counts_as is_established a ≡ false = ground arith in
    let pair : counts_as is_pairing a ≡ false = ground arith in
    record {
      established =
          ground (arith, v.established, count-write_att-le (counts_as is_established) ws a r);
      pairing = ground (arith, v.pairing, count-write_att-le (counts_as is_pairing) ws a r);
      owned = All-write_att IsOwned ws a r (ground arith) v.owned;
    }

-- A write that keeps the role, the kind and the owner counts as before.
pub IsSound-write_same :
    (ws : ℕ) (old a : Attachment) (r : Room)
    → att r ws ≡ some old
    → a.role ≡ old.role
    → a.kind ≡ old.kind
    → a.account ≡ old.account
    → a.owner ≡ old.owner
    → IsSound (atts r)
    → IsSound (atts (write_att ws a r))
unfolding owner_mismatch
IsSound-write_same ws old a r e role kind account owner v =
    let owned : IsOwned old = att-All IsOwned ws old r e v.owned in
    let est : counts_as is_established a ≡ counts_as is_established old = rw (role, kind) refl in
    let pair : counts_as is_pairing a ≡ counts_as is_pairing old = rw (role, kind) refl in
    let owned' : IsOwned a = rw (role, kind, account, owner) owned in
    IsSound-write_att ws old a r e owned' (rw est (omega (arith, v.established)))
      (rw pair (omega (arith, v.pairing))) v
