-- ===== src/Room/System/Reachable.antt =====
-- What holds of a room whatever the platform and its peers do.
use pairfob.Prelude.{
  ℕ, zero, suc, ◌≤◌, refl, String, Bool, inl, inr, List, [], ◌∷◌, arith, ◌==◌, keep, count, All,
  Bool-cases, Option-cases,
}
use pairfob.Attachment.{Attachment, is_established, is_pairing}
use pairfob.Constants.{max_established, max_pairing}
use pairfob.Room.{Room, Socket, Env}
use pairfob.Room.Core.{attachments}
use pairfob.Room.Counts.{counts_as}
use pairfob.Room.Attached.{atts, attachments-modify}
use pairfob.Room.Sound.{IsSound, IsOwned, established_in, pairing_in}
use pairfob.Room.Sound.Steps.{
  IsSafe, sockets-IsSafe, atts-IsSafe, cold_start-IsSafe, on_close-IsSafe,
}
use pairfob.Room.Sound.Upkeep.{
  Others, alarm-IsSafe, enroll-IsSafe, kick-IsSafe, abort_enroll-IsSafe, rekey-IsSafe,
}
use pairfob.Room.Sound.Upgrade.{issue_ticket-IsSafe, upgrade-IsSafe}
use pairfob.Room.Sound.Dispatch.{on_message-IsSafe}
use pairfob.Room.System.{
  new_room, Event, message, closed, alarm_fires, wakes, upgraded, ticket_wanted, enrolled_by,
  aborted, rekeyed, kicked, passes, breaks, unlisted, break_socket, is_other, new_core, step, run,
  nested,
}

count-unlisted :
    (p : Attachment → Bool) (ws : ℕ) (ss : List Socket)
    → count p (attachments (keep (is_other ws) ss)) ≤ count p (attachments ss)
count-unlisted p ws [] = omega arith
count-unlisted p ws (s ∷ ss) = ground (arith, count-unlisted p ws ss)

All-unlisted :
    (P : Attachment → Type 0) (ws : ℕ) (ss : List Socket)
    → All P (attachments ss)
    → All P (attachments (keep (is_other ws) ss))
All-unlisted P ws [] h = h
All-unlisted P ws (s ∷ ss) h = elim (Option-cases s.attachment) [
  | inl bare ↦ elim (Bool-cases (s.id == ws)) [
    | inl hit ↦ rw hit (All-unlisted P ws ss (rw bare at h))
    | inr miss ↦ rw (miss, bare) (All-unlisted P ws ss (rw bare at h))
  ]
  | inr (b, full) ↦
      let parts : All P (b ∷ attachments ss) = rw full at h in
      elim (Bool-cases (s.id == ws)) [
        | inl hit ↦ rw hit (All-unlisted P ws ss parts.1)
        | inr miss ↦ rw (miss, full) (parts.0, All-unlisted P ws ss parts.1)
      ]
]

-- One event keeps the invariant, if what runs during an await keeps it.
step-IsSafe : (env : Env) (e : Event) (r : Room) → Others env → IsSafe r → IsSafe (step env e r)
unfolding step
step-IsSafe env (message ws m) r keeps v = on_message-IsSafe env keeps ws m r v
step-IsSafe env (closed ws reason) r keeps v = on_close-IsSafe ws reason r v
step-IsSafe env alarm_fires r keeps v = alarm-IsSafe env keeps r v
step-IsSafe env wakes r keeps v = cold_start-IsSafe (new_core r) (sockets-IsSafe refl v)
step-IsSafe env (upgraded has_loc role daemon_id ticket account owner) r keeps v =
    upgrade-IsSafe env keeps has_loc role daemon_id ticket account owner r v
step-IsSafe env (ticket_wanted pair_loc) r keeps v = issue_ticket-IsSafe env keeps pair_loc r v
step-IsSafe env (enrolled_by hash grant_id) r keeps v = enroll-IsSafe hash grant_id r v
step-IsSafe env (aborted hash grant_id) r keeps v = abort_enroll-IsSafe env hash grant_id r v
step-IsSafe env (rekeyed old_hash new_hash) r keeps v = rekey-IsSafe env old_hash new_hash r v
step-IsSafe env kicked r keeps v = kick-IsSafe r v
step-IsSafe env (passes ms) r keeps v = sockets-IsSafe refl v
step-IsSafe env (breaks ws) r keeps v =
    atts-IsSafe (attachments-modify ws break_socket r.sockets (λ s. refl)) v
step-IsSafe env (unlisted ws) r keeps v = record {
  sound = record {
    established =
        omega (arith, v.sound.established, count-unlisted (counts_as is_established) ws r.sockets);
    pairing = omega (arith, v.sound.pairing, count-unlisted (counts_as is_pairing) ws r.sockets);
    owned = All-unlisted IsOwned ws r.sockets v.sound.owned;
  };
}

run-IsSafe :
    (env : Env) (es : List Event) (r : Room) → Others env → IsSafe r → IsSafe (run env es r)
unfolding run
run-IsSafe env [] r keeps v = v
run-IsSafe env (e ∷ es) r keeps v =
    run-IsSafe env es (step env e r) keeps (step-IsSafe env e r keeps v)

nested-IsSafe :
    (base : Env) (plan : ℕ → Room → List Event) (depth : ℕ) → Others (nested base plan depth)
unfolding nested
nested-IsSafe base plan zero r v = v
nested-IsSafe base plan (suc depth) r v =
    run-IsSafe (nested base plan depth) (plan depth r) r (nested-IsSafe base plan depth) v

new_room-IsSafe : (daemon_id : String) (has_index : Bool) → IsSafe (new_room daemon_id has_index)
unfolding new_room
new_room-IsSafe daemon_id has_index = record {
  sound = record { established = omega arith; pairing = omega arith; owned = tt };
}

reached-IsSafe :
    (base : Env) (plan : ℕ → Room → List Event) (depth : ℕ) (es : List Event) (daemon_id : String)
    (has_index : Bool)
    → IsSound (atts (run (nested base plan depth) es (new_room daemon_id has_index)))
reached-IsSafe base plan depth es daemon_id has_index =
    (run-IsSafe (nested base plan depth) es (new_room daemon_id has_index)
      (nested-IsSafe base plan depth) (new_room-IsSafe daemon_id has_index)).sound

-- After any events, with any events during any await, at most ten phones are established and at
-- most one is pairing.
pub caps_hold :
    (base : Env) (plan : ℕ → Room → List Event) (depth : ℕ) (es : List Event) (daemon_id : String)
    (has_index : Bool)
    → (established_in (atts (run (nested base plan depth) es (new_room daemon_id has_index)))
        ≤ max_established)
      × (pairing_in (atts (run (nested base plan depth) es (new_room daemon_id has_index)))
          ≤ max_pairing)
caps_hold base plan depth es daemon_id has_index =
    let v = reached-IsSafe base plan depth es daemon_id has_index in (v.established, v.pairing)

-- After any events, with any events during any await, no phone has a bind if the owner of the
-- computer that was recorded when the phone was upgraded is there and is not the account of the
-- phone. A phone that was upgraded while the computer had no owner may bind, whatever its account.
pub no_foreign_bind :
    (base : Env) (plan : ℕ → Room → List Event) (depth : ℕ) (es : List Event) (daemon_id : String)
    (has_index : Bool)
    → All IsOwned (atts (run (nested base plan depth) es (new_room daemon_id has_index)))
no_foreign_bind base plan depth es daemon_id has_index =
    (reached-IsSafe base plan depth es daemon_id has_index).owned
