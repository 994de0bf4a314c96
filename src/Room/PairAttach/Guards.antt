-- ===== src/Room/PairAttach/Guards.antt =====
-- What a phone that asks for the pairing slot cannot get.
use pairfob.Prelude.{ℕ, ◌≡◌, String, Bool, true, not, ◌||◌, arith, leb, if_rule, option_rule}
use pairfob.Attachment.{
  Attachment, is_phone, is_pairing, is_resumehello, is_established, is_pairing_mode,
  is_session_mode, owner_mismatch,
}
use pairfob.Hex.{is_zero_route}
use pairfob.Json.{parse_json_object, text_field}
use pairfob.Envelope.{Frame}
use pairfob.Constants.{is_pair_ref, max_pairing}
use pairfob.Room.{Room, Env, att}
use pairfob.Room.Counts.{count_kinds}
use pairfob.Room.Attached.{atts, atts_laws}
use pairfob.Room.Gates.{gate_check}
use pairfob.Room.Session.{bad_version, late_hello}
use pairfob.Room.PairAttach.{slot_open, enter_slot, attach_pairing, handle_pair_attach}

-- What keeps a phone out of the slot: a cooldown, a slot that is not open under the reference, and
-- another phone that is pairing.
abbrev pub is_shut : Room → (pair_ref : String) → Bool
is_shut r pair_ref =
    not (gate_check r).allowed
    || not (slot_open r pair_ref)
    || leb max_pairing (count_kinds r).pairing

atts-enter_slot :
    (env : Env) (ws : ℕ) (pair_ref : String) (a : Attachment) (r : Room)
    → is_shut r pair_ref ≡ true
    → atts (enter_slot env ws pair_ref a r) ≡ atts r
atts-enter_slot env ws pair_ref a r shut =
    let P : Room → Type 0 = λ s. atts s ≡ atts r in
    if_rule P (not (slot_open r pair_ref)) _ _ (λ _. simp atts_laws)
      λ open'.
        if_rule P (leb max_pairing (count_kinds r).pairing) _ _ (λ _. simp atts_laws)
          λ free.
            if_rule P (not (gate_check r).allowed) _ _ (λ _. simp atts_laws)
              λ allowed. absurd (ground (arith, shut, open', free, allowed))

atts-attach_pairing :
    (env : Env) (ws : ℕ) (pair_ref : String) (a : Attachment) (r : Room)
    → is_shut r pair_ref ≡ true
    → atts (attach_pairing env ws pair_ref a r) ≡ atts r
atts-attach_pairing env ws pair_ref a r shut =
    let P : Room → Type 0 = λ s. atts s ≡ atts r in
    if_rule P (owner_mismatch a) _ _ (λ _. simp atts_laws)
      λ _.
        if_rule P (late_hello r.clock a) _ _ (λ _. simp atts_laws)
          λ _.
            if_rule P (is_session_mode a.mode || is_resumehello a.kind || is_established a.kind) _ _
              (λ _. simp atts_laws)
              λ _.
                if_rule P (is_pairing a.kind || is_pairing_mode a.mode) _ _ (λ _. simp atts_laws)
                  λ _.
                    option_rule P r.daemon _ _ (λ _. simp atts_laws)
                      λ d _. atts-enter_slot env ws pair_ref a r shut

-- While the room is in cooldown, while the slot is not open under the reference that a phone names,
-- and while another phone is pairing, PAIR_ATTACH binds nothing: every attachment stays.
pub shut_slot_binds_nothing :
    (env : Env) (ws : ℕ) (frame : Frame) (r : Room)
    → is_shut r (text_field "pair_ref" (parse_json_object env.parse frame.payload)) ≡ true
    → atts (handle_pair_attach env ws frame r) ≡ atts r
unfolding handle_pair_attach
shut_slot_binds_nothing env ws frame r shut =
    let P : Room → Type 0 = λ s. atts s ≡ atts r in
    let req = parse_json_object env.parse frame.payload in
    let pair_ref = text_field "pair_ref" req in
    if_rule P (not (is_zero_route frame.route_id)) _ _ (λ _. simp atts_laws)
      λ _.
        if_rule P (bad_version req) _ _ (λ _. simp atts_laws)
          λ _.
            if_rule P (not (is_pair_ref pair_ref)) _ _ (λ _. simp atts_laws)
              λ _.
                option_rule P (att r ws) _ _ (λ _. simp atts_laws)
                  λ a _.
                    if_rule P (is_phone a.role) _ _
                      (λ _. atts-attach_pairing env ws pair_ref a r shut) λ _. simp atts_laws
