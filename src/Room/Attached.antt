-- ===== src/Room/Attached.antt =====
-- What the operations on sockets do to the attachments: the durable record of every bind.
use pairfob.Prelude.{ℕ, ◌≡◌, refl, ◌∙◌, String, List, [], ◌∷◌, arith}
use pairfob.Attachment.{Attachment}
use pairfob.Room.{
  Room, Socket, Sent, Extra, modify, push_sent, mark_closed, send, close, remember_route,
  delete_bind, send_err, reject, for_sockets, no_extra,
}
use pairfob.Room.Core.{attachments}

abbrev pub atts : Room → List Attachment
atts r = attachments r.sockets

pub attachments-modify :
    (i : ℕ) (f : Socket → Socket) (ss : List Socket)
    → ((s : Socket) → (f s).attachment ≡ s.attachment)
    → attachments (modify i f ss) ≡ attachments ss
attachments-modify i f [] h = refl
attachments-modify i f (s ∷ ss) h = ground (arith, h s, attachments-modify i f ss h)

attachment-push_sent : (f : Sent) (s : Socket) → (push_sent f s).attachment ≡ s.attachment
attachment-push_sent f s = ground arith

attachment-mark_closed :
    (reason : String) (s : Socket) → (mark_closed reason s).attachment ≡ s.attachment
attachment-mark_closed reason s = ground arith

pub atts-send : (ws : ℕ) (f : Sent) (r : Room) → atts (send ws f r) ≡ atts r
unfolding send
atts-send ws f r = attachments-modify ws (push_sent f) r.sockets (attachment-push_sent f)

pub atts-close : (ws : ℕ) (reason : String) (r : Room) → atts (close ws reason r) ≡ atts r
unfolding close
atts-close ws reason r =
    attachments-modify ws (mark_closed reason) r.sockets (attachment-mark_closed reason)

pub atts-send_err :
    (ws : ℕ) (code message : String) (x : Extra) (r : Room)
    → atts (send_err ws code message x r) ≡ atts r
unfolding send_err
atts-send_err ws code message x r = atts-send ws _ r

pub atts-reject :
    (ws : ℕ) (code message : String) (r : Room) → atts (reject ws code message r) ≡ atts r
unfolding reject
atts-reject ws code message r =
    atts-close ws code (send_err ws code message no_extra r)
    ∙ atts-send_err ws code message no_extra r

pub atts-delete_bind : (route_id : String) (r : Room) → atts (delete_bind route_id r) ≡ atts r
unfolding delete_bind
atts-delete_bind route_id r = refl

pub atts-remember_route :
    (hex : String) (ws : ℕ) (r : Room) → atts (remember_route hex ws r) ≡ atts r
unfolding remember_route
atts-remember_route hex ws r = refl

pub ruleset atts_laws =
    (atts-send, atts-close, atts-send_err, atts-reject, atts-delete_bind, atts-remember_route)

-- A loop over the sockets keeps what each round keeps.
pub for_sockets-keeps {ℓ} :
    {A : Type ℓ} (f : Room → A) (listed : List ℕ) (body : ℕ → Room → Room) (r : Room)
    → ((ws : ℕ) (s : Room) → f (body ws s) ≡ f s)
    → f (for_sockets listed body r) ≡ f r
for_sockets-keeps f [] body r h = refl
for_sockets-keeps f (ws ∷ listed) body r h = for_sockets-keeps f listed body (body ws r) h ∙ h ws r

pub atts-for_sockets :
    (listed : List ℕ) (body : ℕ → Room → Room) (r : Room)
    → ((ws : ℕ) (s : Room) → atts (body ws s) ≡ atts s)
    → atts (for_sockets listed body r) ≡ atts r
atts-for_sockets listed body r h = for_sockets-keeps atts listed body r h
