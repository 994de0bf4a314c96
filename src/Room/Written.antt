-- ===== src/Room/Written.antt =====
-- What a write of one attachment does to the attachments of a room.
use pairfob.Prelude.{
  ℕ, ◌+◌, ◌≤◌, ◌≡◌, refl, sym, ap, ◌∙◌, String, Bool, true, false, Option, none, some, List, [],
  ◌∷◌, arith, ◌==◌, count, All, Option-cases, Bool-cases, inl, inr,
}
use pairfob.Attachment.{Attachment}
use pairfob.Room.{
  Room, Socket, Sent, Extra, modify, find_socket, push_sent, mark_closed, set_attachment, send,
  close, att, write_att, send_err, error_frame,
}
use pairfob.Room.Core.{attachments}
use pairfob.Room.Attached.{atts}

-- A write replaces the attachment of one socket.
abbrev pub one_if : Bool → ℕ
one_if true = 1
one_if false = 0

abbrev attachment_at : ℕ → List Socket → Option Attachment
attachment_at ws ss = elim (find_socket ws ss) [ none ↦ none | some s ↦ s.attachment ]

att-eq : (r : Room) (ws : ℕ) → att r ws ≡ attachment_at ws r.sockets
unfolding att
att-eq r ws = ground arith

All-attachment :
    (P : Attachment → Type 0) (ws : ℕ) (a : Attachment) (ss : List Socket)
    → attachment_at ws ss ≡ some a
    → All P (attachments ss)
    → P a
All-attachment P ws a [] e h = absurd (ground arith)
All-attachment P ws a (s ∷ ss) e h = elim (Bool-cases (s.id == ws)) [
  | inl hit ↦
      let here : s.attachment ≡ some a = ground arith in
      let parts : All P (a ∷ attachments ss) = rw here at h in parts.0
  | inr miss ↦ elim (Option-cases s.attachment) [
    | inl bare ↦ All-attachment P ws a ss (ground arith) (rw bare at h)
    | inr (b, full) ↦
        let parts : All P (b ∷ attachments ss) = rw full at h in
        All-attachment P ws a ss (ground arith) parts.1
  ]
]

-- What holds of every attachment holds of the one that a socket has.
pub att-All :
    (P : Attachment → Type 0) (ws : ℕ) (a : Attachment) (r : Room)
    → att r ws ≡ some a
    → All P (atts r)
    → P a
att-All P ws a r e h = All-attachment P ws a r.sockets (sym (att-eq r ws) ∙ e) h

pub sockets-write_att :
    (ws : ℕ) (a : Attachment) (r : Room)
    → (write_att ws a r).sockets ≡ modify ws (set_attachment a) r.sockets
unfolding write_att
sockets-write_att ws a r = ground arith

count-set_attachment :
    (p : Attachment → Bool) (ws : ℕ) (old a : Attachment) (ss : List Socket)
    → attachment_at ws ss ≡ some old
    → count p (attachments (modify ws (set_attachment a) ss)) + one_if (p old)
      ≡ count p (attachments ss) + one_if (p a)
count-set_attachment p ws old a [] e = absurd (ground arith)
count-set_attachment p ws old a (s ∷ ss) e = elim (Bool-cases (s.id == ws)) [
  | inl hit ↦ let here : s.attachment ≡ some old = ground arith in rw (hit, here) (ground arith)
  | inr miss ↦ elim (Option-cases s.attachment) [
    | inl bare ↦ rw (miss, bare) (count-set_attachment p ws old a ss (ground arith))
    | inr (b, full) ↦
        rw (miss, full) (ground (arith, count-set_attachment p ws old a ss (ground arith)))
  ]
]

-- A write moves a count by what the new attachment counts for, less what the old one did.
pub count-write_att :
    (p : Attachment → Bool) (ws : ℕ) (old a : Attachment) (r : Room)
    → att r ws ≡ some old
    → count p (atts (write_att ws a r)) + one_if (p old) ≡ count p (atts r) + one_if (p a)
count-write_att p ws old a r e =
    rw (sockets-write_att ws a r)
      (count-set_attachment p ws old a r.sockets (sym (att-eq r ws) ∙ e))

All-set_attachment :
    (P : Attachment → Type 0) (ws : ℕ) (a : Attachment) (ss : List Socket)
    → P a
    → All P (attachments ss)
    → All P (attachments (modify ws (set_attachment a) ss))
All-set_attachment P ws a [] pa h = h
All-set_attachment P ws a (s ∷ ss) pa h = elim (Bool-cases (s.id == ws)) [
  | inl hit ↦ rw hit (pa, All-rest h)
  | inr miss ↦ elim (Option-cases s.attachment) [
    | inl bare ↦ rw (miss, bare) (All-set_attachment P ws a ss pa (rw bare at h))
    | inr (b, full) ↦
        let parts : All P (b ∷ attachments ss) = rw full at h in
        rw (miss, full) (parts.0, All-set_attachment P ws a ss pa parts.1)
  ]
]
  where
    All-rest : All P (attachments (s ∷ ss)) → All P (attachments ss)
    All-rest g = elim (Option-cases s.attachment) [
      | inl bare ↦ rw bare at g
      | inr (b, full) ↦ let parts : All P (b ∷ attachments ss) = rw full at g in parts.1
    ]

pub All-write_att :
    (P : Attachment → Type 0) (ws : ℕ) (a : Attachment) (r : Room)
    → P a
    → All P (atts r)
    → All P (atts (write_att ws a r))
All-write_att P ws a r pa h =
    rw (sockets-write_att ws a r) (All-set_attachment P ws a r.sockets pa h)

-- A write to a socket without an attachment counts the new one at most.
count-set_attachment-le :
    (p : Attachment → Bool) (ws : ℕ) (a : Attachment) (ss : List Socket)
    → count p (attachments (modify ws (set_attachment a) ss))
      ≤ count p (attachments ss) + one_if (p a)
count-set_attachment-le p ws a [] = omega arith
count-set_attachment-le p ws a (s ∷ ss) = ground (arith, count-set_attachment-le p ws a ss)

pub count-write_att-le :
    (p : Attachment → Bool) (ws : ℕ) (a : Attachment) (r : Room)
    → count p (atts (write_att ws a r)) ≤ count p (atts r) + one_if (p a)
count-write_att-le p ws a r =
    rw (sockets-write_att ws a r) (count-set_attachment-le p ws a r.sockets)

attachment_at-modify :
    (i j : ℕ) (f : Socket → Socket) (ss : List Socket)
    → ((s : Socket) → ((f s).attachment ≡ s.attachment) × ((f s).id ≡ s.id))
    → attachment_at j (modify i f ss) ≡ attachment_at j ss
attachment_at-modify i j f [] h = refl
attachment_at-modify i j f (s ∷ ss) h = ground (arith, h s, attachment_at-modify i j f ss h)

pub att-send : (i j : ℕ) (f : Sent) (r : Room) → att (send i f r) j ≡ att r j
unfolding send
att-send i j f r =
    att-eq _ j
    ∙ attachment_at-modify i j (push_sent f) r.sockets (λ s. (ground arith, ground arith))
    ∙ sym (att-eq r j)

pub att-close : (i j : ℕ) (reason : String) (r : Room) → att (close i reason r) j ≡ att r j
unfolding close
att-close i j reason r =
    att-eq _ j
    ∙ attachment_at-modify i j (mark_closed reason) r.sockets (λ s. (ground arith, ground arith))
    ∙ sym (att-eq r j)

pub att-send_err :
    (i j : ℕ) (code message : String) (x : Extra) (r : Room)
    → att (send_err i code message x r) j ≡ att r j
unfolding send_err
att-send_err i j code message x r = att-send i j (error_frame code message x) r

-- What a write to another socket, or to this one, leaves there.
attachment_at-set_other :
    (i j : ℕ) (a : Attachment) (ss : List Socket)
    → (i == j) ≡ false
    → attachment_at j (modify i (set_attachment a) ss) ≡ attachment_at j ss
attachment_at-set_other i j a [] h = refl
attachment_at-set_other i j a (s ∷ ss) h = ground (arith, attachment_at-set_other i j a ss h)

pub att-write_att_other :
    (i j : ℕ) (a : Attachment) (r : Room) → (i == j) ≡ false → att (write_att i a r) j ≡ att r j
att-write_att_other i j a r h =
    att-eq _ j
    ∙ ap (attachment_at j) (sockets-write_att i a r)
    ∙ attachment_at-set_other i j a r.sockets h
    ∙ sym (att-eq r j)

attachment_at-set_self :
    (i : ℕ) (old a : Attachment) (ss : List Socket)
    → attachment_at i ss ≡ some old
    → attachment_at i (modify i (set_attachment a) ss) ≡ some a
attachment_at-set_self i old a [] h = absurd (ground arith)
attachment_at-set_self i old a (s ∷ ss) h = ground (arith, attachment_at-set_self i old a ss)

pub att-write_att_self :
    (i : ℕ) (old a : Attachment) (r : Room) → att r i ≡ some old → att (write_att i a r) i ≡ some a
att-write_att_self i old a r h =
    att-eq _ i
    ∙ ap (attachment_at i) (sockets-write_att i a r)
    ∙ attachment_at-set_self i old a r.sockets (sym (att-eq r i) ∙ h)
