-- ===== src/Direct/RoundTrip.antt =====
-- What is cut into chunks arrives whole.
use pairfob.Prelude.{
  ℕ, zero, suc, ◌+◌, ◌-◌, ◌≤◌, ◌<◌, ◌≡◌, refl, ap, sym, ◌∙◌, min, true, false, not, ◌&&◌, some,
  List, [], ◌∷◌, ◌++◌, ◌==◌, arith, ltb, if◌then◌else◌, length, take, drop, length-take,
  length-drop, take-append, Bool-cases, inl, inr, All, if_rule,
}
use mathlib.Core.List.{append_assoc, append-nil}
use pairfob.Envelope.{uint32_at}
use pairfob.Direct.Buffers.{take-length, take-take-drop, drop-past, drop-zeros}
use pairfob.Direct.{
  chunk_header_bytes, chunk_data_bytes, max_frame_bytes, chunk_at, chunks_from, has_frame_size,
  split_direct_frame, Assembler, new_assembler, waiting, whole, is_chunk, in_bounds, zeros, set_at,
  begin_frame, filled, push, with_frame, receive, sent_chunks, or_nothing,
}

push_fits :
    (chunk : List ℕ) (a b : Assembler)
    → is_chunk chunk ≡ true
    → in_bounds (uint32_at chunk 4) (uint32_at chunk 8) (length chunk - chunk_header_bytes) ≡ true
    → (uint32_at chunk 8 == 0 && not (length a.held == 0)) ≡ false
    → begin_frame (uint32_at chunk 4) (uint32_at chunk 8) a ≡ b
    → b.total ≡ uint32_at chunk 4
    → b.offset ≡ uint32_at chunk 8
    → push chunk a ≡ filled (drop chunk_header_bytes chunk) b
unfolding push
push_fits chunk a b is_one inside free begins same_total same_offset =
    rw (is_one, inside, free, begins, same_total, same_offset) (ground arith)

module _ (frame : List ℕ) where
  -- What stands at `offset`.
  abbrev size_at : (offset : ℕ) → ℕ
  size_at offset = min (offset + chunk_data_bytes) (length frame) - offset

  abbrev payload_at : (offset : ℕ) → List ℕ
  payload_at offset = take (size_at offset) (drop offset frame)

  -- The assembler when the chunks before `offset` are in.
  abbrev at : (offset : ℕ) → Assembler
  at zero = new_assembler
  at (suc o) = record {
    total = length frame;
    offset = suc o;
    held = take (suc o) frame ++ zeros (length frame - suc o);
  }

  begun : ℕ → Assembler
  begun offset = record {
    total = length frame;
    offset = offset;
    held = take offset frame ++ zeros (length frame - offset);
  }

  begin_frame-at : (offset : ℕ) → begin_frame (length frame) offset (at offset) ≡ begun offset
  unfolding begun
  begin_frame-at zero =
      ap (λ k. record { total = length frame; offset = 0; held = zeros k }) (omega arith)
  begin_frame-at (suc o) = ground arith

  at_later : (offset : ℕ) → 0 < offset → at offset ≡ begun offset
  unfolding begun
  at_later zero h = absurd (omega arith)
  at_later (suc o) h = refl

  free-at : (offset : ℕ) → (offset == 0 && not (length (at offset).held == 0)) ≡ false
  free-at zero = refl
  free-at (suc o) = ground arith

  module _ (fits : has_frame_size (length frame) ≡ true) (offset : ℕ)
      (inside : offset < length frame) where
    most : length frame ≤ max_frame_bytes
    most = ground arith

    length-payload_at : length (payload_at offset) ≡ size_at offset
    length-payload_at =
        omega (arith, length-take (size_at offset) (drop offset frame), length-drop offset frame)

    total-chunk_at : uint32_at (chunk_at offset frame) 4 ≡ length frame
    total-chunk_at = let le = most in omega arith

    offset-chunk_at : uint32_at (chunk_at offset frame) 8 ≡ offset
    offset-chunk_at = let le = most in omega arith

    is_chunk-chunk_at : is_chunk (chunk_at offset frame) ≡ true
    is_chunk-chunk_at = let len = length-payload_at in ground arith

    push-chunk_at :
        push (chunk_at offset frame) (at offset) ≡ filled (payload_at offset) (begun offset)
    unfolding begun
    push-chunk_at =
        let len = length-payload_at in
        push_fits (chunk_at offset frame) (at offset) (begun offset) is_chunk-chunk_at
          (rw (total-chunk_at, offset-chunk_at) (ground arith))
          (rw offset-chunk_at (free-at offset))
          (rw (total-chunk_at, offset-chunk_at) (begin_frame-at offset)) (sym total-chunk_at)
          (sym offset-chunk_at)

    -- The place after the chunk.
    abbrev after : ℕ
    after = offset + length (payload_at offset)

    length-take_offset : length (take offset frame) ≡ offset
    length-take_offset = omega (arith, length-take offset frame)

    set_at-begun :
        set_at (begun offset).held offset (payload_at offset)
        ≡ take after frame ++ zeros (length frame - after)
    unfolding begun
    set_at-begun =
        let blank = zeros (length frame - offset) in
        let p = payload_at offset in
        let kept = take-append (take offset frame) blank offset length-take_offset in
        let past : drop after (take offset frame ++ blank) ≡ drop (length p) blank =
          ap (λ k. drop (k + length p) (take offset frame ++ blank)) (sym length-take_offset)
          ∙ drop-past (take offset frame) blank (length p) in
        let left : length frame - offset - length p ≡ length frame - after = omega arith in
        let size : length p ≡ size_at offset = length-payload_at in
        let all : take offset frame ++ p ≡ take after frame =
          take-take-drop offset (size_at offset) frame
          ∙ ap (λ k. take (offset + k) frame) (sym size) in
        rw (kept, past, drop-zeros (length p) (length frame - offset), left)
          (sym (append_assoc (take offset frame) p (zeros (length frame - after)))
            ∙ ap (λ xs. xs ++ zeros (length frame - after)) all)

    filled-begun : filled (payload_at offset) (begun offset) ≡ (
        if after == length frame
        then record {
          assembler = new_assembler;
          outcome = whole (take after frame ++ zeros (length frame - after));
        }
        else record { assembler = begun after; outcome = waiting })
    unfolding begun
    filled-begun = rw set_at-begun refl

    whole-held : after ≡ length frame → take after frame ++ zeros (length frame - after) ≡ frame
    unfolding zeros
    whole-held e =
        let none_left : length frame - after ≡ 0 = omega arith in
        rw none_left (append-nil (take after frame) ∙ ap (λ k. take k frame) e ∙ take-length frame)

    -- The last chunk gives the frame and leaves a new assembler.
    push-last :
        after ≡ length frame
        → push (chunk_at offset frame) (at offset)
          ≡ record { assembler = new_assembler; outcome = whole frame }
    unfolding begun
    push-last e =
        let last : (after == length frame) ≡ true = ground arith in
        push-chunk_at ∙ filled-begun ∙ rw (last, whole-held e) refl

    push-middle :
        after < length frame
        → push (chunk_at offset frame) (at offset)
          ≡ record { assembler = at (offset + chunk_data_bytes); outcome = waiting }
    unfolding begun
    push-middle less =
        let len = length-payload_at in
        let more : (after == length frame) ≡ false = ground arith in
        let next : after ≡ offset + chunk_data_bytes = omega arith in
        push-chunk_at
        ∙ filled-begun
        ∙ rw more (
            ap (λ k. record { assembler = begun k; outcome = waiting }) next
            ∙ ap (λ (a : Assembler). record { assembler = a; outcome = waiting })
                (sym (at_later (offset + chunk_data_bytes) (omega arith))))

  chunks_from-end : (fuel offset : ℕ) → length frame ≤ offset → chunks_from fuel offset frame ≡ []
  unfolding chunks_from
  chunks_from-end zero offset h = refl
  chunks_from-end (suc fuel) offset h = ground arith

  -- From an offset on, the chunks complete the frame, and the rest is read from a new assembler.
  receive-chunks_from :
      (fuel offset : ℕ) (later : List (List ℕ))
      → has_frame_size (length frame) ≡ true
      → offset < length frame
      → length frame - offset ≤ fuel
      → receive (chunks_from fuel offset frame ++ later) (at offset)
        ≡ with_frame frame (receive later new_assembler)
  unfolding receive chunks_from
  receive-chunks_from zero offset later fits inside enough = absurd (omega arith)
  receive-chunks_from (suc fuel) offset later fits inside enough =
      let goes : ltb offset (length frame) ≡ true = ground arith in
      let size = length-payload_at fits offset inside in
      elim (Bool-cases (offset + length (payload_at offset) == length frame)) [
        | inl last ↦
            let e : offset + length (payload_at offset) ≡ length frame = ground arith in
            rw
              (
                goes,
                push-last fits offset inside e,
                chunks_from-end fuel (offset + chunk_data_bytes) (omega arith),
              )
              refl
        | inr more ↦
            let less : offset + length (payload_at offset) < length frame = ground arith in
            rw (goes, push-middle fits offset inside less)
              (receive-chunks_from fuel (offset + chunk_data_bytes) later fits (omega arith)
                (omega arith))
      ]

-- A frame of a size that may be sent.
abbrev pub IsSendable : List ℕ → Type 0
IsSendable frame = has_frame_size (length frame) ≡ true

chunks-split_direct_frame :
    (frame : List ℕ)
    → IsSendable frame
    → or_nothing (split_direct_frame frame) ≡ chunks_from (length frame) 0 frame
unfolding split_direct_frame
chunks-split_direct_frame frame h =
    if_rule (λ o. or_nothing o ≡ chunks_from (length frame) 0 frame) (has_frame_size (length frame))
      _ _ (λ _. refl) (λ e. absurd (ground arith))

-- Frames of sizes that may be sent arrive as they are, in order, and leave nothing behind.
pub receive-sent_chunks :
    (frames : List (List ℕ))
    → All IsSendable frames
    → receive (sent_chunks frames) new_assembler
      ≡ some (record { frames = frames; assembler = new_assembler })
unfolding sent_chunks receive
receive-sent_chunks [] h = refl
receive-sent_chunks (frame ∷ frames) h =
    let cut = chunks-split_direct_frame frame h.0 in
    ap (λ chunks. receive (chunks ++ sent_chunks frames) new_assembler) cut
    ∙ receive-chunks_from frame (length frame) 0 (sent_chunks frames) h.0 (ground arith)
        (omega arith)
    ∙ ap (with_frame frame) (receive-sent_chunks frames h.1)
