-- ===== src/Direct/Bounds.antt =====
-- What an assembler holds is bounded, whatever arrives.
use pairfob.Prelude.{
  ℕ, ◌+◌, ◌-◌, ◌≤◌, ◌≡◌, refl, false, not, ◌&&◌, ◌||◌, List, [], ◌∷◌, ◌++◌, ◌==◌, arith, length,
  take, drop, length-take, length-drop, length-append, if_rule,
}
use pairfob.Envelope.{uint32_at}
use pairfob.Direct.{
  chunk_header_bytes, max_frame_bytes, Assembler, new_assembler, Pushed, is_chunk, in_bounds,
  set_at, begin_frame, filled, push,
}
use pairfob.Direct.Buffers.{length-zeros}

-- A buffer of the length of the frame, filled up to the offset.
pub record IsSound (a : Assembler) : Type 0 where
  pub buffer : length a.held ≡ a.total
  pub fits : a.total ≤ max_frame_bytes

abbrev pub push_each : List (List ℕ) → Assembler → Assembler
push_each [] a = a
push_each (chunk ∷ chunks) a = push_each chunks (push chunk a).assembler

length-set_at :
    (held : List ℕ) (offset : ℕ) (bytes : List ℕ)
    → offset + length bytes ≤ length held
    → length (set_at held offset bytes) ≡ length held
length-set_at held offset bytes h = omega (
  arith,
  length-append (take offset held) (bytes ++ drop (offset + length bytes) held),
  length-append bytes (drop (offset + length bytes) held),
  length-take offset held,
  length-drop (offset + length bytes) held,
)

begin_frame-IsSound :
    (total offset : ℕ) (a : Assembler)
    → total ≤ max_frame_bytes
    → IsSound a
    → IsSound (begin_frame total offset a)
begin_frame-IsSound total offset a le h =
    if_rule IsSound (offset == 0) _ _ (λ _. record { buffer = length-zeros total; fits = le })
      (λ _. h)

filled-IsSound :
    (payload : List ℕ) (a : Assembler)
    → a.offset + length payload ≤ a.total
    → IsSound a
    → IsSound (filled payload a).assembler
filled-IsSound payload a inside h =
    let same = length-set_at a.held a.offset payload (ground (arith, h.buffer)) in
    if_rule (λ (p : Pushed). IsSound p.assembler) (a.offset + length payload == a.total) _ _
      (λ _. record { buffer = refl; fits = omega arith })
      (λ _. record { buffer = ground (arith, h.buffer); fits = h.fits })

-- A chunk that is in bounds and in order ends in the frame.
chunk_ends :
    (total offset size : ℕ) (b : Assembler)
    → not (in_bounds total offset size) ≡ false
    → (not (b.total == total) || not (offset == b.offset)) ≡ false
    → b.offset + size ≤ b.total
chunk_ends total offset size b within in_order = ground arith

push-IsSound : (chunk : List ℕ) (a : Assembler) → IsSound a → IsSound (push chunk a).assembler
unfolding push
push-IsSound chunk a h =
    let Kept = λ (p : Pushed). IsSound p.assembler in
    let begun = begin_frame (uint32_at chunk 4) (uint32_at chunk 8) a in
    if_rule Kept (not (is_chunk chunk)) _ _ (λ _. h)
      λ _.
        if_rule Kept
          (not
            (in_bounds (uint32_at chunk 4) (uint32_at chunk 8) (length chunk - chunk_header_bytes)))
          _ _ (λ _. h)
          λ within.
            let sound =
              begin_frame-IsSound (uint32_at chunk 4) (uint32_at chunk 8) a (ground arith) h in
            if_rule Kept (uint32_at chunk 8 == 0 && not (length a.held == 0)) _ _ (λ _. h)
              λ _.
                if_rule Kept
                  (not (begun.total == uint32_at chunk 4)
                    || not (uint32_at chunk 8 == begun.offset))
                  _ _ (λ _. sound)
                  λ in_order.
                    filled-IsSound (drop chunk_header_bytes chunk) begun
                      (rw (length-drop chunk_header_bytes chunk) (
                        chunk_ends (uint32_at chunk 4) (uint32_at chunk 8)
                          (length chunk - chunk_header_bytes) begun within in_order))
                      sound

push_each-IsSound :
    (chunks : List (List ℕ)) (a : Assembler) → IsSound a → IsSound (push_each chunks a)
push_each-IsSound [] a h = h
push_each-IsSound (chunk ∷ chunks) a h =
    push_each-IsSound chunks (push chunk a).assembler (push-IsSound chunk a h)

-- Whatever chunks arrive, and whatever of them is refused, an assembler never holds more bytes than
-- the longest frame has.
pub held_bounded :
    (chunks : List (List ℕ)) → length (push_each chunks new_assembler).held ≤ max_frame_bytes
held_bounded chunks =
    let sound =
      push_each-IsSound chunks new_assembler (record { buffer = refl; fits = omega arith }) in
    omega (arith, sound.buffer, sound.fits)
