-- ===== src/Tests/Direct.antt =====
-- Runs of the theorems on the frames of a data channel.
use pairfob.Prelude.{ℕ, ◌≤◌, ◌≡◌, refl, some, List, [], ◌∷◌, length}
use pairfob.Direct.{new_assembler, sent_chunks, receive, max_frame_bytes, chunk_at}
use pairfob.Direct.RoundTrip.{receive-sent_chunks}
use pairfob.Direct.Bounds.{push_each, held_bounded}
use pairfob.Tests.{repeat}

abbrev short_frame : List ℕ
short_frame = repeat 30 5

-- Two chunks.
abbrev long_frame : List ℕ
long_frame = repeat 16400 7

receive-sent_chunks_example :
    receive (sent_chunks (short_frame ∷ long_frame ∷ short_frame ∷ [])) new_assembler
    ≡ some
        (record { frames = short_frame ∷ long_frame ∷ short_frame ∷ []; assembler = new_assembler })
receive-sent_chunks_example =
    receive-sent_chunks (short_frame ∷ long_frame ∷ short_frame ∷ []) (refl, (refl, (refl, tt)))

-- A chunk of a long frame, a broken one, and one out of order.
held_bounded_example :
    length
      (push_each
        (chunk_at 0 long_frame ∷ short_frame ∷ chunk_at 0 short_frame ∷ [])
        new_assembler).held
    ≤ max_frame_bytes
held_bounded_example =
    held_bounded (chunk_at 0 long_frame ∷ short_frame ∷ chunk_at 0 short_frame ∷ [])
