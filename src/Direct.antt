-- ===== src/Direct.antt =====
-- pwa/src/lib/protocol/direct-frame.ts: frames of the data channel between a phone and its computer,
-- cut into chunks with a magic, the length of the frame and the place of the chunk.
pub mod Buffers
pub mod RoundTrip
pub mod Bounds
use pairfob.Prelude.{
  ℕ, zero, suc, ◌+◌, ◌-◌, ◌*◌, min, Bool, true, false, not, ◌&&◌, ◌||◌, Option, none, some, List,
  [], ◌∷◌, ◌++◌, ◌==◌, leb, ltb, if◌then◌else◌, length, take, drop,
}
use pairfob.Envelope.{byte_at, uint32_at, uint32_bytes}

abbrev pub chunk_header_bytes : ℕ
chunk_header_bytes = 12

abbrev pub chunk_data_bytes : ℕ
chunk_data_bytes = 16372

abbrev pub max_frame_bytes : ℕ
max_frame_bytes = 262168

-- "PFP2"
abbrev pub magic : List ℕ
magic = 0x50 ∷ 0x46 ∷ 0x50 ∷ 0x32 ∷ []

-- The chunk of the frame at `offset`.
abbrev pub chunk_at : (offset : ℕ) → List ℕ → List ℕ
chunk_at offset frame =
    let end = min (offset + chunk_data_bytes) (length frame) in
    magic
    ++ (uint32_bytes (length frame)
        ++ (uint32_bytes offset ++ take (end - offset) (drop offset frame)))

-- The loop from `offset` on; each round takes a byte at least, so the length of the frame is fuel
-- enough.
unfoldable pub chunks_from : (fuel offset : ℕ) → List ℕ → List (List ℕ)
chunks_from zero offset frame = []
chunks_from (suc fuel) offset frame =
    let rest = chunks_from fuel (offset + chunk_data_bytes) frame in
    if ltb offset (length frame) then chunk_at offset frame ∷ rest else []

abbrev pub has_frame_size : ℕ → Bool
has_frame_size n = not (ltb n 24) && not (ltb max_frame_bytes n)

-- none where the source throws
unfoldable pub split_direct_frame : List ℕ → Option (List (List ℕ))
unfolding chunks_from
split_direct_frame frame =
    if has_frame_size (length frame) then some (chunks_from (length frame) 0 frame) else none

pub record Assembler : Type 0 where
  pub total : ℕ
  pub offset : ℕ
  pub held : List ℕ

abbrev pub new_assembler : Assembler
new_assembler = record { total = 0; offset = 0; held = [] }

-- What a push throws, or answers.
pub data Outcome : Type 0 where
  invalid_chunk invalid_bounds interleaved out_of_order : Outcome
  waiting : Outcome
  whole : List ℕ → Outcome

pub record Pushed : Type 0 where
  pub assembler : Assembler
  pub outcome : Outcome

abbrev pub has_magic : List ℕ → Bool
has_magic chunk =
    byte_at chunk 0 == 0x50
    && byte_at chunk 1 == 0x46
    && byte_at chunk 2 == 0x50
    && byte_at chunk 3 == 0x32

abbrev pub is_chunk : List ℕ → Bool
is_chunk chunk =
    not (leb (length chunk) chunk_header_bytes)
    && not (ltb (chunk_header_bytes + chunk_data_bytes) (length chunk))
    && has_magic chunk

abbrev pub in_bounds : (total offset payload_bytes : ℕ) → Bool
in_bounds total offset payload_bytes =
    has_frame_size total && ltb offset total && not (ltb total (offset + payload_bytes))

pub zeros : ℕ → List ℕ
zeros zero = []
zeros (suc n) = 0 ∷ zeros n

-- data.set(bytes, offset)
abbrev pub set_at : List ℕ → ℕ → List ℕ → List ℕ
set_at held offset bytes = take offset held ++ (bytes ++ drop (offset + length bytes) held)

-- A chunk at zero starts a frame.
abbrev pub begin_frame : (total offset : ℕ) → Assembler → Assembler
begin_frame total offset a =
    if offset == 0 then record { total = total; offset = 0; held = zeros total } else a

abbrev pub filled : (payload : List ℕ) → Assembler → Pushed
filled payload a =
    let held = set_at a.held a.offset payload in
    let offset = a.offset + length payload in
    if offset == a.total
    then record { assembler = new_assembler; outcome = whole held }
    else record { assembler = record a { held = held; offset = offset }; outcome = waiting }

unfoldable pub push : List ℕ → Assembler → Pushed
push chunk a =
    let total = uint32_at chunk 4 in
    let offset = uint32_at chunk 8 in
    let payload = drop chunk_header_bytes chunk in
    let begun = begin_frame total offset a in
    if not (is_chunk chunk)
    then record { assembler = a; outcome = invalid_chunk }
    else if not (in_bounds total offset (length chunk - chunk_header_bytes))
    then record { assembler = a; outcome = invalid_bounds }
    else if offset == 0 && not (length a.held == 0)
    then record { assembler = a; outcome = interleaved }
    else if not (begun.total == total) || not (offset == begun.offset)
    then record { assembler = begun; outcome = out_of_order }
    else filled payload begun

pub record Received : Type 0 where
  pub frames : List (List ℕ)
  pub assembler : Assembler

abbrev pub with_frame : List ℕ → Option Received → Option Received
with_frame frame none = none
with_frame frame (some r) = some (record r { frames = frame ∷ r.frames })

-- What one message of the channel gives; a throw closes the channel.
abbrev pub after_push : Pushed → (Assembler → Option Received) → Option Received
after_push p rest = elim p.outcome [
  | waiting ↦ rest p.assembler
  | whole frame ↦ with_frame frame (rest p.assembler)
  | _ ↦ none
]

-- The messages of a channel, in order (data-channel.ts); none once it is closed.
unfoldable pub receive : List (List ℕ) → Assembler → Option Received
unfolding push
receive [] a = some (record { frames = []; assembler = a })
receive (chunk ∷ chunks) a = after_push (push chunk a) (receive chunks)

abbrev pub or_nothing : Option (List (List ℕ)) → List (List ℕ)
or_nothing none = []
or_nothing (some chunks) = chunks

-- The messages that frames are sent as, in order; a frame of another size throws and sends nothing.
unfoldable pub sent_chunks : List (List ℕ) → List (List ℕ)
unfolding split_direct_frame
sent_chunks [] = []
sent_chunks (frame ∷ frames) = or_nothing (split_direct_frame frame) ++ sent_chunks frames
