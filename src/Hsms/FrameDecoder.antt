-- ===== src/Hsms/FrameDecoder.antt =====
-- The frame decoder (include/ssim/secsgem/hsms/frame_decoder.hpp,
-- src/secsgem/hsms/frame_decoder.cpp). The loop works on what lies behind `offset` in the buffer.
-- Each round takes 14 bytes at least, so the buffer's length is fuel enough: at fuel zero the
-- buffer is empty and the loop's test fails.
pub mod Rounds
pub mod Stream
pub mod Chunks
pub mod Encoded
use semiconductor_metrology.Base.{
  ℕ, zero, suc, String, ◌+◌, ◌-◌, ◌*◌, ◌^◌, Bool, true, false, List, [], ◌∷◌, ◌++◌, Result, ok, err,
  Error, ◌>>=◌, if◌then◌else◌, ltb, length, take, drop,
}
use semiconductor_metrology.Secs2.BigEndian.{Bytes}
use semiconductor_metrology.Hsms.Frame.{
  Frame, Header, length_field_size, header_size, err_frame_too_short, err_frame_too_long,
}

-- p[i]; the loop only reads bytes that are there.
unfoldable pub byte_at : Bytes → ℕ → ℕ
byte_at [] i = 0
byte_at (b ∷ bs) zero = b
byte_at (b ∷ bs) (suc i) = byte_at bs i

unfoldable pub load_be32 : Bytes → ℕ
load_be32 p = byte_at p 0 * 2 ^ 24 + byte_at p 1 * 2 ^ 16 + byte_at p 2 * 2 ^ 8 + byte_at p 3

unfoldable pub load_be16 : Bytes → ℕ
load_be16 p = byte_at p 0 * 2 ^ 8 + byte_at p 1

-- The frame whose header stands at `h`, with the length field's value.
unfoldable pub frame_at : Bytes → ℕ → Frame
frame_at h len = record {
  header = record {
    session_id = load_be16 h;
    byte2 = byte_at h 2;
    byte3 = byte_at h 3;
    ptype = byte_at h 4;
    stype = byte_at h 5;
    system_bytes = load_be32 (drop 6 h);
  };
  body = take (len - header_size) (drop header_size h);
}

-- One round of the loop: leave it, fail, or take a frame off the buffer.
pub data Step : Type 0 where
  wait : Step
  bad : Error → Step
  got : Frame → Bytes → Step

abbrev pub too_short : Error
too_short = record {
  code = err_frame_too_short;
  message = "frame length is below the 10-byte header";
}

abbrev pub too_long : Error
too_long = record {
  code = err_frame_too_long;
  message = "frame length is above the configured maximum";
}

unfoldable pub next_frame : ℕ → Bytes → Step
next_frame max p =
    if ltb (length p) length_field_size
    then wait
    else if ltb (load_be32 p) header_size
    then bad too_short
    else if ltb max (load_be32 p)
    then bad too_long
    else if ltb (length p) (length_field_size + load_be32 p)
    then wait
    else got (frame_at (drop length_field_size p) (load_be32 p))
        (drop (length_field_size + load_be32 p) p)

-- frames.push_back
abbrev pub prepend : List Frame → Result (List Frame × Bytes) → Result (List Frame × Bytes)
prepend fs r = r >>= λ (more, rest). ok (fs ++ more, rest)

-- The frames taken, and what is left in the buffer.
unfoldable pub extract : ℕ → ℕ → Bytes → Result (List Frame × Bytes)
extract zero max p = ok ([], p)
extract (suc fuel) max p = elim (next_frame max p) [
  | wait ↦ ok ([], p)
  | bad e ↦ err e
  | got f rest ↦ prepend (f ∷ []) (extract fuel max rest)
]

pub record FrameDecoder : Type 0 where
  pub max_frame_bytes : ℕ
  pub buffer : Bytes
  pub failed : Bool
  pub error : Error

abbrev pub new : ℕ → FrameDecoder
new max = record {
  max_frame_bytes = max;
  buffer = [];
  failed = false;
  error = record { code = 0; message = "" };
}

unfoldable pub has_partial : FrameDecoder → Bool
has_partial d = ltb 0 (length d.buffer)

-- What feed returns, from the buffer with the new bytes and the outcome of the loop.
abbrev pub conclude :
    FrameDecoder → Bytes → Result (List Frame × Bytes) → FrameDecoder × Result (List Frame)
conclude d buffered (ok (frames, rest)) = (record d { buffer = rest }, ok frames)
conclude d buffered (err e) = (record d { buffer = buffered; failed = true; error = e }, err e)

unfoldable pub feed : FrameDecoder → Bytes → FrameDecoder × Result (List Frame)
feed d bytes =
    let buffered = d.buffer ++ bytes in
    if d.failed
    then (d, err d.error)
    else conclude d buffered (extract (length buffered) d.max_frame_bytes buffered)
