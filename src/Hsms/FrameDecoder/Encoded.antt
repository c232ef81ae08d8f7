-- ===== src/Hsms/FrameDecoder/Encoded.antt =====
-- Frames that src/secsgem/hsms/frame.cpp encodes, read back by src/secsgem/hsms/frame_decoder.cpp.
use mathlib.Core.List.{flatten}
use semiconductor_metrology.Base.{
  ℕ, suc, zero, ◌+◌, ◌-◌, ◌^◌, ◌≤◌, ◌<◌, ◌≡◌, refl, sym, ap, ◌∙◌, List, [], ◌∷◌, ◌++◌, Result, ok,
  err, ◌>>=◌, length, take, drop, arith, All, append_assoc, append-nil, length-append, le→not-ltb,
  drop-length_append, take-length_append,
}
use semiconductor_metrology.Secs2.BigEndian.{Bytes}
use semiconductor_metrology.Hsms.Frame.{
  Frame, Header, header_bytes, put_be16, put_be32, encode_frame, header_size, length_field_size,
}
use semiconductor_metrology.Hsms.FrameDecoder.{
  FrameDecoder, new, byte_at, load_be16, load_be32, frame_at, wait, bad, got, next_frame, prepend,
  conclude, feed, extract, Step,
}
use semiconductor_metrology.Hsms.FrameDecoder.Rounds.{extract_all, extract-fuel, next_frame-shorter}
use semiconductor_metrology.Hsms.FrameDecoder.Stream.{feed_live}
use semiconductor_metrology.Hsms.FrameDecoder.Chunks.{feed_all, feed_all-flatten}

-- The header's fields fit their types.
pub record IsHeader (h : Header) : Type 0 where
  pub session_fits : h.session_id < 2 ^ 16
  pub byte2_fits : h.byte2 < 256
  pub byte3_fits : h.byte3 < 256
  pub ptype_fits : h.ptype < 256
  pub stype_fits : h.stype < 256
  pub system_fits : h.system_bytes < 2 ^ 32

-- A frame that a decoder with this limit, itself a 32-bit number, lets through.
pub record Passes (max : ℕ) (f : Frame) : Type 0 where
  pub header_fits : IsHeader f.header
  pub short : header_size + length f.body ≤ max
  pub limit : max < 2 ^ 32

abbrev wire : Frame → Bytes
wire f = put_be32 (header_size + length f.body) ++ (header_bytes f.header ++ f.body)

load-put_be32 : (v : ℕ) (rest : Bytes) → v < 2 ^ 32 → load_be32 (put_be32 v ++ rest) ≡ v
unfolding load_be32 put_be32 byte_at
load-put_be32 v rest h = omega arith

load-put_be16 : (v : ℕ) (rest : Bytes) → v < 2 ^ 16 → load_be16 (put_be16 v ++ rest) ≡ v
unfolding load_be16 put_be16 byte_at
load-put_be16 v rest h = omega arith

body_of : (body rest : Bytes) → take (header_size + length body - header_size) (body ++ rest) ≡ body
body_of body rest =
    ap (λ (n : ℕ). take n (body ++ rest)) (omega arith) ∙ take-length_append body rest

frame_at-header_bytes :
    (f : Frame) (rest : Bytes)
    → IsHeader f.header
    → frame_at (header_bytes f.header ++ f.body ++ rest) (header_size + length f.body) ≡ f
unfolding frame_at header_bytes put_be16 put_be32 byte_at load_be16 load_be32
frame_at-header_bytes f rest h = ground (arith, body_of f.body rest)

length-wire : (f : Frame) → length (wire f) ≡ length_field_size + (header_size + length f.body)
unfolding put_be32 header_bytes
length-wire f = omega arith

drop_field :
    (f : Frame) (rest : Bytes)
    → drop length_field_size (wire f ++ rest) ≡ header_bytes f.header ++ f.body ++ rest
unfolding put_be32
drop_field f rest = refl

drop-wire :
    (f : Frame) (rest : Bytes)
    → drop (length_field_size + (header_size + length f.body)) (wire f ++ rest) ≡ rest
drop-wire f rest = rw (length-wire f) at (drop-length_append (wire f) rest)

next_frame-wire :
    (max : ℕ) (f : Frame) (rest : Bytes)
    → Passes max f
    → next_frame max (wire f ++ rest) ≡ got f rest
unfolding next_frame
next_frame-wire max f rest p = ground (
  arith,
  load-put_be32 (header_size + length f.body) (header_bytes f.header ++ f.body ++ rest)
      (omega (arith, p.short, p.limit)),
  length-append (wire f) rest,
  length-wire f,
  drop_field f rest,
  drop-wire f rest,
  frame_at-header_bytes f rest p.header_fits,
  append_assoc (put_be32 (header_size + length f.body)) (header_bytes f.header ++ f.body) rest,
)

encode_frame-wire : (max : ℕ) (f : Frame) → Passes max f → encode_frame f ≡ ok (wire f)
unfolding encode_frame
encode_frame-wire max f p =
    rw (le→not-ltb 0xffff_ffff (header_size + length f.body) (omega (arith, p.short, p.limit))) refl

prepend_append :
    (fs gs : List Frame) (r : Result (List Frame × Bytes))
    → prepend fs (prepend gs r) ≡ prepend (fs ++ gs) r
prepend_append fs gs (ok (hs, rest)) = ap (λ x. ok (x, rest)) (sym (append_assoc fs gs hs))
prepend_append fs gs (err e) = refl

extract_all-wire :
    (max : ℕ) (f : Frame) (rest : Bytes)
    → Passes max f
    → extract_all max (wire f ++ rest) ≡ prepend (f ∷ []) (extract_all max rest)
unfolding extract
extract_all-wire max f rest p =
    extract-fuel (length (wire f ++ rest)) (suc (length (wire f ++ rest))) max (wire f ++ rest)
      (omega arith) (omega arith)
    ∙ rw (next_frame-wire max f rest p, extract)
        (ap (prepend (f ∷ [])) (
          extract-fuel (length (wire f ++ rest)) (length rest) max rest
            (omega (arith, length-append (wire f) rest)) (omega arith)))

-- The frames one after the other on the wire.
unfoldable pub encode_frames : List Frame → Result Bytes
encode_frames [] = ok []
encode_frames (f ∷ fs) = do ok ((← encode_frame f) ++ (← encode_frames fs))

extract_all-encode_frames :
    (max : ℕ) (fs : List Frame) (tail : Bytes)
    → All (Passes max) fs
    → (bs : Bytes) × (encode_frames fs ≡ ok bs)
      × (extract_all max (bs ++ tail) ≡ prepend fs (extract_all max tail))
unfolding encode_frames
extract_all-encode_frames max [] tail h = ([], refl, sym (unit (extract_all max tail)))
  where
    unit : (r : Result (List Frame × Bytes)) → prepend [] r ≡ r
    unit (ok x) = refl
    unit (err e) = refl
extract_all-encode_frames max (f ∷ fs) tail h =
    let (bs, e, x) = extract_all-encode_frames max fs tail h.1 in
    (
      wire f ++ bs,
      rw (encode_frame-wire max f h.0, e),
      rw (append_assoc (wire f) bs tail) (
          extract_all-wire max f (bs ++ tail) h.0
          ∙ ap (prepend (f ∷ [])) x
          ∙ prepend_append (f ∷ []) fs (extract_all max tail)),
    )

-- Frames within the limits are encoded.
pub encode_frames_total :
    (max : ℕ) (fs : List Frame) → All (Passes max) fs → (bs : Bytes) × (encode_frames fs ≡ ok bs)
encode_frames_total max fs h = let (bs, e, x) = extract_all-encode_frames max fs [] h in (bs, e)

feed_encoded :
    (max : ℕ) (fs : List Frame) (bs : Bytes)
    → All (Passes max) fs
    → encode_frames fs ≡ ok bs
    → (feed (new max) bs).1 ≡ ok fs
unfolding extract
feed_encoded max fs bs h same =
    let (cs, e, x) = extract_all-encode_frames max fs [] h in
    let eq : bs ≡ cs = cc (same, e) in
    ap (λ o. o.1) (feed_live (new max) bs refl)
    ∙ ap (λ r. (conclude (new max) bs r).1) (ap (extract_all max) (eq ∙ sym (append-nil cs)) ∙ x)
    ∙ ap ok (append-nil fs)

-- Frames within the limits come through the stream: however their encodings, one after the other,
-- are cut into reads, a new decoder gives back exactly these frames, in order.
pub feed_all-encode_frames :
    (max : ℕ) (fs : List Frame) (cs : List Bytes)
    → All (Passes max) fs
    → encode_frames fs ≡ ok (flatten cs)
    → (feed_all (new max) cs).1 ≡ ok fs
feed_all-encode_frames max fs cs h e =
    feed_all-flatten max cs ∙ feed_encoded max fs (flatten cs) h e

next_frame-wait :
    (max : ℕ) (p : Bytes) → next_frame max p ≡ wait → length p < length_field_size + max
unfolding next_frame
next_frame-wait max p e = ground arith

abbrev LeavesLess : ℕ → Result (List Frame × Bytes) → Type 0
LeavesLess n (ok (fs, rest)) = length rest < n
LeavesLess n (err e) = Unit {0}

prepend-LeavesLess :
    (n : ℕ) (f : Frame) (r : Result (List Frame × Bytes))
    → LeavesLess n r
    → LeavesLess n (prepend (f ∷ []) r)
prepend-LeavesLess n f (ok (fs, rest)) h = h
prepend-LeavesLess n f (err e) h = tt

after_round :
    (fuel max : ℕ) (p : Bytes) (s : Step)
    → next_frame max p ≡ s
    → ((f : Frame) (rest : Bytes)
        → length rest < length p
        → LeavesLess (length_field_size + max) (extract fuel max rest))
    → LeavesLess (length_field_size + max) (elim s [
      | wait ↦ ok ([], p)
      | bad e ↦ err e
      | got f rest ↦ prepend (f ∷ []) (extract fuel max rest)
    ])
after_round fuel max p wait e ih = next_frame-wait max p e
after_round fuel max p (bad x) e ih = tt
after_round fuel max p (got f rest) e ih =
    prepend-LeavesLess _ f (extract fuel max rest) (ih f rest (next_frame-shorter max p rest f e))

extract-LeavesLess :
    (fuel max : ℕ) (p : Bytes)
    → length p ≤ fuel
    → LeavesLess (length_field_size + max) (extract fuel max p)
unfolding extract
extract-LeavesLess zero max p h = omega arith
extract-LeavesLess (suc fuel) max p h =
    after_round fuel max p (next_frame max p) refl
      λ f rest less. extract-LeavesLess fuel max rest (omega arith)

-- What a read without an error leaves in the buffer is less than one frame of the largest size
-- with its length field, whatever was in the buffer before.
pub feed-buffer_bound :
    (d : FrameDecoder) (bytes : Bytes) (fs : List Frame)
    → (feed d bytes).1 ≡ ok fs
    → length (feed d bytes).0.buffer < length_field_size + d.max_frame_bytes
unfolding feed
feed-buffer_bound d bytes fs e =
    let bound =
      extract-LeavesLess (length (d.buffer ++ bytes)) d.max_frame_bytes (d.buffer ++ bytes)
        (omega arith) in
    ground (arith, bound)
