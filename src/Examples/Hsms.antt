-- ===== src/Examples/Hsms.antt =====
-- The theorems about src/secsgem/hsms at concrete inputs.
use mathlib.Core.List.{flatten}
use semiconductor_metrology.Base.{some, ◌++◌, ◌+◌, ◌<◌, ◌≡◌, refl, List, [], ◌∷◌, ok, arith, length}
use semiconductor_metrology.Secs2.BigEndian.{Bytes}
use semiconductor_metrology.Hsms.Frame.{
  Frame, linktest_req, make_control_frame, encode_frame, length_field_size, put_be32, header_bytes,
}
use semiconductor_metrology.Hsms.FrameDecoder.{
  new, feed, extract, next_frame, byte_at, load_be32, load_be16, frame_at, too_short,
}
use semiconductor_metrology.Hsms.FrameDecoder.Stream.{both, Agrees, feed-append}
use semiconductor_metrology.Hsms.FrameDecoder.Chunks.{
  feed_all, received, after_read, reads_before_failure, in_one, received-flatten,
}
use semiconductor_metrology.Hsms.FrameDecoder.Encoded.{
  encode_frames, feed_all-encode_frames, feed-buffer_bound,
}

abbrev linktest : Frame
linktest = make_control_frame linktest_req 7 0 0

-- The bytes of a Linktest.req, in two reads.
abbrev reads : List Bytes
reads = (0 ∷ 0 ∷ 0 ∷ 10 ∷ 0xff ∷ 0xff ∷ []) ∷ (0 ∷ 0 ∷ 0 ∷ 5 ∷ 0 ∷ 0 ∷ 0 ∷ 7 ∷ []) ∷ []

feed-append_example :
    ((feed (new 100) (0 ∷ 0 ∷ [])).1
      ≡ both (feed (new 100) (0 ∷ [])).1 (feed (feed (new 100) (0 ∷ [])).0 (0 ∷ [])).1)
    × Agrees (feed (new 100) (0 ∷ 0 ∷ [])).0 (feed (feed (new 100) (0 ∷ [])).0 (0 ∷ [])).0
feed-append_example = feed-append (new 100) (0 ∷ []) (0 ∷ [])

-- The same frame, and then a length that is too short.
abbrev bad_reads : List Bytes
bad_reads = reads ++ ((0 ∷ 0 ∷ 0 ∷ 3 ∷ []) ∷ (1 ∷ []) ∷ [])

received-flatten_example :
    ((feed (new 100) (flatten bad_reads)).1 ≡ in_one (received (new 100) bad_reads))
    × ((feed (new 100) (flatten (reads_before_failure (new 100) bad_reads))).1
        ≡ ok (received (new 100) bad_reads).0)
received-flatten_example = received-flatten 100 bad_reads

-- What the reads hand out.
received_lem : received (new 100) bad_reads ≡ (linktest ∷ [], some too_short)
unfolding received after_read feed extract next_frame load_be32 load_be16 byte_at frame_at
    make_control_frame
received_lem = refl

feed_all-encode_frames_example : (feed_all (new 100) reads).1 ≡ ok (linktest ∷ [])
unfolding make_control_frame encode_frames encode_frame put_be32 header_bytes flatten
feed_all-encode_frames_example = feed_all-encode_frames 100 (linktest ∷ []) reads (omega arith) refl

feed-buffer_bound_example :
    length (feed (new 100) (0 ∷ 0 ∷ 0 ∷ 10 ∷ 9 ∷ [])).0.buffer < length_field_size + 100
unfolding feed extract next_frame load_be32 byte_at
feed-buffer_bound_example = feed-buffer_bound (new 100) (0 ∷ 0 ∷ 0 ∷ 10 ∷ 9 ∷ []) [] refl
