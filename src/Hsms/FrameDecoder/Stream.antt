-- ===== src/Hsms/FrameDecoder/Stream.antt =====
-- The frame decoder of src/secsgem/hsms/frame_decoder.cpp as a reader of a byte stream.
use semiconductor_metrology.Base.{
  ◌≡◌, refl, true, false, List, [], ◌++◌, Result, ok, err, ◌>>=◌, if◌then◌else◌, length, arith,
  append_assoc, Bool-cases, inl, inr,
}
use semiconductor_metrology.Secs2.BigEndian.{Bytes}
use semiconductor_metrology.Hsms.Frame.{Frame}
use semiconductor_metrology.Hsms.FrameDecoder.{prepend, FrameDecoder, conclude, feed}
use semiconductor_metrology.Hsms.FrameDecoder.Rounds.{extract_all, extract-append, resume}

-- Two reads one after the other: the frames of both, or the first error.
abbrev pub both : Result (List Frame) → Result (List Frame) → Result (List Frame)
both r s = r >>= λ fs. s >>= λ gs. ok (fs ++ gs)

-- The parts of a decoder's state that count: a failed one never looks at its buffer again.
pub record Agrees (d e : FrameDecoder) : Type 0 where
  pub same_limit : d.max_frame_bytes ≡ e.max_frame_bytes
  pub same_failed : d.failed ≡ e.failed
  pub same_error : d.error ≡ e.error
  pub same_buffer : (if d.failed then [] else d.buffer) ≡ (if e.failed then [] else e.buffer)

pub feed_live :
    (d : FrameDecoder) (bytes : Bytes)
    → d.failed ≡ false
    → feed d bytes
      ≡ conclude d (d.buffer ++ bytes) (extract_all d.max_frame_bytes (d.buffer ++ bytes))
unfolding feed
feed_live d bytes h = rw h refl

-- A decoder that failed stays as it is and reports the same error again.
pub feed_failed :
    (d : FrameDecoder) (bytes : Bytes) → d.failed ≡ true → feed d bytes ≡ (d, err d.error)
unfolding feed
feed_failed d bytes h = ground arith

abbrev Outcome : Type 0
Outcome = FrameDecoder × Result (List Frame)

-- One read `x`, against two reads of which the second had the outcome `z` and the first `r`.
abbrev JoinsTo : Outcome → Result (List Frame) → Outcome → Type 0
JoinsTo x r z = (x.1 ≡ both r z.1) × Agrees x.0 z.0

failed_joins :
    (d : FrameDecoder) (xs ys : Bytes)
    → d.failed ≡ true
    → JoinsTo (feed d (xs ++ ys)) (feed d xs).1 (feed (feed d xs).0 ys)
unfolding feed
failed_joins d xs ys e =
    rw e (
      refl,
      record { same_limit = refl; same_failed = refl; same_error = refl; same_buffer = refl },
    )

conclude_after :
    (d : FrameDecoder) (before rest ys : Bytes) (fs : List Frame) (r : Result (List Frame × Bytes))
    → JoinsTo
        (conclude d (before ++ ys) (prepend fs r))
        (ok fs)
        (conclude (record d { buffer = rest }) (rest ++ ys) r)
conclude_after d before rest ys fs (ok (gs, left')) =
    (refl, record { same_limit = refl; same_failed = refl; same_error = refl; same_buffer = refl })
conclude_after d before rest ys fs (err e) =
    (refl, record { same_limit = refl; same_failed = refl; same_error = refl; same_buffer = refl })

feed_after :
    (d : FrameDecoder) (before ys : Bytes) (r : Result (List Frame × Bytes))
    → d.failed ≡ false
    → JoinsTo
        (conclude d (before ++ ys) (resume d.max_frame_bytes ys r))
        (conclude d before r).1
        (feed (conclude d before r).0 ys)
feed_after d before ys (err e) h =
    rw (feed_failed (record d { buffer = before; failed = true; error = e }) ys refl) (
      refl,
      record { same_limit = refl; same_failed = refl; same_error = refl; same_buffer = refl },
    )
feed_after d before ys (ok (fs, rest)) h =
    rw (feed_live (record d { buffer = rest }) ys h)
      (conclude_after d before rest ys fs (extract_all d.max_frame_bytes (rest ++ ys)))

-- One read of `xs ++ ys` gives the frames of a read of `xs` followed by a read of `ys`, or the
-- first error of the two, and leaves the decoder in a state that agrees with theirs.
pub feed-append :
    (d : FrameDecoder) (xs ys : Bytes)
    → ((feed d (xs ++ ys)).1 ≡ both (feed d xs).1 (feed (feed d xs).0 ys).1)
      × Agrees (feed d (xs ++ ys)).0 (feed (feed d xs).0 ys).0
feed-append d xs ys = elim (Bool-cases d.failed) [
  | inl failed ↦ failed_twice failed
  | inr live ↦
      rw (feed_live d (xs ++ ys) live, feed_live d xs live, ← append_assoc d.buffer xs ys)
        (rw
          (extract-append (length (d.buffer ++ xs)) (length (d.buffer ++ xs ++ ys))
            d.max_frame_bytes (d.buffer ++ xs) ys (omega arith) (omega arith))
          (feed_after d (d.buffer ++ xs) ys (extract_all d.max_frame_bytes (d.buffer ++ xs)) live))
]
  where
    failed_twice :
        d.failed ≡ true → JoinsTo (feed d (xs ++ ys)) (feed d xs).1 (feed (feed d xs).0 ys)
    failed_twice e = failed_joins d xs ys e
