-- ===== src/Hsms/FrameDecoder/Chunks.antt =====
-- The reads of a connection, one after the other, into the decoder of
-- src/secsgem/hsms/frame_decoder.cpp.
use mathlib.Core.List.{flatten}
use semiconductor_metrology.Base.{
  ℕ, ◌≡◌, refl, sym, ap, ap₂, ◌∙◌, List, [], ◌∷◌, ◌++◌, Result, Error, ok, err, Option, none, some,
  if◌then◌else◌, append_assoc, append-nil, Bool-cases, inl, inr,
}
use semiconductor_metrology.Secs2.BigEndian.{Bytes}
use semiconductor_metrology.Hsms.Frame.{Frame}
use semiconductor_metrology.Hsms.FrameDecoder.{FrameDecoder, new, conclude, feed, extract}
use semiconductor_metrology.Hsms.FrameDecoder.Rounds.{extract_all}
use semiconductor_metrology.Hsms.FrameDecoder.Stream.{
  both, Agrees, feed_live, feed_failed, feed-append,
}

-- All reads, in order: the frames of all of them, or the first error. Where there is one, the reads
-- before it have handed out frames all the same: see `received`.
unfoldable pub feed_all : FrameDecoder → List Bytes → FrameDecoder × Result (List Frame)
feed_all d [] = (d, ok [])
feed_all d (c ∷ cs) = let (d₁, r₁) = feed d c in let (d₂, r₂) = feed_all d₁ cs in (d₂, both r₁ r₂)

both-nil : (r : Result (List Frame)) → both r (ok []) ≡ r
both-nil (ok fs) = ap ok (append-nil fs)
both-nil (err e) = refl

both_assoc : (r s t : Result (List Frame)) → both (both r s) t ≡ both r (both s t)
both_assoc (ok fs) (ok gs) (ok hs) = ap ok (append_assoc fs gs hs)
both_assoc (ok fs) (ok gs) (err e) = refl
both_assoc (ok fs) (err e) t = refl
both_assoc (err e) s t = refl

abbrev Alike : FrameDecoder × Result (List Frame) → FrameDecoder × Result (List Frame) → Type 0
Alike x y = (x.1 ≡ y.1) × Agrees x.0 y.0

conclude-Alike :
    (d e : FrameDecoder) (p : Bytes) (r : Result (List Frame × Bytes))
    → Agrees d e
    → Alike (conclude d p r) (conclude e p r)
conclude-Alike d e p (ok (fs, rest)) a = (
  refl,
  record {
    same_limit = a.same_limit;
    same_failed = a.same_failed;
    same_error = a.same_error;
    same_buffer = ap (λ b. if b then [] else rest) a.same_failed;
  },
)
conclude-Alike d e p (err x) a = (
  refl,
  record { same_limit = a.same_limit; same_failed = refl; same_error = refl; same_buffer = refl },
)

conclude-Alike_eq :
    (d e : FrameDecoder) (p q : Bytes) (r s : Result (List Frame × Bytes))
    → p ≡ q
    → r ≡ s
    → Agrees d e
    → Alike (conclude d p r) (conclude e q s)
conclude-Alike_eq d e p q r s hp hr a = rw (hp, hr) (conclude-Alike d e q s a)

feed-Alike : (d e : FrameDecoder) (bytes : Bytes) → Agrees d e → Alike (feed d bytes) (feed e bytes)
feed-Alike d e bytes a = elim (Bool-cases d.failed) [
  | inl f ↦
      rw (feed_failed d bytes f, feed_failed e bytes (sym a.same_failed ∙ f))
        (ap err a.same_error, a)
  | inr f ↦
      let g = sym a.same_failed ∙ f in
      let same : d.buffer ≡ e.buffer = rw (f, g) at a.same_buffer in
      rw (feed_live d bytes f, feed_live e bytes g)
        (conclude-Alike_eq d e (d.buffer ++ bytes) (e.buffer ++ bytes)
          (extract_all d.max_frame_bytes (d.buffer ++ bytes))
          (extract_all e.max_frame_bytes (e.buffer ++ bytes)) (ap (λ b. b ++ bytes) same)
          (ap₂ (λ m b. extract_all m (b ++ bytes)) a.same_limit same) a)
]

feed_all-Alike :
    (cs : List Bytes) (d e : FrameDecoder) → Agrees d e → (feed_all d cs).1 ≡ (feed_all e cs).1
unfolding feed_all
feed_all-Alike [] d e a = refl
feed_all-Alike (c ∷ cs) d e a =
    ap₂ both (feed-Alike d e c a).0
      (feed_all-Alike cs (feed d c).0 (feed e c).0 (feed-Alike d e c a).1)

feed-feed_all :
    (d : FrameDecoder) (before : Bytes) (cs : List Bytes)
    → (feed d (before ++ flatten cs)).1 ≡ both (feed d before).1 (feed_all (feed d before).0 cs).1
unfolding feed_all flatten
feed-feed_all d before [] =
    ap (λ p. (feed d p).1) (append-nil before) ∙ sym (both-nil (feed d before).1)
feed-feed_all d before (c ∷ cs) =
    ap (λ p. (feed d p).1) (sym (append_assoc before c (flatten cs)))
    ∙ feed-feed_all d (before ++ c) cs
    ∙ ap₂ both (feed-append d before c).0 (
        feed_all-Alike cs (feed d (before ++ c)).0 (feed (feed d before).0 c).0
          (feed-append d before c).1)
    ∙ both_assoc (feed d before).1 (feed (feed d before).0 c).1
        (feed_all (feed (feed d before).0 c).0 cs).1

feed-new-nil : (max : ℕ) → feed (new max) [] ≡ (new max, ok [])
unfolding feed extract
feed-new-nil max = refl

-- The frames of all the reads, or the first error, against one read of all the bytes.
pub feed_all-flatten :
    (max : ℕ) (cs : List Bytes) → (feed_all (new max) cs).1 ≡ (feed (new max) (flatten cs)).1
feed_all-flatten max cs =
    sym (feed-feed_all (new max) [] cs ∙ rw (feed-new-nil max) (idem (feed_all (new max) cs).1))
  where
    idem : (r : Result (List Frame)) → both (ok []) r ≡ r
    idem (ok fs) = refl
    idem (err e) = refl

-- The frames of a read are handed out when it returns; at the first error the reading ends.
unfoldable pub after_read :
    Result (List Frame) → List Frame × Option Error → List Frame × Option Error
after_read (err e) more = ([], some e)
after_read (ok fs) (gs, failure) = (fs ++ gs, failure)

-- All that the reads hand out, and the error that ended them.
unfoldable pub received : FrameDecoder → List Bytes → List Frame × Option Error
unfolding after_read
received d [] = ([], none)
received d (c ∷ cs) = let (d', r) = feed d c in after_read r (received d' cs)

-- The reads before the one that fails.
unfoldable pub keep_read : Result (List Frame) → Bytes → List Bytes → List Bytes
keep_read (err e) c later = []
keep_read (ok fs) c later = c ∷ later

unfoldable pub reads_before_failure : FrameDecoder → List Bytes → List Bytes
unfolding keep_read
reads_before_failure d [] = []
reads_before_failure d (c ∷ cs) =
    let (d', r) = feed d c in keep_read r c (reads_before_failure d' cs)

-- What one read hands out where several hand out this: with an error, no frames.
unfoldable pub in_one : List Frame × Option Error → Result (List Frame)
in_one (fs, none) = ok fs
in_one (fs, some e) = err e

both-in_one :
    (r : Result (List Frame)) (more : List Frame × Option Error)
    → both r (in_one more) ≡ in_one (after_read r more)
unfolding in_one after_read
both-in_one (ok fs) (gs, none) = refl
both-in_one (ok fs) (gs, some e) = refl
both-in_one (err e) more = refl

feed_all-received :
    (d : FrameDecoder) (cs : List Bytes) → (feed_all d cs).1 ≡ in_one (received d cs)
unfolding feed_all received in_one
feed_all-received d [] = refl
feed_all-received d (c ∷ cs) =
    ap (both (feed d c).1) (feed_all-received (feed d c).0 cs)
    ∙ both-in_one (feed d c).1 (received (feed d c).0 cs)

received-keep_read :
    (d : FrameDecoder) (c : Bytes) (later : List Bytes) (more : List Frame × Option Error)
    (r : Result (List Frame))
    → (feed d c).1 ≡ r
    → received (feed d c).0 later ≡ (more.0, none)
    → received d (keep_read r c later) ≡ ((after_read r more).0, none)
unfolding received keep_read after_read
received-keep_read d c later more (err e) h again = refl
received-keep_read d c later more (ok fs) h again = ap₂ after_read h again

received-reads_before_failure :
    (d : FrameDecoder) (cs : List Bytes)
    → received d (reads_before_failure d cs) ≡ ((received d cs).0, none)
unfolding received reads_before_failure
received-reads_before_failure d [] = refl
received-reads_before_failure d (c ∷ cs) =
    received-keep_read d c (reads_before_failure (feed d c).0 cs) (received (feed d c).0 cs)
      (feed d c).1 refl (received-reads_before_failure (feed d c).0 cs)

-- A stream in one read and in several, from a new decoder: how it is cut decides neither whether
-- the decoder fails, nor with which error, nor, where it does not fail, the frames. Where it
-- fails, the reads before the failing one have handed out exactly the frames that one read of
-- their bytes gives, while one read of the whole stream gives the error alone.
pub received-flatten :
    (max : ℕ) (cs : List Bytes)
    → ((feed (new max) (flatten cs)).1 ≡ in_one (received (new max) cs))
      × ((feed (new max) (flatten (reads_before_failure (new max) cs))).1
          ≡ ok (received (new max) cs).0)
unfolding in_one
received-flatten max cs = (
  whole cs,
  whole (reads_before_failure (new max) cs)
      ∙ ap in_one (received-reads_before_failure (new max) cs),
)
  where
    whole : (rs : List Bytes) → (feed (new max) (flatten rs)).1 ≡ in_one (received (new max) rs)
    whole rs = sym (feed_all-flatten max rs) ∙ feed_all-received (new max) rs
