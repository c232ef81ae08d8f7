-- ===== src/Hsms/FrameDecoder/Rounds.antt =====
-- One round of the loop of src/secsgem/hsms/frame_decoder.cpp, and the loop's fuel.
use semiconductor_metrology.Base.{
  ℕ, zero, suc, ◌+◌, ◌-◌, ◌≤◌, ◌<◌, ◌≡◌, refl, sym, ap, ◌∙◌, List, [], ◌∷◌, ◌++◌, Result, ok, err,
  ◌>>=◌, ltb, length, drop, arith, length-append, length-drop, take-append_le, drop-append_le,
  Bool-cases, inl, inr,
}
use semiconductor_metrology.Secs2.BigEndian.{Bytes}
use semiconductor_metrology.Hsms.Frame.{Frame}
use semiconductor_metrology.Hsms.FrameDecoder.{
  byte_at, load_be16, load_be32, frame_at, Step, wait, bad, got, next_frame, prepend, extract,
}

byte_at-append : (xs ys : Bytes) (i : ℕ) → i < length xs → byte_at (xs ++ ys) i ≡ byte_at xs i
unfolding byte_at
byte_at-append [] ys i h = elim h [ ]
byte_at-append (x ∷ xs) ys zero h = refl
byte_at-append (x ∷ xs) ys (suc i) h = byte_at-append xs ys i (omega arith)

load_be32-append : (xs ys : Bytes) → 4 ≤ length xs → load_be32 (xs ++ ys) ≡ load_be32 xs
unfolding load_be32
load_be32-append xs ys h = rw (
  byte_at-append xs ys 0 (omega arith),
  byte_at-append xs ys 1 (omega arith),
  byte_at-append xs ys 2 (omega arith),
  byte_at-append xs ys 3 (omega arith),
)

load_be16-append : (xs ys : Bytes) → 2 ≤ length xs → load_be16 (xs ++ ys) ≡ load_be16 xs
unfolding load_be16
load_be16-append xs ys h =
    rw (byte_at-append xs ys 0 (omega arith), byte_at-append xs ys 1 (omega arith))

frame_at-append :
    (xs ys : Bytes) (len : ℕ)
    → 10 ≤ len
    → len ≤ length xs
    → frame_at (xs ++ ys) len ≡ frame_at xs len
unfolding frame_at
frame_at-append xs ys len lo hi = rw (
  load_be16-append xs ys (omega arith),
  byte_at-append xs ys 2 (omega arith),
  byte_at-append xs ys 3 (omega arith),
  byte_at-append xs ys 4 (omega arith),
  byte_at-append xs ys 5 (omega arith),
  drop-append_le 6 xs ys (omega arith),
  drop-append_le 10 xs ys (omega arith),
  load_be32-append (drop 6 xs) ys (omega (arith, length-drop 6 xs)),
  take-append_le (len - 10) (drop 10 xs) ys (omega (arith, length-drop 10 xs)),
)

-- A round that decides on some bytes decides the same when more have arrived behind them.
Decides : Step → Bytes → Step → Type 0
Decides wait ys t = Unit
Decides (bad e) ys t = t ≡ bad e
Decides (got f rest) ys t = t ≡ got f (rest ++ ys)

next_frame-append :
    (max : ℕ) (xs ys : Bytes) → Decides (next_frame max xs) ys (next_frame max (xs ++ ys))
unfolding next_frame Decides
next_frame-append max xs ys = elim (Bool-cases (ltb (length xs) 4)) [
  | inl few ↦ rw few tt
  | inr enough ↦ ground (
    arith,
    enough,
    length-append xs ys,
    drop-append_le 4 xs ys,
    load_be32-append xs ys,
    drop-append_le (4 + load_be32 xs) xs ys,
    frame_at-append (drop 4 xs) ys (load_be32 xs),
    length-drop 4 xs,
  )
]

-- A frame takes bytes off the buffer.
pub next_frame-shorter :
    (max : ℕ) (xs rest : Bytes) (f : Frame)
    → next_frame max xs ≡ got f rest
    → length rest < length xs
unfolding next_frame
next_frame-shorter max xs rest f e = ground (arith, length-drop (4 + load_be32 xs) xs)

prepend-nil : (r : Result (List Frame × Bytes)) → prepend [] r ≡ r
prepend-nil (ok (fs, rest)) = refl
prepend-nil (err e) = refl

-- All the frames of a buffer, with the fuel that the source's loop is given here.
abbrev pub extract_all : ℕ → Bytes → Result (List Frame × Bytes)
extract_all max p = extract (length p) max p

extract_step : ℕ → ℕ → Bytes → Step → Result (List Frame × Bytes)
extract_step fuel max p wait = ok ([], p)
extract_step fuel max p (bad e) = err e
extract_step fuel max p (got f rest) = prepend (f ∷ []) (extract fuel max rest)

extract-suc :
    (fuel max : ℕ) (p : Bytes)
    → extract (suc fuel) max p ≡ extract_step fuel max p (next_frame max p)
unfolding extract extract_step
extract-suc fuel max p = ground arith

next_frame-nil : (max : ℕ) → next_frame max [] ≡ wait
unfolding next_frame
next_frame-nil max = refl

extract-idle : (fuel max : ℕ) → extract (suc fuel) max [] ≡ ok ([], [])
unfolding extract_step
extract-idle fuel max = extract-suc fuel max [] ∙ ap (extract_step fuel max []) (next_frame-nil max)

extract_step-congr :
    (f g max : ℕ) (p : Bytes) (s : Step)
    → next_frame max p ≡ s
    → ((rest : Bytes) → length rest < length p → extract f max rest ≡ extract g max rest)
    → extract_step f max p s ≡ extract_step g max p s
unfolding extract_step
extract_step-congr f g max p wait e ih = refl
extract_step-congr f g max p (bad x) e ih = refl
extract_step-congr f g max p (got fr rest) e ih =
    ap (prepend (fr ∷ [])) (ih rest (next_frame-shorter max p rest fr e))

-- More fuel than the buffer is long changes nothing.
pub extract-fuel :
    (f g max : ℕ) (p : Bytes) → length p ≤ f → length p ≤ g → extract f max p ≡ extract g max p
unfolding extract
extract-fuel zero zero max p hf hg = refl
extract-fuel zero (suc g) max [] hf hg = sym (extract-idle g max)
extract-fuel zero (suc g) max (b ∷ p) hf hg = elim hf [ ]
extract-fuel (suc f) zero max [] hf hg = extract-idle f max
extract-fuel (suc f) zero max (b ∷ p) hf hg = elim hg [ ]
extract-fuel (suc f) (suc g) max p hf hg =
    extract-suc f max p
    ∙ extract_step-congr f g max p (next_frame max p) refl
        (λ rest less. extract-fuel f g max rest (omega arith) (omega arith))
    ∙ sym (extract-suc g max p)

-- What the loop does on the rest, once the frames of `r` are out and more bytes have arrived.
abbrev pub resume : ℕ → Bytes → Result (List Frame × Bytes) → Result (List Frame × Bytes)
resume max ys r = r >>= λ (fs, rest). prepend fs (extract_all max (rest ++ ys))

resume-prepend :
    (max : ℕ) (ys : Bytes) (f : Frame) (r : Result (List Frame × Bytes))
    → prepend (f ∷ []) (resume max ys r) ≡ resume max ys (prepend (f ∷ []) r)
resume-prepend max ys f (ok (fs, rest)) = again (extract_all max (rest ++ ys))
  where
    again : (r : Result (List Frame × Bytes)) → prepend (f ∷ []) (prepend fs r) ≡ prepend (f ∷ fs) r
    again (ok x) = refl
    again (err e) = refl
resume-prepend max ys f (err e) = refl

extract_step-append :
    (f g max : ℕ) (xs ys : Bytes) (s t : Step)
    → Decides s ys t
    → next_frame max xs ≡ s
    → next_frame max (xs ++ ys) ≡ t
    → length (xs ++ ys) ≤ suc g
    → ((rest : Bytes)
        → length rest < length xs
        → extract g max (rest ++ ys) ≡ resume max ys (extract f max rest))
    → extract_step g max (xs ++ ys) t ≡ resume max ys (extract_step f max xs s)
unfolding extract_step Decides
extract_step-append f g max xs ys wait t d e e' len ih =
    sym (ap (extract_step g max (xs ++ ys)) e')
    ∙ sym (extract-suc g max (xs ++ ys))
    ∙ extract-fuel (suc g) (length (xs ++ ys)) max (xs ++ ys) len (omega arith)
    ∙ sym (prepend-nil (extract_all max (xs ++ ys)))
extract_step-append f g max xs ys (bad x) t d e e' len ih = rw d refl
extract_step-append f g max xs ys (got fr rest) t d e e' len ih = rw d (
    ap (prepend (fr ∷ [])) (ih rest (next_frame-shorter max xs rest fr e))
    ∙ resume-prepend max ys fr (extract f max rest))

-- The loop on a buffer with more bytes behind it: first the frames of the buffer alone, then
-- those of what it leaves and the new bytes; an error of the buffer alone stays.
pub extract-append :
    (f g max : ℕ) (xs ys : Bytes)
    → length xs ≤ f
    → length (xs ++ ys) ≤ g
    → extract g max (xs ++ ys) ≡ resume max ys (extract f max xs)
unfolding extract
extract-append zero g max [] ys hf hg =
    extract-fuel g (length ys) max ys hg (omega arith) ∙ sym (prepend-nil (extract_all max ys))
extract-append zero g max (x ∷ xs) ys hf hg = elim hf [ ]
extract-append (suc f) zero max [] [] hf hg = sym (ap (resume max []) (extract-idle f max))
extract-append (suc f) zero max [] (y ∷ ys) hf hg = elim hg [ ]
extract-append (suc f) zero max (x ∷ xs) ys hf hg = elim hg [ ]
extract-append (suc f) (suc g) max xs ys hf hg =
    extract-suc g max (xs ++ ys)
    ∙ extract_step-append f g max xs ys (next_frame max xs) (next_frame max (xs ++ ys))
        (next_frame-append max xs ys) refl refl hg
        (λ rest less.
          extract-append f g max rest ys (omega arith)
            (omega (arith, length-append rest ys, length-append xs ys)))
    ∙ ap (resume max ys) (sym (extract-suc f max xs))
