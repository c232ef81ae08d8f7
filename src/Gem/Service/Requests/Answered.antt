-- ===== src/Gem/Service/Requests/Answered.antt =====
-- How on_data of src/secsgem/gem/gem_service.cpp answers a data frame.
use semiconductor_metrology.Base.{
  ℕ, ◌+◌, ◌%◌, Bool-cases, Bool, true, false, not, ◌==◌, List, [], ◌∷◌, ◌++◌, Option, none, some,
  ◌≡◌, ◌⊎◌, inl, inr, refl, sym, ap, ◌∙◌, arith, Result, ok, err, has_value, if◌then◌else◌,
  append-nil, ◌>>=◌, ltb, length,
}
use semiconductor_metrology.Secs2.Message.{Message}
use semiconductor_metrology.Secs2.MessageFactory.{
  Validation, valid, unknown_stream, unknown_function, illegal_data, find, passes, has_key,
}
use semiconductor_metrology.Secs2.MessageFactory.Judged.{check-registered, verdict}
use semiconductor_metrology.Hsms.Frame.{Frame, stream, function, w_bit, header_bytes}
use semiconductor_metrology.Hsms.DataMessage.{to_message}
use semiconductor_metrology.Hsms.Session.{Delivery}
use semiconductor_metrology.Core.Controller.{is_offline}
use semiconductor_metrology.Core.MachineApi.{snapshot}
use semiconductor_metrology.Gem.Messages.{parse_svid_body, parse_command_body}
use semiconductor_metrology.Gem.Messages.Builders.{make_s9}
use semiconductor_metrology.Gem.Messages.Catalogues.{
  register_equipment_catalogue, equipment_registrations,
}
use semiconductor_metrology.Gem.Service.{
  GemService, Surroundings, Post, post_request, post_reply, reply, send_request, send_s9,
}
use semiconductor_metrology.Gem.Service.Commands.{handle_remote_command}
use semiconductor_metrology.Gem.Service.Requests.{
  is_key, handle_status_request, handle_offline_request, handle_online_request, handle_message,
  validated, decoded, on_primary, on_data,
}

-- A fitting answer to a data frame: a reply of the next function with the same system bytes, where
-- one was asked for; or an S9 message about the header; or nothing, where no reply was asked for or
-- the frame is itself a secondary message.
unfoldable pub Answers : Frame → List Post → Type 0
Answers frame [] = (w_bit frame.header ≡ false) ⊎ (function frame.header % 2 ≡ 0)
Answers frame (post_reply system m ∷ []) =
    (w_bit frame.header ≡ true)
    × (system ≡ frame.header.system_bytes)
    × (m.stream ≡ stream frame.header)
    × (m.function ≡ function frame.header + 1)
    × (m.w_bit ≡ false)
Answers frame (post_request m ∷ []) = (f : ℕ) × (m ≡ make_s9 f (header_bytes frame.header))
Answers frame (p ∷ q ∷ ps) = ⊥

-- The handler returns, posts what `Ps` describes, and leaves the DATAID alone.
unfoldable pub Returns : (List Post → Type 0) → GemService → Result GemService → Type 0
Returns Ps g r =
    (g' : GemService) × (news : List Post) × (r ≡ ok g')
    × (g'.posts ≡ g.posts ++ news)
    × (g'.next_dataid ≡ g.next_dataid)
    × Ps news

s9-Answers :
    (frame : Frame) (f : ℕ) (g : GemService)
    → Returns (Answers frame) g (ok (send_s9 f frame.header g))
unfolding Returns Answers send_s9 send_request
s9-Answers frame f g = (send_s9 f frame.header g, _, refl, refl, refl, (f, refl))

reply-Answers :
    (frame : Frame) (m : Message) (g g' : GemService)
    → g'.posts ≡ g.posts
    → g'.next_dataid ≡ g.next_dataid
    → m.stream ≡ stream frame.header
    → m.function ≡ function frame.header + 1
    → m.w_bit ≡ false
    → Returns (Answers frame) g (ok (reply frame m g'))
unfolding Returns Answers reply
reply-Answers frame m g g' same id s f w = elim (Bool-cases (w_bit frame.header)) [
  | inr h ↦ rw (h) (g', [], refl, same ∙ sym (append-nil g.posts), id, inl h)
  | inl h ↦ rw (h) (
    reply_of,
    _,
    refl,
    ap (λ ps. ps ++ (post_reply frame.header.system_bytes m ∷ [])) same,
    id,
    (h, refl, s, f, w),
  )
]
  where
    reply_of : GemService
    reply_of = record g' { posts = g'.posts ++ (post_reply frame.header.system_bytes m ∷ []) }

key_parts : (s f : ℕ) (m : Message) → is_key s f m ≡ true → (m.stream ≡ s) × (m.function ≡ f)
unfolding is_key
key_parts s f m h = ground arith

svids_parsed :
    (m : Message)
    → verdict m equipment_registrations ≡ valid
    → is_key 1 3 m ≡ true
    → has_value (parse_svid_body m.body) ≡ true
unfolding is_key verdict find passes has_key equipment_registrations
svids_parsed m v k = ground arith

command_parsed :
    (m : Message)
    → verdict m equipment_registrations ≡ valid
    → is_key 2 41 m ≡ true
    → has_value (parse_command_body m.body) ≡ true
unfolding is_key verdict find passes has_key equipment_registrations
command_parsed m v k = ground arith

stray_is_secondary :
    (m : Message)
    → verdict m equipment_registrations ≡ valid
    → is_key 1 1 m ≡ false
    → is_key 1 13 m ≡ false
    → is_key 1 3 m ≡ false
    → is_key 1 15 m ≡ false
    → is_key 1 17 m ≡ false
    → is_key 2 41 m ≡ false
    → m.function % 2 ≡ 0
unfolding is_key verdict find passes has_key equipment_registrations
stray_is_secondary m v h1 h2 h3 h4 h5 h6 = ground arith

either :
    (frame : Frame) (g x y : GemService) (b : Bool)
    → Returns (Answers frame) g (ok x)
    → Returns (Answers frame) g (ok y)
    → Returns (Answers frame) g (ok (if b then x else y))
either frame g x y true h k = h
either frame g x y false h k = k

with_value :
    {A : Type 0} (frame : Frame) (g : GemService) (r : Result A) (next : A → GemService)
    → has_value r ≡ true
    → ((a : A) → Returns (Answers frame) g (ok (next a)))
    → Returns (Answers frame) g (r >>= λ a. ok (next a))
with_value frame g (ok a) next h k = k a
with_value frame g (err e) next h k = ground arith

-- The frame's message is one that the catalogue lets through.
module _ (w : Surroundings) (frame : Frame) (m : Message) (g : GemService)
    (s : m.stream ≡ stream frame.header) (f : m.function ≡ function frame.header)
    (v : verdict m equipment_registrations ≡ valid) where
  key_reply :
      (i j : ℕ) (reply_message : Message) (g' : GemService)
      → is_key i j m ≡ true
      → g'.posts ≡ g.posts
      → g'.next_dataid ≡ g.next_dataid
      → reply_message.stream ≡ i
      → reply_message.function ≡ j + 1
      → reply_message.w_bit ≡ false
      → Returns (Answers frame) g (ok (reply frame reply_message g'))
  key_reply i j r g' k same id rs rf rw_bit =
      reply-Answers frame r g g' same id (rs ∙ sym (key_parts i j m k).0 ∙ s)
        (rf ∙ ap (λ n. n + 1) (sym (key_parts i j m k).1 ∙ f)) rw_bit

  online-Answers :
      is_key 1 17 m ≡ true → Returns (Answers frame) g (ok (handle_online_request frame g))
  unfolding handle_online_request
  online-Answers k =
      either frame g _ _ (not g.config.allow_host_online)
        (key_reply 1 17 _ g k refl refl refl refl refl)
        (either frame g _ _ (not (is_offline (snapshot g.api).control_mode))
          (key_reply 1 17 _ g k refl refl refl refl refl)
          (key_reply 1 17 _ _ k refl refl refl refl refl))

  nothing-Answers :
      is_key 1 1 m ≡ false
      → is_key 1 13 m ≡ false
      → is_key 1 3 m ≡ false
      → is_key 1 15 m ≡ false
      → is_key 1 17 m ≡ false
      → is_key 2 41 m ≡ false
      → Returns (Answers frame) g (ok g)
  unfolding Returns Answers
  nothing-Answers n1 n2 n3 n4 n5 n6 = (
    g,
    [],
    refl,
    sym (append-nil g.posts),
    refl,
    inr (ap (λ n. n % 2) (sym f) ∙ stray_is_secondary m v n1 n2 n3 n4 n5 n6),
  )

  handle_message-Answers : Returns (Answers frame) g (handle_message w frame m g)
  unfolding handle_message handle_offline_request handle_status_request handle_remote_command
  handle_message-Answers = elim (Bool-cases (is_key 1 1 m)) [
    | inl k ↦ rw (k) (key_reply 1 1 _ g k refl refl refl refl refl)
    | inr n1 ↦ rw (n1) (elim (Bool-cases (is_key 1 13 m)) [
      | inl k ↦ rw (k) (key_reply 1 13 _ _ k refl refl refl refl refl)
      | inr n2 ↦ rw (n2) (elim (Bool-cases (is_key 1 3 m)) [
        | inl k ↦ rw (k) (
            with_value frame g (parse_svid_body m.body) _ (svids_parsed m v k)
              (λ svids. key_reply 1 3 _ g k refl refl refl refl refl))
        | inr n3 ↦ rw (n3) (elim (Bool-cases (is_key 1 15 m)) [
          | inl k ↦ rw (k) (key_reply 1 15 _ _ k refl refl refl refl refl)
          | inr n4 ↦ rw (n4) (elim (Bool-cases (is_key 1 17 m)) [
            | inl k ↦ rw (k) (online-Answers k)
            | inr n5 ↦ rw (n5) (elim (Bool-cases (is_key 2 41 m)) [
              | inl k ↦ rw (k) (
                  with_value frame g (parse_command_body m.body) _ (command_parsed m v k)
                    (λ c. key_reply 2 41 _ _ k refl refl refl refl refl))
              | inr n6 ↦ rw (n6) (nothing-Answers n1 n2 n3 n4 n5 n6)
            ])
          ])
        ])
      ])
    ])
  ]

validated-Answers :
    (w : Surroundings) (frame : Frame) (m : Message) (g : GemService)
    → m.stream ≡ stream frame.header
    → m.function ≡ function frame.header
    → (v : Validation) → verdict m equipment_registrations ≡ v
    → Returns (Answers frame) g (validated w frame m v g)
unfolding validated
validated-Answers w frame m g s f valid v = handle_message-Answers w frame m g s f v
validated-Answers w frame m g s f unknown_stream v = s9-Answers frame 3 g
validated-Answers w frame m g s f unknown_function v = s9-Answers frame 5 g
validated-Answers w frame m g s f illegal_data v = s9-Answers frame 7 g

OfFrame : Frame → Result Message → Type 0
OfFrame frame (ok m) = (m.stream ≡ stream frame.header) × (m.function ≡ function frame.header)
OfFrame frame (err e) = Unit

OfFrame-to_message : (frame : Frame) → OfFrame frame (to_message frame)
unfolding OfFrame to_message
OfFrame-to_message frame = ground arith

decoded-Answers :
    (w : Surroundings) (frame : Frame) (g : GemService) (r : Result Message)
    → OfFrame frame r
    → Returns (Answers frame) g (decoded w frame r g)
unfolding decoded OfFrame register_equipment_catalogue
decoded-Answers w frame g (ok m) h =
    validated-Answers w frame m g h.0 h.1 _ (sym (check-registered equipment_registrations m))
decoded-Answers w frame g (err e) h = s9-Answers frame 7 g

on_primary-Answers :
    (w : Surroundings) (frame : Frame) (g : GemService)
    → Returns (Answers frame) g (on_primary w frame g)
unfolding on_primary
on_primary-Answers w frame g = elim (Bool-cases (frame.header.session_id == g.config.device_id)) [
  | inr h ↦ simp (h) (s9-Answers frame 1 g)
  | inl h ↦ elim (Bool-cases (ltb g.config.max_body_bytes (length frame.body))) [
    | inl o ↦ simp (h, o) (s9-Answers frame 11 g)
    | inr o ↦ simp (h, o) (decoded-Answers w frame g (to_message frame) (OfFrame-to_message frame))
  ]
]

-- What on_data posts: nothing for a frame that answers a request of the service, and for another
-- frame one fitting answer, or none where none is due.
unfoldable pub Due : Delivery → List Post → Type 0
unfolding Answers
Due d news = elim d.reply_to [ some system ↦ news ≡ [] | none ↦ Answers d.frame news ]

-- Whatever data frame the session delivers, on_data returns: no value() is taken of a result that
-- holds none. To the posts it adds nothing for the reply to one of the service's own requests, and for
-- another frame at most one: the reply of the next function with the same system bytes, where one was
-- asked for, or an S9 message with the frame's header. It adds none only where no reply was asked for
-- or the frame's function is even.
pub on_data-Answers :
    (w : Surroundings) (d : Delivery) (g : GemService) → Returns (Due d) g (on_data w d g)
unfolding on_data on_primary Due Returns
on_data-Answers w d g = by_reply d.reply_to
  where
    by_reply :
        (o : Option ℕ)
        → Returns (Due (record d { reply_to = o })) g (on_data w (record d { reply_to = o }) g)
    by_reply (some system) = (_, [], refl, sym (append-nil g.posts), refl, refl)
    by_reply none = on_primary-Answers w d.frame g
