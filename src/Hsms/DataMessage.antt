-- ===== src/Hsms/DataMessage.antt =====
-- From a data frame to a SECS-II message (src/secsgem/hsms/data_message.cpp).
pub mod RoundTrip
use semiconductor_metrology.Base.{
  not, Option, none, some, Result, ok, ◌>>=◌, ◌>>◌, fail_if, if◌then◌else◌, ◌==◌, is_empty,
}
use semiconductor_metrology.Secs2.Item.{Item}
use semiconductor_metrology.Secs2.Codec.{decode_body}
use semiconductor_metrology.Secs2.Message.{Message}
use semiconductor_metrology.Hsms.Frame.{Frame, stype_code, data_message, err_not_a_data_frame}

-- The message of a frame, with this body.
abbrev message_with : Frame → Option Item → Message
message_with frame item = record {
  stream = semiconductor_metrology.Hsms.Frame.stream frame.header;
  function = semiconductor_metrology.Hsms.Frame.function frame.header;
  w_bit = semiconductor_metrology.Hsms.Frame.w_bit frame.header;
  body = item;
}

unfoldable pub to_message : Frame → Result Message
to_message frame =
    fail_if (not (frame.header.stype == stype_code data_message)) err_not_a_data_frame
      "frame is not a data message"
    >> (if is_empty frame.body
        then ok (message_with frame none)
        else decode_body frame.body >>= λ item. ok (message_with frame (some item)))
