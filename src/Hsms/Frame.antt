-- ===== src/Hsms/Frame.antt =====
-- HSMS frames (include/ssim/secsgem/hsms/frame.hpp, src/secsgem/hsms/frame.cpp). Bytes are numbers
-- below 256; the mask and shift operations on them are written as `%` and `/`, and `|` of parts
-- that share no bit as `+`.
use semiconductor_metrology.Base.{
  ℕ, String, ◌+◌, ◌/◌, ◌%◌, ◌^◌, Bool, not, [], ◌∷◌, ◌++◌, Option, none, some, Result, ok, fail,
  if◌then◌else◌, ltb, ◌==◌, length,
}
use semiconductor_metrology.Secs2.BigEndian.{Bytes}

abbrev pub length_field_size : ℕ
length_field_size = 4

abbrev pub header_size : ℕ
header_size = 10

abbrev pub control_session_id : ℕ
control_session_id = 0xffff

pub data SType : Type 0 where
  data_message select_req select_rsp deselect_req deselect_rsp linktest_req linktest_rsp reject_req
        separate_req :
      SType

-- static_cast<std::uint8_t>(stype)
unfoldable pub stype_code : SType → ℕ
stype_code data_message = 0
stype_code select_req = 1
stype_code select_rsp = 2
stype_code deselect_req = 3
stype_code deselect_rsp = 4
stype_code linktest_req = 5
stype_code linktest_rsp = 6
stype_code reject_req = 7
stype_code separate_req = 9

unfoldable pub to_string : SType → String
to_string data_message = "Data"
to_string select_req = "Select.req"
to_string select_rsp = "Select.rsp"
to_string deselect_req = "Deselect.req"
to_string deselect_rsp = "Deselect.rsp"
to_string linktest_req = "Linktest.req"
to_string linktest_rsp = "Linktest.rsp"
to_string reject_req = "Reject.req"
to_string separate_req = "Separate.req"

unfoldable pub stype_from_byte : ℕ → Option SType
stype_from_byte byte =
    if byte == 0
    then some data_message
    else if byte == 1
    then some select_req
    else if byte == 2
    then some select_rsp
    else if byte == 3
    then some deselect_req
    else if byte == 4
    then some deselect_rsp
    else if byte == 5
    then some linktest_req
    else if byte == 6
    then some linktest_rsp
    else if byte == 7
    then some reject_req
    else if byte == 9
    then some separate_req
    else none

pub record Header : Type 0 where
  pub session_id : ℕ
  pub byte2 : ℕ
  pub byte3 : ℕ
  pub ptype : ℕ
  pub stype : ℕ
  pub system_bytes : ℕ

-- The views of byte 2 and byte 3 of a data message.
unfoldable pub w_bit : Header → Bool
w_bit h = not (h.byte2 / 128 % 2 == 0)

unfoldable pub stream : Header → ℕ
stream h = h.byte2 % 128

unfoldable pub function : Header → ℕ
function h = h.byte3

pub record Frame : Type 0 where
  pub header : Header
  pub body : Bytes

-- The arguments are stype, system_bytes, byte2, byte3.
unfoldable pub make_control_frame : SType → ℕ → ℕ → ℕ → Frame
unfolding stype_code
make_control_frame s system b2 b3 = record {
  header = record {
    session_id = control_session_id;
    byte2 = b2;
    byte3 = b3;
    ptype = 0;
    stype = stype_code s;
    system_bytes = system;
  };
  body = [];
}

-- The arguments are session_id, stream, function, w_bit, system_bytes, body.
unfoldable pub make_data_frame : ℕ → ℕ → ℕ → Bool → ℕ → Bytes → Frame
unfolding stype_code
make_data_frame session stream' function' w system body' = record {
  header = record {
    session_id = session;
    byte2 = stream' % 128 + (if w then 128 else 0);
    byte3 = function';
    ptype = 0;
    stype = stype_code data_message;
    system_bytes = system;
  };
  body = body';
}

abbrev pub err_frame_too_short : ℕ
err_frame_too_short = 400

abbrev pub err_frame_too_long : ℕ
err_frame_too_long = 401

abbrev pub err_frame_too_big : ℕ
err_frame_too_big = 402

abbrev pub err_not_a_data_frame : ℕ
err_not_a_data_frame = 403

unfoldable pub put_be16 : ℕ → Bytes
put_be16 v = v / 2 ^ 8 % 256 ∷ v % 256 ∷ []

unfoldable pub put_be32 : ℕ → Bytes
put_be32 v = v / 2 ^ 24 % 256 ∷ v / 2 ^ 16 % 256 ∷ v / 2 ^ 8 % 256 ∷ v % 256 ∷ []

unfoldable pub header_bytes : Header → Bytes
unfolding put_be16 put_be32
header_bytes h =
    put_be16 h.session_id ++ (h.byte2 ∷ h.byte3 ∷ h.ptype ∷ h.stype ∷ put_be32 h.system_bytes)

-- std::numeric_limits<std::uint32_t>::max() is 2 ^ 32 - 1.
unfoldable pub encode_frame : Frame → Result Bytes
encode_frame frame =
    let len = header_size + length frame.body in
    if ltb 0xffff_ffff len
    then fail err_frame_too_big "frame does not fit a 32-bit length"
    else ok (put_be32 len ++ (header_bytes frame.header ++ frame.body))
