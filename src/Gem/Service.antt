-- ===== src/Gem/Service.antt =====
-- The GEM service (include/ssim/secsgem/gem/gem_service.hpp, src/secsgem/gem/gem_service.cpp): its
-- state, and how it sends. All of it runs on the I/O thread. What the service posts to the sender
-- stands in `posts`, oldest first; the log is left out.
pub mod Commands
pub mod Requests
pub mod Events
use semiconductor_metrology.Base.{
  ℕ, ◌+◌, ◌%◌, ◌^◌, Bool, true, false, List, [], ◌∷◌, ◌++◌, Option, none, some, ◌==◌, if◌then◌else◌,
  Text,
}
use semiconductor_metrology.Secs2.Message.{Message}
use semiconductor_metrology.Hsms.Frame.{Header, Frame, header_bytes, w_bit}
use semiconductor_metrology.Core.Controller.{ControlMode, offline, online_local, online_remote}
use semiconductor_metrology.Core.Process.{ProcessState, idle, scanning, processing, alarm, stopping}
use semiconductor_metrology.Core.MachineApi.{Machine}
use semiconductor_metrology.Gem.Messages.{Identity, Report, EventReport, AlarmReport}
use semiconductor_metrology.Gem.Messages.Builders.{make_s9, make_s6f11, make_s5f1}

pub data CommState : Type 0 where
  not_communicating communicating : CommState

pub record GemConfig : Type 0 where
  pub identity : Identity
  pub device_id : ℕ
  pub allow_host_online : Bool
  pub max_body_bytes : ℕ
  pub num_lines : ℕ

-- What the service reads of its surroundings: the seconds since it was made, and the conversion of a
-- double to a float, on bit patterns.
pub record Surroundings : Type 0 where
  pub uptime_seconds : ℕ
  pub to_float : ℕ → ℕ

pub data Post : Type 0 where
  post_request : Message → Post
  post_reply : ℕ → Message → Post

pub record GemService : Type 0 where
  pub config : GemConfig
  pub api : Machine
  pub comm : CommState
  pub next_dataid : ℕ
  pub wafers_processed : ℕ
  pub preferred_online_mode : ControlMode
  pub open_requests : List (ℕ × Header)
  pub posts : List Post

abbrev pub new : GemConfig → Machine → GemService
new c m = record {
  config = c;
  api = m;
  comm = not_communicating;
  next_dataid = 1;
  wafers_processed = 0;
  preferred_online_mode = online_local;
  open_requests = [];
  posts = [];
}

unfoldable pub control_code : ControlMode → ℕ
control_code offline = 0
control_code online_local = 1
control_code online_remote = 2

unfoldable pub process_code : ProcessState → ℕ
process_code idle = 0
process_code scanning = 1
process_code processing = 2
process_code alarm = 3
process_code stopping = 4

abbrev pub post : Post → GemService → GemService
post p g = record g { posts = g.posts ++ (p ∷ []) }

-- A message that did not ask for a reply gets none.
unfoldable pub reply : Frame → Message → GemService → GemService
reply request message g =
    if w_bit request.header then post (post_reply request.header.system_bytes message) g else g

unfoldable pub send_request : Message → GemService → GemService
send_request message g = post (post_request message) g

-- std::map's find, erase and assignment at a key.
unfoldable pub find_request : ℕ → List (ℕ × Header) → Option Header
find_request k [] = none
find_request k ((j, h) ∷ rest) = if j == k then some h else find_request k rest

unfoldable pub erase_request : ℕ → List (ℕ × Header) → List (ℕ × Header)
erase_request k [] = []
erase_request k ((j, h) ∷ rest) = if j == k then rest else (j, h) ∷ erase_request k rest

unfoldable pub set_request : ℕ → Header → List (ℕ × Header) → List (ℕ × Header)
set_request k h [] = (k, h) ∷ []
set_request k h ((j, i) ∷ rest) = if j == k then (k, h) ∷ rest else (j, i) ∷ set_request k h rest

-- The callback of send_request: the sender used these system bytes for the message.
unfoldable pub on_sent : Message → ℕ → GemService → GemService
on_sent message system g =
    if message.w_bit
    then record g {
      open_requests =
          set_request system
            (record {
              session_id = g.config.device_id;
              byte2 = message.stream % 128 + 128;
              byte3 = message.function;
              ptype = 0;
              stype = 0;
              system_bytes = system;
            })
            g.open_requests;
    }
    else g

unfoldable pub send_s9 : ℕ → Header → GemService → GemService
unfolding send_request
send_s9 function offending = send_request (make_s9 function (header_bytes offending))

abbrev pub is_communicating : CommState → Bool
is_communicating communicating = true
is_communicating not_communicating = false

-- next_dataid_ is a std::uint32_t.
unfoldable pub send_event : ℕ → List Report → GemService → GemService
unfolding send_request
send_event ceid reports g =
    if is_communicating g.comm
    then send_request
        (make_s6f11 (record { dataid = g.next_dataid; ceid = ceid; reports = reports }))
        (record g { next_dataid = (g.next_dataid + 1) % 2 ^ 32 })
    else g

unfoldable pub send_alarm : ℕ → ℕ → Text → GemService → GemService
unfolding send_request
send_alarm alcd alid text g =
    if is_communicating g.comm
    then send_request (make_s5f1 (record { alcd = alcd; alid = alid; altx = text })) g
    else g
