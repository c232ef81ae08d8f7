-- ===== src/Gem/Messages/Catalogues/Accepted.antt =====
-- The messages that each side builds against the catalogue of the other (src/secsgem/gem/messages.cpp).
use semiconductor_metrology.Base.{ℕ, ◌<◌, ◌^◌, ◌≡◌, refl, ◌∙◌, List, [], arith, All, length, ◌⊎◌}
use semiconductor_metrology.Secs2.BigEndian.{Bytes}
use semiconductor_metrology.Secs2.Item.{Item, count, format, is_list_format}
use semiconductor_metrology.Secs2.Message.{Message}
use semiconductor_metrology.Secs2.MessageFactory.{valid, check, find, passes, has_key}
use semiconductor_metrology.Secs2.MessageFactory.Judged.{verdict, check-registered}
use semiconductor_metrology.Gem.Messages.{
  Identity, RemoteCommand, ParamAck, Report, EventReport, AlarmReport, from_list, as_byte,
  parse_ack_body,
}
use semiconductor_metrology.Gem.Messages.Builders.{
  make_s1f1, make_s1f2, make_s1f13, make_s1f14, make_s1f3, make_s1f4, make_s1f15, make_s1f16,
  make_s1f17, make_s1f18, make_s2f41, make_s2f42, make_s5f1, make_s5f2, make_s6f11, make_s6f12,
  make_s9,
}
use semiconductor_metrology.Gem.Messages.RoundTrip.{
  command_comes_back, parse_s1f3-make_s1f3, parse_s6f11-make_s6f11, parse_s5f1-make_s5f1,
}
use semiconductor_metrology.Gem.Messages.Catalogues.{
  no_body, is_empty_list, identity_ok, comm_request_ok, s1f14_item_ok, has, s9_item_ok, is_list,
  equipment_registrations, host_registrations, register_equipment_catalogue,
  register_host_catalogue,
}

-- What a host builds, and what the machine builds.
pub data HostMessage : Type 0 where
  are_you_there establish go_offline go_online : HostMessage
  status_request : List ℕ → HostMessage
  remote_command : RemoteCommand → HostMessage
  alarm_ack event_ack : ℕ → HostMessage

pub data EquipmentMessage : Type 0 where
  on_line_data : Identity → EquipmentMessage
  status_data : List Item → EquipmentMessage
  establish_ack : ℕ → Identity → EquipmentMessage
  offline_ack online_ack : ℕ → EquipmentMessage
  command_ack : ℕ → List ParamAck → EquipmentMessage
  alarm_report : AlarmReport → EquipmentMessage
  event_report : EventReport → EquipmentMessage
  error_report : ℕ → Bytes → EquipmentMessage

unfoldable pub host_message : HostMessage → Message
host_message are_you_there = make_s1f1
host_message establish = make_s1f13
host_message go_offline = make_s1f15
host_message go_online = make_s1f17
host_message (status_request svids) = make_s1f3 svids
host_message (remote_command c) = make_s2f41 c
host_message (alarm_ack b) = make_s5f2 b
host_message (event_ack b) = make_s6f12 b

unfoldable pub equipment_message : EquipmentMessage → Message
equipment_message (on_line_data id) = make_s1f2 id
equipment_message (status_data values) = make_s1f4 values
equipment_message (establish_ack b id) = make_s1f14 b id
equipment_message (offline_ack b) = make_s1f16 b
equipment_message (online_ack b) = make_s1f18 b
equipment_message (command_ack b acks) = make_s2f42 b acks
equipment_message (alarm_report a) = make_s5f1 a
equipment_message (event_report e) = make_s6f11 e
equipment_message (error_report f bytes) = make_s9 f bytes

-- Numbers have 32 bits, and an S9 message has one of its functions and ten bytes.
unfoldable pub HostFits : HostMessage → Type 0
HostFits (status_request svids) = All (λ v. v < 2 ^ 32) svids
HostFits _ = Unit

unfoldable pub EquipmentFits : EquipmentMessage → Type 0
EquipmentFits (alarm_report a) = a.alid < 2 ^ 32
EquipmentFits (event_report e) =
    (e.dataid < 2 ^ 32) × (e.ceid < 2 ^ 32) × All (λ (r : Report). r.rptid < 2 ^ 32) e.reports
EquipmentFits (error_report f bytes) =
    ((f ≡ 1) ⊎ ((f ≡ 3) ⊎ ((f ≡ 5) ⊎ ((f ≡ 7) ⊎ ((f ≡ 9) ⊎ (f ≡ 11)))))) × (length bytes ≡ 10)
EquipmentFits _ = Unit

accepts_host :
    (m : HostMessage) → HostFits m → verdict (host_message m) equipment_registrations ≡ valid
unfolding host_message HostFits verdict find passes has_key equipment_registrations no_body
    comm_request_ok is_empty_list parse_ack_body as_byte from_list
accepts_host are_you_there h = refl
accepts_host establish h = refl
accepts_host go_offline h = refl
accepts_host go_online h = refl
accepts_host (status_request svids) h = rw (parse_s1f3-make_s1f3 svids h) refl
accepts_host (remote_command c) h = rw ((command_comes_back c 0 []).0) refl
accepts_host (alarm_ack b) h = refl
accepts_host (event_ack b) h = refl

-- A command to go with an acknowledge where only that is looked at.
no_command : RemoteCommand
no_command = record { rcmd = []; params = [] }

accepts_equipment :
    (m : EquipmentMessage)
    → EquipmentFits m
    → verdict (equipment_message m) host_registrations ≡ valid
unfolding equipment_message EquipmentFits verdict find passes has_key host_registrations has
    identity_ok is_empty_list s1f14_item_ok s9_item_ok is_list is_list_format format count
    parse_ack_body as_byte from_list
accepts_equipment (on_line_data id) h = refl
accepts_equipment (status_data values) h = refl
accepts_equipment (establish_ack b id) h = refl
accepts_equipment (offline_ack b) h = refl
accepts_equipment (online_ack b) h = refl
accepts_equipment (command_ack b acks) h = rw ((command_comes_back no_command b acks).1) refl
accepts_equipment (alarm_report a) h = rw (parse_s5f1-make_s5f1 a h) refl
accepts_equipment (event_report e) h = rw (parse_s6f11-make_s6f11 e h.0 h.1 h.2) refl
accepts_equipment (error_report f bytes) h = ground arith

-- Every message that a host builds passes the machine's catalogue, and every message that the
-- machine builds passes the host's, where numbers have 32 bits and an S9 message has one of its
-- functions and ten bytes.
pub catalogues_accept :
    (h : HostMessage) (e : EquipmentMessage)
    → HostFits h
    → EquipmentFits e
    → (check (host_message h) register_equipment_catalogue ≡ valid)
      × (check (equipment_message e) register_host_catalogue ≡ valid)
unfolding register_equipment_catalogue register_host_catalogue
catalogues_accept h e fits_h fits_e = (
  check-registered equipment_registrations (host_message h) ∙ accepts_host h fits_h,
  check-registered host_registrations (equipment_message e) ∙ accepts_equipment e fits_e,
)
