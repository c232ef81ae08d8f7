-- ===== src/Gem/Messages/Builders.antt =====
-- The builders and the parsers of whole messages of src/secsgem/gem/messages.cpp.
use semiconductor_metrology.Base.{ℕ, true, false, List, [], ◌∷◌, none, some, map, Result}
use semiconductor_metrology.Secs2.BigEndian.{Bytes}
use semiconductor_metrology.Secs2.Item.{Item, array, binary}
use semiconductor_metrology.Secs2.Message.{Message}
use semiconductor_metrology.Gem.Messages.{
  Identity, CommandParam, RemoteCommand, ParamAck, CommandAck, Report, EventReport, AlarmReport,
  make, list_of, byte_item, ascii_item, u4_item, identity_item, parse_command_body,
  parse_command_ack_body, parse_svid_body, parse_event_body, parse_alarm_body, parse_ack_body,
}

abbrev pub make_s1f1 : Message
make_s1f1 = make 1 1 true none

abbrev pub make_s1f2 : Identity → Message
make_s1f2 id = make 1 2 false (some (identity_item id))

abbrev pub make_s1f13 : Message
make_s1f13 = make 1 13 true (some (list_of []))

abbrev pub make_s1f14 : ℕ → Identity → Message
make_s1f14 commack id = make 1 14 false (some (list_of (byte_item commack ∷ identity_item id ∷ [])))

abbrev pub make_s1f3 : List ℕ → Message
make_s1f3 svids = make 1 3 true (some (list_of (map u4_item svids)))

abbrev pub make_s1f4 : List Item → Message
make_s1f4 values = make 1 4 false (some (list_of values))

abbrev pub make_s1f15 : Message
make_s1f15 = make 1 15 true none

abbrev pub make_s1f16 : ℕ → Message
make_s1f16 oflack = make 1 16 false (some (byte_item oflack))

abbrev pub make_s1f17 : Message
make_s1f17 = make 1 17 true none

abbrev pub make_s1f18 : ℕ → Message
make_s1f18 onlack = make 1 18 false (some (byte_item onlack))

abbrev pub param_item : CommandParam → Item
param_item p = list_of (ascii_item p.name ∷ p.value ∷ [])

abbrev pub make_s2f41 : RemoteCommand → Message
make_s2f41 command =
    make 2 41 true
      (some (list_of (ascii_item command.rcmd ∷ list_of (map param_item command.params) ∷ [])))

abbrev pub ack_item : ParamAck → Item
ack_item p = list_of (ascii_item p.name ∷ byte_item p.cpack ∷ [])

abbrev pub make_s2f42 : ℕ → List ParamAck → Message
make_s2f42 hcack params =
    make 2 42 false (some (list_of (byte_item hcack ∷ list_of (map ack_item params) ∷ [])))

abbrev pub make_s5f1 : AlarmReport → Message
make_s5f1 alarm =
    make 5 1 true
      (some (list_of (byte_item alarm.alcd ∷ u4_item alarm.alid ∷ ascii_item alarm.altx ∷ [])))

abbrev pub make_s5f2 : ℕ → Message
make_s5f2 ackc5 = make 5 2 false (some (byte_item ackc5))

abbrev pub report_item : Report → Item
report_item r = list_of (u4_item r.rptid ∷ list_of r.values ∷ [])

abbrev pub make_s6f11 : EventReport → Message
make_s6f11 event = make 6 11 true (
    some (
      list_of
        (u4_item event.dataid ∷ u4_item event.ceid ∷ list_of (map report_item event.reports) ∷ [])))

abbrev pub make_s6f12 : ℕ → Message
make_s6f12 ackc6 = make 6 12 false (some (byte_item ackc6))

abbrev pub make_s9 : ℕ → Bytes → Message
make_s9 function header_bytes = make 9 function false (some (array binary header_bytes))

abbrev pub parse_s2f41 : Message → Result RemoteCommand
parse_s2f41 m = parse_command_body m.body

abbrev pub parse_s2f42 : Message → Result CommandAck
parse_s2f42 m = parse_command_ack_body m.body

abbrev pub parse_s1f3 : Message → Result (List ℕ)
parse_s1f3 m = parse_svid_body m.body

abbrev pub parse_s6f11 : Message → Result EventReport
parse_s6f11 m = parse_event_body m.body

abbrev pub parse_s5f1 : Message → Result AlarmReport
parse_s5f1 m = parse_alarm_body m.body

abbrev pub parse_ack : Message → Result ℕ
parse_ack m = parse_ack_body m.body
