-- ===== src/Examples/Gem.antt =====
-- The theorems about src/secsgem/gem at concrete inputs, and tests of the definitions.
use semiconductor_metrology.Base.{
  ◌≡◌, refl, true, List, [], ◌∷◌, ◌%◌, ◌^◌, text_eq, none, ok, arith, codes,
}
use semiconductor_metrology.Secs2.MessageFactory.{check, valid}
use semiconductor_metrology.Hsms.Session.{Delivery}
use semiconductor_metrology.Core.Controller.{Controller, online_remote}
use semiconductor_metrology.Core.Controller
use semiconductor_metrology.Core.Controller.Invariant.{Inv, observed}
use semiconductor_metrology.Core.MachineApi.{Machine}
use semiconductor_metrology.Core.MachineApi
use semiconductor_metrology.Core.Process.{scanning}
use semiconductor_metrology.Gem.Messages.{
  RemoteCommand, EventReport, AlarmReport, ascii_item, u4_item, as_ascii,
}
use semiconductor_metrology.Gem.Messages.Builders.{
  make_s2f41, make_s2f42, parse_s2f41, parse_s2f42, make_s1f3, parse_s1f3, make_s6f11, parse_s6f11,
  make_s5f1, parse_s5f1,
}
use semiconductor_metrology.Gem.Messages.RoundTrip.{command_comes_back, reports_come_back}
use semiconductor_metrology.Gem.Messages.Catalogues.{
  register_equipment_catalogue, register_host_catalogue,
}
use semiconductor_metrology.Gem.Messages.Catalogues.Accepted.{
  host_message, equipment_message, remote_command, event_report, HostFits, EquipmentFits,
  catalogues_accept,
}
use semiconductor_metrology.Gem.Service.{GemConfig, GemService, Surroundings}
use semiconductor_metrology.Gem.Service
use semiconductor_metrology.Gem.Service.Commands.{
  valid_wafer_id, all_id_chars, is_id_char, done_hcack, command_name, execute_command,
}
use semiconductor_metrology.Gem.Service.Commands.Hcack.{
  wafer_of, valid_wafer, can_do, Answered, answer_of, execute_command-hcack,
}
use semiconductor_metrology.Gem.Service.Requests.{on_data}
use semiconductor_metrology.Gem.Service.Requests.Answered.{Returns, Due, on_data-Answers}
use semiconductor_metrology.Gem.Service.Events.Numbered.{
  Call, data_call, process_state_call, alarm_call, Counts, run, run-Counts,
}

abbrev start_w001 : RemoteCommand
start_w001 = record {
  rcmd = codes "START";
  params = record { name = codes "WAFER_ID"; value = ascii_item (codes "W001") } ∷ [];
}

command_comes_back_example :
    (parse_s2f41 (make_s2f41 start_w001) ≡ ok start_w001)
    × (parse_s2f42 (make_s2f42 4 []) ≡ ok (record { hcack = 4; params = [] }))
command_comes_back_example = command_comes_back start_w001 4 []

abbrev states : EventReport
states = record {
  dataid = 7;
  ceid = 2002;
  reports = record { rptid = 3002; values = u4_item 1 ∷ [] } ∷ [];
}

abbrev stall : AlarmReport
stall = record { alcd = 133; alid = 1001; altx = codes "stall" }

reports_come_back_example :
    (parse_s1f3 (make_s1f3 (4001 ∷ 4002 ∷ [])) ≡ ok (4001 ∷ 4002 ∷ []))
    × (parse_s6f11 (make_s6f11 states) ≡ ok states)
    × (parse_s5f1 (make_s5f1 stall) ≡ ok stall)
reports_come_back_example =
    reports_come_back (4001 ∷ 4002 ∷ []) states stall (omega arith, (omega arith, tt)) (omega arith)
      (omega arith) (omega arith, tt) (omega arith)

start_fits : HostFits (remote_command start_w001)
unfolding HostFits
start_fits = tt

states_fit : EquipmentFits (event_report states)
unfolding EquipmentFits
states_fit = (omega arith, omega arith, (omega arith, tt))

catalogues_accept_example :
    (check (host_message (remote_command start_w001)) register_equipment_catalogue ≡ valid)
    × (check (equipment_message (event_report states)) register_host_catalogue ≡ valid)
catalogues_accept_example =
    catalogues_accept (remote_command start_w001) (event_report states) start_fits states_fit

abbrev remote_machine : Machine
remote_machine = MachineApi.new (record Controller.new { control_mode = online_remote })

remote_machine-Inv : Inv remote_machine.controller
unfolding observed
remote_machine-Inv = record { mirrored = refl; flagged = refl; heard = refl }

execute_command-hcack_example :
    Answered
      (answer_of (command_name start_w001.rcmd) start_w001.params remote_machine.controller)
      remote_machine
      (execute_command start_w001 remote_machine)
execute_command-hcack_example = execute_command-hcack start_w001 remote_machine remote_machine-Inv

answer_to_start :
    answer_of (command_name start_w001.rcmd) start_w001.params remote_machine.controller ≡ 4
unfolding answer_of command_name text_eq wafer_of valid_wafer as_ascii valid_wafer_id all_id_chars
    is_id_char can_do done_hcack
answer_to_start = refl

abbrev gem_config : GemConfig
gem_config = record {
  identity = record { model = codes "SSIM-128"; softrev = codes "0.1.0" };
  device_id = 0;
  allow_host_online = true;
  max_body_bytes = 65536;
  num_lines = 6;
}

abbrev surroundings : Surroundings
surroundings = record { uptime_seconds = 60; to_float = λ bits. bits % 2 ^ 32 }

-- S1F13 with an empty body.
abbrev establish_delivery : Delivery
establish_delivery = record {
  frame = record {
    header = record {
      session_id = 0;
      byte2 = 129;
      byte3 = 13;
      ptype = 0;
      stype = 0;
      system_bytes = 5;
    };
    body = [];
  };
  reply_to = none;
}

abbrev service : GemService
service = Service.new gem_config remote_machine

on_data-Answers_example :
    Returns (Due establish_delivery) service (on_data surroundings establish_delivery service)
on_data-Answers_example = on_data-Answers surroundings establish_delivery service

abbrev some_calls : List Call
some_calls =
    data_call establish_delivery
    ∷ process_state_call scanning
    ∷ alarm_call true 1001 (codes "stall")
    ∷ process_state_call scanning
    ∷ []

run-Counts_example : Counts service (run surroundings some_calls service)
run-Counts_example = run-Counts surroundings some_calls service
