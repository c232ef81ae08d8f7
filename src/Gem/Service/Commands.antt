-- ===== src/Gem/Service/Commands.antt =====
-- Remote commands: GemService::execute_command and handle_remote_command of
-- src/secsgem/gem/gem_service.cpp.
pub mod Hcack
use semiconductor_metrology.Base.{
  ℕ, String, fail, ◌>>=◌, Bool, true, false, not, List, [], ◌∷◌, ◌++◌, Option, none, some, Result,
  ok, err, has_value, ltb, leb, ◌==◌, ◌&&◌, ◌||◌, if◌then◌else◌, Text, codes, text_eq, length,
}
use semiconductor_metrology.Secs2.Item.{Item, array, u1, u2, u4}
use semiconductor_metrology.Core.Process.{ProcessState}
use semiconductor_metrology.Core.Controller.{
  CommandPayload, secs_gem, is_remote, start_command, stop_command, abort_command,
  clear_alarm_command,
}
use semiconductor_metrology.Core.MachineApi.{Machine, submit}
use semiconductor_metrology.Gem.Identifiers.{
  hcack_done, hcack_unknown_command, hcack_cannot_perform_now, hcack_invalid_parameter,
  hcack_accepted_later, cpack_ok, cpack_unknown_name, cpack_illegal_value, cpack_illegal_format,
}
use semiconductor_metrology.Gem.Messages.{CommandParam, RemoteCommand, ParamAck, as_ascii}
use semiconductor_metrology.Gem.Messages.Builders.{make_s2f42, parse_s2f41}
use semiconductor_metrology.Gem.Service.{GemService, reply}
use semiconductor_metrology.Hsms.Frame.{Frame}
use semiconductor_metrology.Secs2.Message.{Message}

-- The tests of the command's name.
pub data CommandName : Type 0 where
  start stop abort clear_alarm : CommandName

unfoldable pub command_name : Text → Option CommandName
command_name t =
    if text_eq t (codes "START")
    then some start
    else if text_eq t (codes "STOP")
    then some stop
    else if text_eq t (codes "ABORT")
    then some abort
    else if text_eq t (codes "CLEAR_ALARM")
    then some clear_alarm
    else none

abbrev pub between : ℕ → ℕ → ℕ → Bool
between lo hi c = leb lo c && leb c hi

unfoldable pub is_id_char : ℕ → Bool
is_id_char c =
    between b'A' b'Z' c || between b'a' b'z' c || between b'0' b'9' c || c == b'_' || c == b'-'

unfoldable pub all_id_chars : Text → Bool
all_id_chars [] = true
all_id_chars (c ∷ cs) = is_id_char c && all_id_chars cs

-- A wafer id becomes a directory name: 1 to 32 letters, digits, '_' and '-'.
unfoldable pub valid_wafer_id : Text → Bool
valid_wafer_id [] = false
valid_wafer_id (c ∷ cs) = not (ltb 32 (length (c ∷ cs))) && all_id_chars (c ∷ cs)

unfoldable pub known_alid : ℕ → Bool
known_alid alid = leb 1001 alid && leb alid 1008

unfoldable pub as_u32 : Item → Option ℕ
as_u32 (array u1 (v ∷ [])) = some v
as_u32 (array u2 (v ∷ [])) = some v
as_u32 (array u4 (v ∷ [])) = some v
as_u32 _ = none

-- The variables of the loop over the parameters.
pub record Args : Type 0 where
  pub params_ok : Bool
  pub wafer_id : Option Text
  pub alid : Option ℕ
  pub acks : List ParamAck

abbrev pub no_args : Args
no_args = record { params_ok = true; wafer_id = none; alid = none; acks = [] }

abbrev pub acknowledge : ℕ → Text → Args → Args
acknowledge cpack name a = record a {
  acks = a.acks ++ (record { name = name; cpack = cpack } ∷ []);
}

abbrev pub refuse : ℕ → Text → Args → Args
refuse cpack name a = record (acknowledge cpack name a) { params_ok = false }

-- WAFER_ID, from the one given before, the string of the value, and the rest.
unfoldable pub judge_wafer : Option Text → Option Text → Text → Args → Args
judge_wafer (some before) value name a = refuse cpack_illegal_value name a
judge_wafer none none name a = refuse cpack_illegal_format name a
judge_wafer none (some id) name a =
    if not (valid_wafer_id id)
    then refuse cpack_illegal_value name a
    else record (acknowledge cpack_ok name a) { wafer_id = some id }

-- ALID, from the number of the value.
unfoldable pub judge_alid : Option ℕ → Text → Args → Args
judge_alid none name a = refuse cpack_illegal_format name a
judge_alid (some value) name a =
    if not (known_alid value)
    then refuse cpack_illegal_value name a
    else record (acknowledge cpack_ok name a) { alid = some value }

unfoldable pub judge_param : CommandName → CommandParam → Args → Args
judge_param start p a =
    if text_eq p.name (codes "WAFER_ID")
    then judge_wafer a.wafer_id (as_ascii p.value) p.name a
    else if text_eq p.name (codes "CASSETTE_ID")
    then refuse cpack_illegal_value p.name a
    else refuse cpack_unknown_name p.name a
judge_param clear_alarm p a =
    if text_eq p.name (codes "ALID")
    then judge_alid (as_u32 p.value) p.name a
    else refuse cpack_unknown_name p.name a
judge_param stop p a = refuse cpack_unknown_name p.name a
judge_param abort p a = refuse cpack_unknown_name p.name a

unfoldable pub judge_params : CommandName → List CommandParam → Args → Args
judge_params name [] a = a
judge_params name (p ∷ ps) a = judge_params name ps (judge_param name p a)

-- The call of the machine API that the command makes, its arguments being good; a START without a
-- wafer has nothing to scan.
unfoldable pub payload : CommandName → Option Text → Option CommandPayload
payload start none = none
payload start (some id) = some (start_command id 1)
payload stop _ = some stop_command
payload abort _ = some abort_command
payload clear_alarm _ = some clear_alarm_command

unfoldable pub request_of : CommandName → Args → Option CommandPayload
request_of name a = if a.params_ok then payload name a.wafer_id else none

-- The references that execute_command fills, and what it returns.
pub record Execution : Type 0 where
  pub hcack : ℕ
  pub acks : List ParamAck
  pub result : Result Bool

abbrev pub turned_down : ℕ → List ParamAck → ℕ → String → Execution
turned_down hcack acks code what = record { hcack = hcack; acks = acks; result = fail code what }

unfoldable pub done_hcack : CommandName → ℕ
done_hcack start = hcack_accepted_later
done_hcack stop = hcack_done
done_hcack abort = hcack_done
done_hcack clear_alarm = hcack_done

unfoldable pub outcome : CommandName → List ParamAck → Result ProcessState → Execution
outcome name acks (err e) = turned_down hcack_cannot_perform_now acks 2 e.message
outcome name acks (ok _) = record { hcack = done_hcack name; acks = acks; result = ok true }

unfoldable pub perform :
    CommandName → List ParamAck → Option CommandPayload → Machine → Machine × Execution
unfolding outcome
perform name acks none m = (m, turned_down hcack_invalid_parameter acks 3 "invalid parameter")
perform name acks (some request) m =
    let (m', result) = submit request secs_gem m in (m', outcome name acks result)

unfoldable pub execute_named :
    Option CommandName → List CommandParam → Machine → Machine × Execution
unfolding perform judge_params request_of
execute_named none params m = (m, turned_down hcack_unknown_command [] 1 "unknown remote command")
execute_named (some name) params m =
    if not (is_remote m.controller.control_mode)
    then (m, turned_down hcack_cannot_perform_now [] 2 "not in Online-Remote")
    else let a = judge_params name params no_args in perform name a.acks (request_of name a) m

unfoldable pub execute_command : RemoteCommand → Machine → Machine × Execution
unfolding execute_named command_name
execute_command command m = execute_named (command_name command.rcmd) command.params m

-- A handler parses a message that the factory's check has passed, so value() holds one; where it held
-- none, value() would throw.
unfoldable pub handle_remote_command : Frame → Message → GemService → Result GemService
unfolding execute_command reply
handle_remote_command frame message g = do
  command ← parse_s2f41 message
  let (m, e) = execute_command command g.api
  ok (reply frame (make_s2f42 e.hcack e.acks) (record g { api = m }))
