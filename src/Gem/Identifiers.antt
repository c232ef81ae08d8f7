-- ===== src/Gem/Identifiers.antt =====
-- The numbers of this project's events, reports, status variables and codes
-- (include/ssim/secsgem/gem/identifiers.hpp, src/secsgem/gem/identifiers.cpp).
use semiconductor_metrology.Base.{ℕ, String, List, [], ◌∷◌, ◌==◌, ◌||◌, if◌then◌else◌}

abbrev pub ceid_control_state_changed : ℕ
ceid_control_state_changed = 2001

abbrev pub ceid_process_state_changed : ℕ
ceid_process_state_changed = 2002

abbrev pub ceid_cassette_loaded : ℕ
ceid_cassette_loaded = 2003

abbrev pub ceid_wafer_scan_started : ℕ
ceid_wafer_scan_started = 2004

abbrev pub ceid_wafer_scan_complete : ℕ
ceid_wafer_scan_complete = 2005

abbrev pub ceid_wafer_out_of_spec : ℕ
ceid_wafer_out_of_spec = 2006

abbrev pub ceid_cassette_complete : ℕ
ceid_cassette_complete = 2007

abbrev pub ceid_run_aborted : ℕ
ceid_run_aborted = 2008

abbrev pub rptid_wafer_result : ℕ
rptid_wafer_result = 3001

abbrev pub rptid_states : ℕ
rptid_states = 3002

abbrev pub rptid_scan_started : ℕ
rptid_scan_started = 3003

abbrev pub alid_internal_error : ℕ
alid_internal_error = 1008

abbrev pub svid_control_state : ℕ
svid_control_state = 4001

abbrev pub svid_process_state : ℕ
svid_process_state = 4002

abbrev pub svid_current_wafer_id : ℕ
svid_current_wafer_id = 4003

abbrev pub svid_current_slot : ℕ
svid_current_slot = 4004

abbrev pub svid_scan_progress_percent : ℕ
svid_scan_progress_percent = 4005

abbrev pub svid_last_stress_mpa : ℕ
svid_last_stress_mpa = 4006

abbrev pub svid_last_curvature : ℕ
svid_last_curvature = 4007

abbrev pub svid_last_fit_rms_um : ℕ
svid_last_fit_rms_um = 4008

abbrev pub svid_active_alarm_count : ℕ
svid_active_alarm_count = 4009

abbrev pub svid_software_revision : ℕ
svid_software_revision = 4010

abbrev pub svid_uptime_seconds : ℕ
svid_uptime_seconds = 4011

abbrev pub svid_wafers_processed : ℕ
svid_wafers_processed = 4012

abbrev pub ecid_edge_exclusion_mm : ℕ
ecid_edge_exclusion_mm = 5001

abbrev pub ecid_num_scan_lines : ℕ
ecid_num_scan_lines = 5002

abbrev pub ecid_stress_spec_low_mpa : ℕ
ecid_stress_spec_low_mpa = 5003

abbrev pub ecid_stress_spec_high_mpa : ℕ
ecid_stress_spec_high_mpa = 5004

abbrev pub ecid_fit_rms_limit_um : ℕ
ecid_fit_rms_limit_um = 5005

abbrev pub ecid_points_per_mm : ℕ
ecid_points_per_mm = 5006

abbrev pub commack_accepted : ℕ
commack_accepted = 0

abbrev pub commack_denied : ℕ
commack_denied = 1

abbrev pub oflack_ok : ℕ
oflack_ok = 0

abbrev pub onlack_accepted : ℕ
onlack_accepted = 0

abbrev pub onlack_not_allowed : ℕ
onlack_not_allowed = 1

abbrev pub onlack_already_online : ℕ
onlack_already_online = 2

abbrev pub hcack_done : ℕ
hcack_done = 0

abbrev pub hcack_unknown_command : ℕ
hcack_unknown_command = 1

abbrev pub hcack_cannot_perform_now : ℕ
hcack_cannot_perform_now = 2

abbrev pub hcack_invalid_parameter : ℕ
hcack_invalid_parameter = 3

abbrev pub hcack_accepted_later : ℕ
hcack_accepted_later = 4

abbrev pub cpack_ok : ℕ
cpack_ok = 0

abbrev pub cpack_unknown_name : ℕ
cpack_unknown_name = 1

abbrev pub cpack_illegal_value : ℕ
cpack_illegal_value = 2

abbrev pub cpack_illegal_format : ℕ
cpack_illegal_format = 3

abbrev pub ack_accepted : ℕ
ack_accepted = 0

abbrev pub alcd_set_bit : ℕ
alcd_set_bit = 0x80

abbrev pub alarm_category : ℕ
alarm_category = 0x05

-- All status variables, in the order of their numbers.
unfoldable pub status_variables : List (ℕ × String)
status_variables =
    (svid_control_state, "ControlState")
    ∷ (svid_process_state, "ProcessState")
    ∷ (svid_current_wafer_id, "CurrentWaferId")
    ∷ (svid_current_slot, "CurrentSlot")
    ∷ (svid_scan_progress_percent, "ScanProgressPercent")
    ∷ (svid_last_stress_mpa, "LastStressMPa")
    ∷ (svid_last_curvature, "LastCurvature")
    ∷ (svid_last_fit_rms_um, "LastFitRmsUm")
    ∷ (svid_active_alarm_count, "ActiveAlarmCount")
    ∷ (svid_software_revision, "SoftwareRevision")
    ∷ (svid_uptime_seconds, "UptimeSeconds")
    ∷ (svid_wafers_processed, "WafersProcessed")
    ∷ []

unfoldable pub report_fields : ℕ → List String
report_fields rptid =
    if rptid == rptid_wafer_result
    then "WAFER_ID" ∷ "SLOT" ∷ "STRESS_MPA" ∷ "STRESS_UNC_MPA" ∷ "CURVATURE" ∷ "FIT_RMS_UM"
      ∷ "OUT_OF_SPEC" ∷ []
    else if rptid == rptid_states
    then "CONTROL_STATE" ∷ "PROCESS_STATE" ∷ []
    else if rptid == rptid_scan_started
    then "WAFER_ID" ∷ "SLOT" ∷ "NUM_LINES" ∷ []
    else []

unfoldable pub ceid_name : ℕ → String
ceid_name ceid =
    if ceid == ceid_control_state_changed
    then "ControlStateChanged"
    else if ceid == ceid_process_state_changed
    then "ProcessStateChanged"
    else if ceid == ceid_cassette_loaded
    then "CassetteLoaded"
    else if ceid == ceid_wafer_scan_started
    then "WaferScanStarted"
    else if ceid == ceid_wafer_scan_complete
    then "WaferScanComplete"
    else if ceid == ceid_wafer_out_of_spec
    then "WaferOutOfSpec"
    else if ceid == ceid_cassette_complete
    then "CassetteComplete"
    else if ceid == ceid_run_aborted
    then "RunAborted"
    else ""

-- The report of an event, or 0 where the event is not defined.
unfoldable pub report_for_event : ℕ → ℕ
report_for_event ceid =
    if ceid == ceid_control_state_changed
      || ceid == ceid_process_state_changed
      || ceid == ceid_run_aborted
    then rptid_states
    else if ceid == ceid_wafer_scan_started
    then rptid_scan_started
    else if ceid == ceid_wafer_scan_complete || ceid == ceid_wafer_out_of_spec
    then rptid_wafer_result
    else 0
