-- ===== src/Hsms/Connection.antt =====
-- The connection state machine of HSMS (include/ssim/secsgem/hsms/connection_state.hpp,
-- src/secsgem/hsms/connection_state.cpp).
use semiconductor_metrology.Base.{
  ℕ, String, Bool, true, false, not, Result, ok, fail, if◌then◌else◌, join,
}

pub data ConnectionState : Type 0 where
  not_connected not_selected selected : ConnectionState

pub data ConnectionTrigger : Type 0 where
  connect select deselect disconnect t7_timeout : ConnectionTrigger

-- to_string, of a state and of a trigger.
unfoldable pub state_text : ConnectionState → String
state_text not_connected = "NOT_CONNECTED"
state_text not_selected = "NOT_SELECTED"
state_text selected = "SELECTED"

unfoldable pub trigger_text : ConnectionTrigger → String
trigger_text connect = "Connect"
trigger_text select = "Select"
trigger_text deselect = "Deselect"
trigger_text disconnect = "Disconnect"
trigger_text t7_timeout = "T7Timeout"

unfoldable pub same_state : ConnectionState → ConnectionState → Bool
same_state not_connected not_connected = true
same_state not_selected not_selected = true
same_state selected selected = true
same_state _ _ = false

abbrev pub illegal_connection_transition : ℕ
illegal_connection_transition = 450

-- The switch of `apply`: which state a trigger is legal in, and the state that it leads to.
unfoldable pub legal : ConnectionTrigger → ConnectionState → Bool
unfolding same_state
legal connect state = same_state state not_connected
legal select state = same_state state not_selected
legal deselect state = same_state state selected
legal disconnect state = not (same_state state not_connected)
legal t7_timeout state = same_state state not_selected

unfoldable pub next : ConnectionTrigger → ConnectionState
next connect = not_selected
next select = selected
next deselect = not_selected
next disconnect = not_connected
next t7_timeout = not_connected

-- ConnectionStateMachine::apply: the state after the call, and what it returns.
unfoldable pub apply :
    ConnectionTrigger → ConnectionState → ConnectionState × Result ConnectionState
unfolding same_state legal next
apply trigger state = if legal trigger state then (next trigger, ok (next trigger)) else (
  state,
  fail illegal_connection_transition
      (join (trigger_text trigger) (join " is not allowed in " (state_text state))),
)
