-- ===== src/Gem/Messages/Catalogues.antt =====
-- The catalogues of src/secsgem/gem/messages.cpp: which messages each side understands.
pub mod Accepted
use semiconductor_metrology.Base.{
  ℕ, String, Bool, true, false, List, [], ◌∷◌, Option, none, some, has_value, ◌==◌, ◌&&◌, ◌||◌,
}
use semiconductor_metrology.Secs2.Item.{
  Item, Items, array, nil, cons, binary, ascii, count, is_list_format, format,
}
use semiconductor_metrology.Secs2.MessageFactory.{Entry, BodyCheck, register_message}
use semiconductor_metrology.Secs2.MessageFactory.Judged.{registered}
use semiconductor_metrology.Gem.Messages.{
  Body, parse_command_body, parse_svid_body, parse_ack_body, parse_command_ack_body,
  parse_alarm_body, parse_event_body,
}

unfoldable pub no_body : Body → Bool
no_body none = true
no_body (some item) = false

-- is_list(i, 0), and is_list(i, 2) of two strings.
unfoldable pub is_empty_list : Item → Bool
is_empty_list (Item.list nil) = true
is_empty_list _ = false

unfoldable pub identity_ok : Item → Bool
identity_ok (Item.list (cons (array ascii s) (cons (array ascii t) nil))) = true
identity_ok _ = false

-- S1F13 from a host: nothing, an empty list, or the equipment's own list of two strings.
unfoldable pub comm_request_ok : Body → Bool
comm_request_ok none = true
comm_request_ok (some i) = is_empty_list i || identity_ok i

unfoldable pub s1f14_item_ok : Item → Bool
s1f14_item_ok (Item.list (cons (array binary (b ∷ [])) (cons i nil))) =
    is_empty_list i || identity_ok i
s1f14_item_ok _ = false

-- A check of a body that has to be there.
unfoldable pub has : (Item → Bool) → Body → Bool
has test none = false
has test (some i) = test i

unfoldable pub s9_item_ok : Item → Bool
s9_item_ok (Item.list items) = false
s9_item_ok (array binary vs) = count (array binary vs) == 10
s9_item_ok (array _ vs) = false

unfoldable pub is_list : Item → Bool
is_list i = is_list_format (format i)

abbrev pub entry : ℕ → ℕ → String → (Body → Bool) → Entry
entry s f n c = record { stream = s; function = f; name = n; check = some c }

-- Each list of registrations has the last one first.
unfoldable pub equipment_registrations : List Entry
equipment_registrations =
    entry 6 12 "S6F12" (λ b. has_value (parse_ack_body b))
    ∷ entry 5 2 "S5F2" (λ b. has_value (parse_ack_body b))
    ∷ entry 2 41 "S2F41" (λ b. has_value (parse_command_body b))
    ∷ entry 1 17 "S1F17" no_body
    ∷ entry 1 15 "S1F15" no_body
    ∷ entry 1 13 "S1F13" comm_request_ok
    ∷ entry 1 3 "S1F3" (λ b. has_value (parse_svid_body b))
    ∷ entry 1 1 "S1F1" no_body
    ∷ []

unfoldable pub host_registrations : List Entry
host_registrations =
    entry 9 11 "S9F11" (has s9_item_ok)
    ∷ entry 9 9 "S9F9" (has s9_item_ok)
    ∷ entry 9 7 "S9F7" (has s9_item_ok)
    ∷ entry 9 5 "S9F5" (has s9_item_ok)
    ∷ entry 9 3 "S9F3" (has s9_item_ok)
    ∷ entry 9 1 "S9F1" (has s9_item_ok)
    ∷ entry 6 11 "S6F11" (λ b. has_value (parse_event_body b))
    ∷ entry 5 1 "S5F1" (λ b. has_value (parse_alarm_body b))
    ∷ entry 2 42 "S2F42" (λ b. has_value (parse_command_ack_body b))
    ∷ entry 1 18 "S1F18" (λ b. has_value (parse_ack_body b))
    ∷ entry 1 16 "S1F16" (λ b. has_value (parse_ack_body b))
    ∷ entry 1 14 "S1F14" (has s1f14_item_ok)
    ∷ entry 1 4 "S1F4" (has is_list)
    ∷ entry 1 2 "S1F2" (has identity_ok)
    ∷ []

unfoldable pub register_equipment_catalogue : List Entry
unfolding equipment_registrations registered
register_equipment_catalogue = registered equipment_registrations

unfoldable pub register_host_catalogue : List Entry
unfolding host_registrations registered
register_host_catalogue = registered host_registrations
