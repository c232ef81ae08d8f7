-- ===== src/Examples/Registry.antt =====
-- The theorem about src/secsgem/secs2/message_factory.cpp at a concrete input.
use semiconductor_metrology.Base.{◌≡◌, Bool, true, false, List, [], ◌∷◌, Option, none, some}
use semiconductor_metrology.Secs2.Item.{Item}
use semiconductor_metrology.Secs2.Message.{Message}
use semiconductor_metrology.Secs2.MessageFactory.{Entry, check}
use semiconductor_metrology.Secs2.MessageFactory.Judged.{registered, verdict, check-registered}

abbrev has_no_body : Option Item → Bool
has_no_body none = true
has_no_body (some item) = false

abbrev registrations : List Entry
registrations =
    record { stream = 2; function = 41; name = "S2F41"; check = none }
    ∷ record { stream = 1; function = 1; name = "S1F1"; check = some has_no_body }
    ∷ []

-- S1F99, which is not registered.
abbrev unregistered : Message
unregistered = record { stream = 1; function = 99; w_bit = true; body = none }

check-registered_example :
    check unregistered (registered registrations) ≡ verdict unregistered registrations
check-registered_example = check-registered registrations unregistered
