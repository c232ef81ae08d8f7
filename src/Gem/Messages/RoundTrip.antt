-- ===== src/Gem/Messages/RoundTrip.antt =====
-- What src/secsgem/gem/messages.cpp builds, parsed again.
use semiconductor_metrology.Base.{
  ℕ, ◌<◌, ◌^◌, ◌≡◌, refl, ap, List, [], ◌∷◌, some, ok, Result, map, arith, All, le→not-ltb,
}
use semiconductor_metrology.Secs2.Item.{Item}
use semiconductor_metrology.Gem.Messages.{
  RemoteCommand, CommandParam, ParamAck, Report, EventReport, AlarmReport, to_list, from_list,
  list_of, u4_item, as_list, as_pair, as_triple, as_ascii, as_byte, each, collect_uints, one_u32,
  parse_param, parse_command_body, parse_svids, parse_svid_items, parse_svid_body, parse_report,
  parse_event_body, parse_alarm_body, parse_ack_entry, parse_command_ack_body,
}
use semiconductor_metrology.Gem.Messages.Builders.{
  make_s2f41, make_s2f42, make_s1f3, make_s6f11, make_s5f1, param_item, ack_item, report_item,
  parse_s2f41, parse_s2f42, parse_s1f3, parse_s6f11, parse_s5f1,
}

to_list-from_list : (is : List Item) → to_list (from_list is) ≡ is
unfolding to_list from_list
to_list-from_list [] = refl
to_list-from_list (i ∷ is) = ap (◌∷◌ i) (to_list-from_list is)

pub as_list-list_of : (is : List Item) → as_list (list_of is) ≡ some is
unfolding as_list
as_list-list_of is = ap some (to_list-from_list is)

pub one_u32-u4_item : (v : ℕ) → v < 2 ^ 32 → one_u32 (u4_item v) ≡ some v
unfolding one_u32
one_u32-u4_item v h = ground arith

-- A loop that reads back each entry reads back the list of them.
each-map {ℓ} :
    {A : Type ℓ} (f : Item → Result A) (build : A → Item) (as' : List A)
    → All (λ a. f (build a) ≡ ok a) as'
    → each f (map build as') ≡ ok as'
unfolding each
each-map f build [] h = refl
each-map f build (a ∷ rest) h = rw (h.0, each-map f build rest h.1) refl

All-always {ℓ κ} : {A : Type ℓ} {P : A → Type κ} → ((a : A) → P a) → (xs : List A) → All P xs
All-always p [] = tt
All-always p (x ∷ xs) = (p x, All-always p xs)

All-map {ℓ κ ι} :
    {A : Type ℓ} {P : A → Type κ} {Q : A → Type ι}
    → ((a : A) → P a → Q a)
    → (xs : List A) → All P xs
    → All Q xs
All-map f [] h = tt
All-map f (x ∷ xs) h = (f x h.0, All-map f xs h.1)

parse_param-param_item : (p : CommandParam) → parse_param (param_item p) ≡ ok p
unfolding parse_param as_pair as_ascii from_list
parse_param-param_item p = refl

parse_ack_entry-ack_item : (p : ParamAck) → parse_ack_entry (ack_item p) ≡ ok p
unfolding parse_ack_entry as_pair as_ascii as_byte from_list
parse_ack_entry-ack_item p = refl

parse_report-report_item : (r : Report) → r.rptid < 2 ^ 32 → parse_report (report_item r) ≡ ok r
unfolding parse_report as_pair from_list
parse_report-report_item r h = rw (one_u32-u4_item r.rptid h, as_list-list_of r.values) refl

parse_svid_items-map :
    (svids : List ℕ) → All (λ v. v < 2 ^ 32) svids → parse_svid_items (map u4_item svids) ≡ ok svids
unfolding parse_svid_items collect_uints parse_svids
parse_svid_items-map [] h = refl
parse_svid_items-map (v ∷ vs) h =
    rw (parse_svid_items-map vs h.1, le→not-ltb 0xffff_ffff v (omega (arith, h.0))) refl

-- A remote command and its acknowledge, whatever is in them, come back from their messages.
pub command_comes_back :
    (command : RemoteCommand) (hcack : ℕ) (acks : List ParamAck)
    → (parse_s2f41 (make_s2f41 command) ≡ ok command)
      × (parse_s2f42 (make_s2f42 hcack acks) ≡ ok (record { hcack = hcack; params = acks }))
unfolding parse_command_body parse_command_ack_body as_pair as_ascii as_byte from_list
command_comes_back command hcack acks = (
  rw
      (
        as_list-list_of (map param_item command.params),
        each-map parse_param param_item command.params
            (All-always parse_param-param_item command.params),
      )
      refl,
  rw
      (
        as_list-list_of (map ack_item acks),
        each-map parse_ack_entry ack_item acks (All-always parse_ack_entry-ack_item acks),
      )
      refl,
)

pub parse_s1f3-make_s1f3 :
    (svids : List ℕ) → All (λ v. v < 2 ^ 32) svids → parse_s1f3 (make_s1f3 svids) ≡ ok svids
unfolding parse_svid_body
parse_s1f3-make_s1f3 svids h =
    rw (as_list-list_of (map u4_item svids)) (parse_svid_items-map svids h)

pub parse_s6f11-make_s6f11 :
    (event : EventReport)
    → event.dataid < 2 ^ 32
    → event.ceid < 2 ^ 32
    → All (λ (r : Report). r.rptid < 2 ^ 32) event.reports
    → parse_s6f11 (make_s6f11 event) ≡ ok event
unfolding parse_event_body as_triple from_list
parse_s6f11-make_s6f11 event hd hc hr =
    rw
      (
        one_u32-u4_item event.dataid hd,
        one_u32-u4_item event.ceid hc,
        as_list-list_of (map report_item event.reports),
        each-map parse_report report_item event.reports
            (All-map parse_report-report_item event.reports hr),
      )
      refl

pub parse_s5f1-make_s5f1 :
    (alarm : AlarmReport) → alarm.alid < 2 ^ 32 → parse_s5f1 (make_s5f1 alarm) ≡ ok alarm
unfolding parse_alarm_body as_triple as_ascii as_byte from_list
parse_s5f1-make_s5f1 alarm h = rw (one_u32-u4_item alarm.alid h) refl

-- A request for status variables, an event report and an alarm report, with numbers of 32 bits, come
-- back from their messages.
pub reports_come_back :
    (svids : List ℕ) (event : EventReport) (alarm : AlarmReport)
    → All (λ v. v < 2 ^ 32) svids
    → event.dataid < 2 ^ 32
    → event.ceid < 2 ^ 32
    → All (λ (r : Report). r.rptid < 2 ^ 32) event.reports
    → alarm.alid < 2 ^ 32
    → (parse_s1f3 (make_s1f3 svids) ≡ ok svids)
      × (parse_s6f11 (make_s6f11 event) ≡ ok event)
      × (parse_s5f1 (make_s5f1 alarm) ≡ ok alarm)
reports_come_back svids event alarm hs hd hc hr ha = (
  parse_s1f3-make_s1f3 svids hs,
  parse_s6f11-make_s6f11 event hd hc hr,
  parse_s5f1-make_s5f1 alarm ha,
)
