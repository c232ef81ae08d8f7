-- ===== src/Gem/Messages.antt =====
-- The messages of the GEM subset (include/ssim/secsgem/gem/messages.hpp,
-- src/secsgem/gem/messages.cpp). A std::string is the list of its bytes, as an ASCII item has it. A
-- parser's test of an item's shape and the access that follows it are one helper that returns Option.
pub mod Builders
pub mod RoundTrip
pub mod Catalogues
use semiconductor_metrology.Base.{
  ℕ, String, Bool, true, false, not, List, [], ◌∷◌, ◌++◌, Option, none, some, Result, ok, fail,
  or_fail, ◌>>=◌, ◌>>◌, fail_if, ◌^◌, ltb, leb, ◌==◌, ◌||◌, if◌then◌else◌, Text, length,
}
use semiconductor_metrology.Secs2.Item.{
  Format, Item, Items, array, nil, cons, binary, ascii, u1, u2, u4, u8, i1, i2, i4, i8, format,
  count,
}
use semiconductor_metrology.Secs2.Message.{Message}

abbrev pub err_illegal_data : ℕ
err_illegal_data = 500

pub record Identity : Type 0 where
  pub model : Text
  pub softrev : Text

pub record CommandParam : Type 0 where
  pub name : Text
  pub value : Item

pub record RemoteCommand : Type 0 where
  pub rcmd : Text
  pub params : List CommandParam

pub record ParamAck : Type 0 where
  pub name : Text
  pub cpack : ℕ

pub record CommandAck : Type 0 where
  pub hcack : ℕ
  pub params : List ParamAck

pub record Report : Type 0 where
  pub rptid : ℕ
  pub values : List Item

pub record EventReport : Type 0 where
  pub dataid : ℕ
  pub ceid : ℕ
  pub reports : List Report

pub record AlarmReport : Type 0 where
  pub alcd : ℕ
  pub alid : ℕ
  pub altx : Text

-- Item::List as a list, and back.
unfoldable pub to_list : Items → List Item
to_list nil = []
to_list (cons i is) = i ∷ to_list is

unfoldable pub from_list : List Item → Items
from_list [] = nil
from_list (i ∷ is) = cons i (from_list is)

-- Item::list({...})
abbrev pub list_of : List Item → Item
list_of is = Item.list (from_list is)

abbrev pub make : ℕ → ℕ → Bool → Option Item → Message
make s f w b = record { stream = s; function = f; w_bit = w; body = b }

abbrev pub byte_item : ℕ → Item
byte_item b = array binary (b ∷ [])

abbrev pub ascii_item : Text → Item
ascii_item t = array ascii t

abbrev pub u4_item : ℕ → Item
u4_item v = array u4 (v ∷ [])

abbrev pub identity_item : Identity → Item
identity_item id = list_of (ascii_item id.model ∷ ascii_item id.softrev ∷ [])

-- as_list, of a list item; as_list of a list item with two or three entries.
unfoldable pub as_list : Item → Option (List Item)
as_list (Item.list items) = some (to_list items)
as_list (array f vs) = none

unfoldable pub as_pair : Item → Option (Item × Item)
as_pair (Item.list (cons a (cons b nil))) = some (a, b)
as_pair _ = none

unfoldable pub as_triple : Item → Option (Item × Item × Item)
as_triple (Item.list (cons a (cons b (cons c nil)))) = some (a, b, c)
as_triple _ = none

unfoldable pub as_ascii : Item → Option Text
as_ascii (array ascii t) = some t
as_ascii _ = none

-- is_byte, and the byte.
unfoldable pub as_byte : Item → Option ℕ
as_byte (array binary (b ∷ [])) = some b
as_byte _ = none

-- An element of a signed item is the bit pattern of its value: from the half on it is negative.
unfoldable pub non_negative : ℕ → List ℕ → Option (List ℕ)
non_negative half [] = some []
non_negative half (v ∷ vs) = elim (non_negative half vs) [
  | none ↦ none
  | some rest ↦ if ltb v half then some (v ∷ rest) else none
]

unfoldable pub collect_uints : Item → Option (List ℕ)
collect_uints (Item.list items) = none
collect_uints (array u1 vs) = some vs
collect_uints (array u2 vs) = some vs
collect_uints (array u4 vs) = some vs
collect_uints (array u8 vs) = some vs
collect_uints (array i1 vs) = non_negative (2 ^ 7) vs
collect_uints (array i2 vs) = non_negative (2 ^ 15) vs
collect_uints (array i4 vs) = non_negative (2 ^ 31) vs
collect_uints (array i8 vs) = non_negative (2 ^ 63) vs
collect_uints (array _ vs) = none

unfoldable pub only_u32 : Option (List ℕ) → Option ℕ
only_u32 (some (v ∷ [])) = if ltb 0xffff_ffff v then none else some v
only_u32 _ = none

unfoldable pub one_u32 : Item → Option ℕ
unfolding only_u32 collect_uints
one_u32 item = only_u32 (collect_uints item)

-- `for (const Item& item : list) { ...; if (bad) return R::err(...); out.push_back(...); }`
unfoldable pub each {ℓ} : {A : Type ℓ} → (Item → Result A) → List Item → Result (List A)
each f [] = ok []
each f (i ∷ is) = f i >>= λ a. each f is >>= λ rest. ok (a ∷ rest)

abbrev pub illegal {ℓ} : {A : Type ℓ} → String → Option A → Result A
illegal what o = or_fail o err_illegal_data what

unfoldable pub parse_param : Item → Result CommandParam
parse_param pair = do
  (name, value) ← illegal "each parameter must be L2{CPNAME A, CPVAL}" (as_pair pair)
  name ← illegal "each parameter must be L2{CPNAME A, CPVAL}" (as_ascii name)
  ok (record { name = name; value = value })

abbrev pub Body : Type 0
Body = Option Item

-- The body, where there is one.
abbrev pub within {ℓ} : {A : Type ℓ} → Body → (Item → Option A) → Option A
within none f = none
within (some item) f = f item

unfoldable pub parse_command_body : Body → Result RemoteCommand
parse_command_body body = do
  (rcmd, params) ← illegal "S2F41 must be L2" (within body as_pair)
  rcmd ← illegal "RCMD must be ASCII" (as_ascii rcmd)
  params ← illegal "S2F41 parameters must be a list" (as_list params)
  params ← each parse_param params
  ok (record { rcmd = rcmd; params = params })

unfoldable pub parse_svids : List ℕ → Result (List ℕ)
parse_svids [] = ok []
parse_svids (x ∷ xs) =
    fail_if (ltb 0xffff_ffff x) err_illegal_data "SVID out of range"
    >> (parse_svids xs >>= λ rest. ok (x ∷ rest))

unfoldable pub parse_svid_items : List Item → Result (List ℕ)
parse_svid_items [] = ok []
parse_svid_items (i ∷ is) = do
  v ← illegal "SVID must be an integer" (collect_uints i)
  here ← parse_svids v
  rest ← parse_svid_items is
  ok (here ++ rest)

unfoldable pub parse_svid_body : Body → Result (List ℕ)
parse_svid_body body =
    illegal "S1F3 must be a list of SVIDs" (within body as_list) >>= parse_svid_items

unfoldable pub parse_report : Item → Result Report
parse_report rpt = do
  (rptid, values) ← illegal "each report must be L2{RPTID, values}" (as_pair rpt)
  rptid ← illegal "bad report" (one_u32 rptid)
  values ← illegal "bad report" (as_list values)
  ok (record { rptid = rptid; values = values })

unfoldable pub parse_event_body : Body → Result EventReport
parse_event_body body = do
  (dataid, ceid, reports) ← illegal "S6F11 must be L3" (within body as_triple)
  dataid ← illegal "DATAID and CEID must be integers" (one_u32 dataid)
  ceid ← illegal "DATAID and CEID must be integers" (one_u32 ceid)
  reports ← illegal "S6F11 reports must be a list" (as_list reports)
  reports ← each parse_report reports
  ok (record { dataid = dataid; ceid = ceid; reports = reports })

unfoldable pub parse_alarm_body : Body → Result AlarmReport
parse_alarm_body body = do
  (alcd, alid, altx) ← illegal "S5F1 must be L3" (within body as_triple)
  alcd ← illegal "S5F1 must be L3{ALCD B, ALID U4, ALTX A}" (as_byte alcd)
  alid ← illegal "S5F1 must be L3{ALCD B, ALID U4, ALTX A}" (one_u32 alid)
  altx ← illegal "S5F1 must be L3{ALCD B, ALID U4, ALTX A}" (as_ascii altx)
  ok (record { alcd = alcd; alid = alid; altx = altx })

unfoldable pub parse_ack_entry : Item → Result ParamAck
parse_ack_entry pair = do
  (name, cpack) ← illegal "each entry must be L2{CPNAME A, CPACK B}" (as_pair pair)
  name ← illegal "each entry must be L2{CPNAME A, CPACK B}" (as_ascii name)
  cpack ← illegal "each entry must be L2{CPNAME A, CPACK B}" (as_byte cpack)
  ok (record { name = name; cpack = cpack })

unfoldable pub parse_command_ack_body : Body → Result CommandAck
parse_command_ack_body body = do
  (hcack, acks) ← illegal "S2F42 must be L2{HCACK B, list}" (within body as_pair)
  hcack ← illegal "S2F42 must be L2{HCACK B, list}" (as_byte hcack)
  acks ← illegal "S2F42 must be L2{HCACK B, list}" (as_list acks)
  params ← each parse_ack_entry acks
  ok (record { hcack = hcack; params = params })

unfoldable pub parse_ack_body : Body → Result ℕ
parse_ack_body body = illegal "acknowledge must be one binary byte" (within body as_byte)
