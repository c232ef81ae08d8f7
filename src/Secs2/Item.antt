-- ===== src/Secs2/Item.antt =====
-- SECS-II items (include/ssim/secsgem/secs2/item.hpp, src/secsgem/secs2/item.cpp). An item is its
-- format and its data. An array element is the bit pattern of the C++ value, as the codec sees it:
-- a signed integer through its unsigned twin, a float through its IEEE bits, a character as a byte.
use semiconductor_metrology.Base.{ℕ, suc, String, Bool, true, false, List, length}

pub data Format : Type 0 where
  list binary boolean ascii jis8 i8 i1 i2 i4 f8 f4 u8 u1 u2 u4 : Format

-- static_cast<unsigned>(format)
unfoldable pub format_code : Format → ℕ
format_code Format.list = 0x00
format_code binary = 0x08
format_code boolean = 0x09
format_code ascii = 0x10
format_code jis8 = 0x11
format_code i8 = 0x18
format_code i1 = 0x19
format_code i2 = 0x1a
format_code i4 = 0x1c
format_code f8 = 0x20
format_code f4 = 0x24
format_code u8 = 0x28
format_code u1 = 0x29
format_code u2 = 0x2a
format_code u4 = 0x2c

unfoldable pub to_string : Format → String
to_string Format.list = "L"
to_string binary = "B"
to_string boolean = "BOOLEAN"
to_string ascii = "A"
to_string jis8 = "J"
to_string i8 = "I8"
to_string i1 = "I1"
to_string i2 = "I2"
to_string i4 = "I4"
to_string f8 = "F8"
to_string f4 = "F4"
to_string u8 = "U8"
to_string u1 = "U1"
to_string u2 = "U2"
to_string u4 = "U4"

-- Bytes per element, or 0 for a list.
unfoldable pub element_size : Format → ℕ
element_size Format.list = 0
element_size binary = 1
element_size boolean = 1
element_size ascii = 1
element_size jis8 = 1
element_size i8 = 8
element_size i1 = 1
element_size i2 = 2
element_size i4 = 4
element_size f8 = 8
element_size f4 = 4
element_size u8 = 8
element_size u1 = 1
element_size u2 = 2
element_size u4 = 4

unfoldable pub is_supported : Format → Bool
is_supported jis8 = false
is_supported _ = true

unfoldable pub is_list_format : Format → Bool
is_list_format Format.list = true
is_list_format _ = false

-- The storage of a list item is `Items`, that of an array item a list of elements.
mutual
  pub data Item : Type 0 where
    list : Items → Item
    array : Format → List ℕ → Item

  pub data Items : Type 0 where
    nil : Items
    cons : Item → Items → Items

unfoldable pub format : Item → Format
format (Item.list items) = Format.list
format (array f vs) = f

unfoldable pub count_items : Items → ℕ
count_items nil = 0
count_items (cons item items) = suc (count_items items)

-- Number of list entries or array elements.
unfoldable pub count : Item → ℕ
unfolding count_items
count (Item.list items) = count_items items
count (array f vs) = length vs
