-- ===== src/Bencode/Elements.antt =====
-- src/bencoding/include/bencoding/be_element_ref.h and be_element_ref_builders.h: a parsed element
-- and its builders. `operator==` compares the storage and ignores the position.
use bittorrent_client.Base.{ℕ, ◌≡◌, List, length, Option, none, some}

pub data ElementId : Type 0 where
  none_id integer_id string_id list_id dictionary_id : ElementId

-- A `std::string_view` into the parsed buffer: its size, and those of its bytes that lie in the
-- buffer. A view that runs past the end of the buffer has fewer bytes than its size.
pub record View : Type 0 where
  pub size : ℕ
  pub bytes : List ℕ

-- The view lies in the buffer.
abbrev pub IsWhole : View → Type 0
IsWhole v = length v.bytes ≡ v.size

-- The view of exactly these bytes.
abbrev pub whole : List ℕ → View
whole s = record { size = length s; bytes = s }

pub record ElementPosition : Type 0 where
  pub start : ℕ
  pub end : ℕ

-- `ListRef` and `DictionaryRef` are the vectors in a list and in a dictionary.
mutual
  pub data ElementRef : Type 0 where
    element : StorageRef → ElementPosition → ElementRef

  pub data StorageRef : Type 0 where
    integer : View → StorageRef
    string : View → StorageRef
    list : ListRef → StorageRef
    dictionary : DictionaryRef → StorageRef

  pub data ListRef : Type 0 where
    no_elements : ListRef
    add_element : ElementRef → ListRef → ListRef

  pub data DictionaryRef : Type 0 where
    no_entries : DictionaryRef
    add_entry : View → ElementRef → DictionaryRef → DictionaryRef

unfoldable pub storage : ElementRef → StorageRef
storage (element s p) = s

unfoldable pub position : ElementRef → ElementPosition
position (element s p) = p

unfoldable pub element_id : ElementRef → ElementId
element_id (element (integer v) p) = integer_id
element_id (element (string v) p) = string_id
element_id (element (list es) p) = list_id
element_id (element (dictionary d) p) = dictionary_id

unfoldable pub as_integer : ElementRef → Option View
as_integer (element (integer v) p) = some v
as_integer (element _ p) = none

unfoldable pub as_string : ElementRef → Option View
as_string (element (string v) p) = some v
as_string (element _ p) = none

unfoldable pub as_list : ElementRef → Option ListRef
as_list (element (list es) p) = some es
as_list (element _ p) = none

unfoldable pub as_dictionary : ElementRef → Option DictionaryRef
as_dictionary (element (dictionary d) p) = some d
as_dictionary (element _ p) = none
