-- ===== src/DataType.antt =====
-- The field types of CycLib/Core/Common.h and Common.cpp.
use cyc_flow.Base.{ℕ, ◌≡◌, refl, Bool, true, false, if◌then◌else◌}
use cyc_flow.Text.{Text, codes, text_eq}

pub data DataType : Type 0 where
  undefine bool char void int8 uint8 int16 uint16 int32 uint32 int64 uint64 float double ptr :
      DataType

-- `getTypeSize`, on a 64-bit target.
unfoldable pub get_type_size : DataType → ℕ
get_type_size undefine = 0
get_type_size bool = 1
get_type_size char = 1
get_type_size void = 1
get_type_size int8 = 1
get_type_size uint8 = 1
get_type_size int16 = 2
get_type_size uint16 = 2
get_type_size int32 = 4
get_type_size uint32 = 4
get_type_size int64 = 8
get_type_size uint64 = 8
get_type_size float = 4
get_type_size double = 8
get_type_size ptr = 8

unfoldable pub data_type_to_string : DataType → Text
data_type_to_string undefine = codes "Undefine"
data_type_to_string bool = codes "Bool"
data_type_to_string char = codes "Char"
data_type_to_string void = codes "Void"
data_type_to_string int8 = codes "Int8"
data_type_to_string uint8 = codes "UInt8"
data_type_to_string int16 = codes "Int16"
data_type_to_string uint16 = codes "UInt16"
data_type_to_string int32 = codes "Int32"
data_type_to_string uint32 = codes "UInt32"
data_type_to_string int64 = codes "Int64"
data_type_to_string uint64 = codes "UInt64"
data_type_to_string float = codes "Float"
data_type_to_string double = codes "Double"
data_type_to_string ptr = codes "Ptr"

-- `dataTypeFromString`: the row of tests, "Void" not among them.
unfoldable pub data_type_from_string : Text → DataType
unfolding text_eq
data_type_from_string s =
    if text_eq s (codes "Bool")
    then bool
    else if text_eq s (codes "Char")
    then char
    else if text_eq s (codes "Int8")
    then int8
    else if text_eq s (codes "UInt8")
    then uint8
    else if text_eq s (codes "Int16")
    then int16
    else if text_eq s (codes "UInt16")
    then uint16
    else if text_eq s (codes "Int32")
    then int32
    else if text_eq s (codes "UInt32")
    then uint32
    else if text_eq s (codes "Int64")
    then int64
    else if text_eq s (codes "UInt64")
    then uint64
    else if text_eq s (codes "Float")
    then float
    else if text_eq s (codes "Double")
    then double
    else if text_eq s (codes "Ptr")
    then ptr
    else undefine

-- `isIntegerType` of PAttr.cpp: what may carry bit fields.
unfoldable pub is_integer_type : DataType → Bool
is_integer_type bool = true
is_integer_type int8 = true
is_integer_type uint8 = true
is_integer_type int16 = true
is_integer_type uint16 = true
is_integer_type int32 = true
is_integer_type uint32 = true
is_integer_type int64 = true
is_integer_type uint64 = true
is_integer_type _ = false

-- What the reader makes of a type's written name: "Void" and "Undefine" come back as undefine, and
-- every other type as itself.
abbrev pub reread : DataType → DataType
reread void = undefine
reread t = t

-- Reading a type's name gives the type back, for every type but Void, which is read as Undefine.
pub data_type_from_string-to_string :
    (t : DataType) → data_type_from_string (data_type_to_string t) ≡ reread t
unfolding data_type_from_string data_type_to_string
data_type_from_string-to_string undefine = refl
data_type_from_string-to_string _ = refl
