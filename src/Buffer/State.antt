-- ===== src/Buffer/State.antt =====
-- A Buffer is a range of an array that it may share with other buffers.
use libnode.Base.{ℕ, ◌+◌, ◌≤◌, Bool, Option, take, drop, length, if◌then◌else◌, ◌==◌}
use libnode.Net.Socket.State.{Bytes, Encoding}

-- The arrays, by their numbers.
abbrev pub Heap : Type 0
Heap = ℕ → Bytes

abbrev pub set_array : ℕ → Bytes → Heap → Heap
set_array a bytes heap = λ b. if a == b then bytes else heap b

pub record Buffer : Type 0 where
  pub array : ℕ
  pub offset : ℕ
  pub length_ : ℕ

-- The values that the readers and writers take: signed and unsigned numbers and floats, and the
-- order of their bytes.
pub data Kind : Type 0 where
  uint8 int8 : Kind
  uint16 int16 uint32 int32 float32 float64 : Bool → Kind

-- What the code takes from libj: the getters and setters of JsArrayBuffer, which fail outside of the
-- array, and the conversions of texts.
pub record Library : Type 0 where
  pub get : Kind → ℕ → Bytes → Option ℕ
  pub put : Kind → ℕ → ℕ → Bytes → Option Bytes
  pub decode : Encoding → Bytes → Option Bytes
  pub encode : Encoding → Bytes → Option Bytes

-- The bytes of a buffer.
abbrev pub bytes_of : Heap → Buffer → Bytes
bytes_of heap b = take b.length_ (drop b.offset (heap b.array))

-- The range lies in the array.
abbrev pub IsWithin : Heap → Buffer → Type 0
IsWithin heap b = b.offset + b.length_ ≤ length (heap b.array)
