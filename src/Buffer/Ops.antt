-- ===== src/Buffer/Ops.antt =====
-- The operations of Buffer.
use libnode.Base.{
  ℕ, zero, suc, ◌+◌, ◌-◌, ◌%◌, Bool, true, false, ◌||◌, Option, none, some, [], ◌∷◌, length, take,
  drop, ltb, if◌then◌else◌, ◌==◌, ◌>>=◌,
}
use libnode.Net.Socket.State.{Bytes, Encoding}
use libnode.Buffer.State.{Heap, set_array, Buffer, Kind, Library}

abbrev pub word : ℕ
word = 18446744073709551616

abbrev pub min : ℕ → ℕ → ℕ
min a b = if ltb a b then a else b

-- What stands in memory that is not initialised.
abbrev pub stale : (ℕ → ℕ) → ℕ → Bytes
stale memory zero = []
stale memory (suc n) = memory n ∷ stale memory n

-- A new buffer of a length, on the array of a number that is not in use; its bytes are those that
-- stand in memory.
unfoldable pub create : (ℕ → ℕ) → ℕ → ℕ → Heap → Heap × Buffer
create memory fresh len heap =
    (set_array fresh (stale memory len) heap, record { array = fresh; offset = 0; length_ = len })

-- std::copy() to a place of an array.
unfoldable pub splice : ℕ → Bytes → Bytes → Bytes
splice zero [] old = old
splice zero (x ∷ xs) [] = []
splice zero (x ∷ xs) (o ∷ old) = x ∷ splice zero xs old
splice (suc n) xs [] = []
splice (suc n) xs (o ∷ old) = o ∷ splice n xs old

-- The length that copy() copies.
unfoldable pub copy_length : ℕ → ℕ → ℕ → Buffer → Buffer → ℕ
copy_length target_start source_start source_end target b =
    let stop = if ltb b.length_ source_end then b.length_ else source_end in
    let source_len = if ltb source_start stop then stop - source_start else 0 in
    if source_len == 0
    then 0
    else if ltb target_start target.length_
    then min source_len (target.length_ - target_start)
    else 0

unfoldable pub copy : ℕ → ℕ → ℕ → Buffer → Buffer → Heap → Heap × ℕ
copy target_start source_start source_end target b heap =
    let len = copy_length target_start source_start source_end target b in
    let copied = take len (drop (source_start + b.offset) (heap b.array)) in
    (
      set_array target.array (splice (target.offset + target_start) copied (heap target.array))
          heap,
      len,
    )

-- concat(), on the array of a number that is not in use.
unfoldable pub concat : (ℕ → ℕ) → ℕ → Option Buffer → Buffer → Heap → Heap × Option Buffer
concat memory fresh none b heap = (heap, none)
concat memory fresh (some other) b heap =
    let made = create memory fresh ((b.length_ + other.length_) % word) heap in
    let first = (copy 0 0 b.length_ made.1 b made.0).0 in
    let second = (copy b.length_ 0 other.length_ made.1 other first).0 in (second, some made.1)

unfoldable pub slice_buffer : ℕ → ℕ → Buffer → Option Buffer
slice_buffer start stop b =
    let last = if ltb b.length_ stop then b.length_ else stop in
    if ltb last start || ltb b.length_ start
    then none
    else some (record { array = b.array; offset = b.offset + start; length_ = last - start })

unfoldable pub to_string : Library → Encoding → ℕ → ℕ → Buffer → Heap → Option Bytes
to_string lib enc start stop b heap =
    let last = if ltb b.length_ stop then b.length_ else stop in
    if ltb last start || ltb b.length_ start
    then none
    else if start == last
    then some []
    else lib.decode enc (take (last - start) (drop (b.offset + start) (heap b.array)))

-- write(); `none` is -1.
unfoldable pub write : Library → Option Bytes → ℕ → ℕ → Encoding → Buffer → Heap → Option (Heap × ℕ)
write lib none offset len enc b heap = none
write lib (some str) offset len enc b heap =
    if ltb b.length_ offset
    then none
    else if len == 0
    then some (heap, 0)
    else lib.encode enc str >>= λ s.
        let n = min (min (length s) len) (b.length_ - offset) in
        some (set_array b.array (splice (b.offset + offset) (take n s) (heap b.array)) heap, n)

-- readUInt8() to readDoubleBE().
unfoldable pub read : Library → Kind → ℕ → Buffer → Heap → Option ℕ
read lib kind offset b heap = lib.get kind ((offset + b.offset) % word) (heap b.array)

-- writeUInt8() to writeDoubleBE(); false leaves the array as it is.
unfoldable pub write_value : Library → Kind → ℕ → ℕ → Buffer → Heap → Heap × Bool
write_value lib kind value offset b heap =
    elim (lib.put kind value ((offset + b.offset) % word) (heap b.array)) [
      | none ↦ (heap, false)
      | some bytes ↦ (set_array b.array bytes heap, true)
    ]
