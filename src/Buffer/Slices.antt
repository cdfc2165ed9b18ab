-- ===== src/Buffer/Slices.antt =====
-- slice(), and reading behind the end of a slice.
use libnode.Base.{ℕ, ◌+◌, ◌-◌, ◌%◌, ◌≤◌, ◌<◌, ◌≡◌, sym, ap, ◌∙◌, some, arith, take, drop, get_elem?}
use libnode.Net.Socket.State.{Bytes}
use libnode.Buffer.State.{Heap, Buffer, uint8, Library, bytes_of, IsWithin}
use libnode.Buffer.Ops.{word, slice_buffer, read}
use libnode.Buffer.Splice.{drop-drop, drop-take, take-take}

-- The bytes of a range of a range.
range_of_range :
    (offset len start stop : ℕ) (bytes : Bytes)
    → start ≤ stop
    → stop ≤ len
    → take (stop - start) (drop (offset + start) bytes)
      ≡ take (stop - start) (drop start (take len (drop offset bytes)))
range_of_range offset len start stop bytes h g =
    let size : len ≡ start + (len - start) = omega (arith, h, g) in
    let rest = drop offset bytes in
    ap (take (stop - start)) (sym (drop-drop start offset bytes))
    ∙ sym (take-take (stop - start) (len - start) (drop start rest) (omega (arith, g)))
    ∙ ap (take (stop - start)) (sym (drop-take start (len - start) rest))
    ∙ ap (λ k. take (stop - start) (drop start (take k rest))) (sym size)

slice_some :
    (start stop : ℕ) (b : Buffer)
    → start ≤ stop
    → stop ≤ b.length_
    → slice_buffer start stop b
      ≡ some (record { array = b.array; offset = b.offset + start; length_ = stop - start })
unfolding slice_buffer
slice_some start stop b h g = ground arith

-- slice() of a buffer in its array, from a start to a stop that is not before it, or to the end of
-- the buffer: the result lies in the array, and its bytes are those of the range.
slice_buffer-bytes_of :
    (heap : Heap) (start stop : ℕ) (b : Buffer)
    → IsWithin heap b
    → start ≤ stop
    → stop ≤ b.length_
    → (c : Buffer) × (slice_buffer start stop b ≡ some c)
      × IsWithin heap c
      × (bytes_of heap c ≡ take (stop - start) (drop start (bytes_of heap b)))
slice_buffer-bytes_of heap start stop b h le fits = (
  record { array = b.array; offset = b.offset + start; length_ = stop - start },
  slice_some start stop b le fits,
  omega (arith, h, le, fits),
  range_of_range b.offset b.length_ start stop (heap b.array) le fits,
)

-- A read at an index behind the end of a slice, but in its array, gives the byte of the array there,
-- and one at the largest index a byte before the slice, when getUint8() reads the array.
pub read_outside :
    (lib : Library) (heap : Heap) (b : Buffer) (i : ℕ)
    → ((j : ℕ) → lib.get uint8 j (heap b.array) ≡ get_elem? (heap b.array) j)
    → b.length_ ≤ i
    → i + b.offset < word
    → 1 ≤ b.offset
    → (read lib uint8 i b heap ≡ get_elem? (heap b.array) (i + b.offset))
      × (read lib uint8 (word - 1) b heap ≡ get_elem? (heap b.array) (b.offset - 1))
unfolding read
read_outside lib heap b i gets behind small inside =
    let at : (i + b.offset) % word ≡ i + b.offset = omega (arith, small) in
    let before : (word - 1 + b.offset) % word ≡ b.offset - 1 = omega (arith, small, inside) in
    (
      gets ((i + b.offset) % word) ∙ ap (get_elem? (heap b.array)) at,
      gets ((word - 1 + b.offset) % word) ∙ ap (get_elem? (heap b.array)) before,
    )
