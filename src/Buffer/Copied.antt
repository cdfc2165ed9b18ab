-- ===== src/Buffer/Copied.antt =====
-- concat(), by way of copy().
use libnode.Base.{
  ℕ, ◌+◌, ◌%◌, ◌≤◌, ◌<◌, ◌≡◌, ◌≢◌, refl, sym, ap, ◌∙◌, some, ◌++◌, arith, length, take, drop,
  length-append,
}
use libnode.Net.Socket.State.{Bytes}
use libnode.Buffer.State.{Heap, set_array, Buffer, bytes_of, IsWithin}
use libnode.Buffer.Ops.{word, stale, create, splice, copy_length, copy, concat}
use libnode.Buffer.Splice.{splice-splice, length-take, length-drop, take-length}

-- A buffer in its array has the bytes of its length.
length-bytes_of :
    (heap : Heap) (b : Buffer) → IsWithin heap b → length (bytes_of heap b) ≡ b.length_
length-bytes_of heap b h =
    length-take b.length_ (drop b.offset (heap b.array))
      (omega (arith, length-drop b.offset (heap b.array), h))

-- All of a buffer is copied to a target that has room for it.
copy_length-all :
    (start : ℕ) (target b : Buffer)
    → start + b.length_ ≤ target.length_
    → copy_length start 0 b.length_ target b ≡ b.length_
unfolding copy_length
copy_length-all start target b h = ground arith

set_array-other :
    (a b : ℕ) (bytes : Bytes) (heap : Heap) → a ≢ b → set_array a bytes heap b ≡ heap b
set_array-other a b bytes heap h = ground arith

set_array-same : (a : ℕ) (bytes : Bytes) (heap : Heap) → set_array a bytes heap a ≡ bytes
set_array-same a bytes heap = ground arith

-- The two copies of concat(), in the array that is new.
joined :
    (memory : ℕ → ℕ) (xs ys : Bytes) (m n : ℕ)
    → length xs ≡ m
    → length ys ≡ n
    → splice (0 + m) ys (splice (0 + 0) xs (stale memory (m + n))) ≡ xs ++ ys
joined memory xs ys m n hm hn =
    let first : 0 + m ≡ length xs = omega (arith, hm) in
    let size : m + n ≡ length xs + length ys = omega (arith, hm, hn) in
    rw (first, size) (splice-splice memory xs ys)

copy-array :
    (start : ℕ) (target b : Buffer) (heap : Heap)
    → start + b.length_ ≤ target.length_
    → (copy start 0 b.length_ target b heap).0
      ≡ set_array target.array
          (splice (target.offset + start) (bytes_of heap b) (heap target.array))
          heap
unfolding copy
copy-array start target b heap h =
    let len = copy_length-all start target b h in
    let at : 0 + b.offset ≡ b.offset = omega arith in rw (len, at) refl

made_on : ℕ → ℕ → Buffer
made_on fresh n = record { array = fresh; offset = 0; length_ = n }

-- What copy() to a buffer on another array makes of that array and of others.
copy_into :
    (fresh n start : ℕ) (b : Buffer) (heap : Heap)
    → start + b.length_ ≤ n
    → (copy start 0 b.length_ (made_on fresh n) b heap).0 fresh
      ≡ splice (0 + start) (bytes_of heap b) (heap fresh)
unfolding made_on
copy_into fresh n start b heap h =
    ap (λ g. g fresh) (copy-array start (made_on fresh n) b heap h)
    ∙ set_array-same fresh (splice (0 + start) (bytes_of heap b) (heap fresh)) heap

copy_other :
    (fresh n start a : ℕ) (b : Buffer) (heap : Heap)
    → start + b.length_ ≤ n
    → fresh ≢ a
    → (copy start 0 b.length_ (made_on fresh n) b heap).0 a ≡ heap a
unfolding made_on
copy_other fresh n start a b heap h free =
    ap (λ g. g a) (copy-array start (made_on fresh n) b heap h)
    ∙ set_array-other fresh a (splice (0 + start) (bytes_of heap b) (heap fresh)) heap free

bytes_of-same :
    (b : Buffer) (heap heap' : Heap)
    → heap' b.array ≡ heap b.array
    → bytes_of heap' b ≡ bytes_of heap b
bytes_of-same b heap heap' h = ap (λ l. take b.length_ (drop b.offset l)) h

-- Two buffers copied one behind the other to a new array of their length.
concatenated :
    (memory : ℕ → ℕ) (fresh n : ℕ) (b other : Buffer) (heap : Heap)
    → fresh ≢ b.array
    → fresh ≢ other.array
    → IsWithin heap b
    → IsWithin heap other
    → b.length_ + other.length_ ≡ n
    → let made = set_array fresh (stale memory n) heap in
      let first = (copy 0 0 b.length_ (made_on fresh n) b made).0 in
      (copy b.length_ 0 other.length_ (made_on fresh n) other first).0 fresh
      ≡ bytes_of heap b ++ bytes_of heap other
concatenated memory fresh n b other heap free_b free_other in_b in_other size =
    let made = set_array fresh (stale memory n) heap in
    let first = (copy 0 0 b.length_ (made_on fresh n) b made).0 in
    let source =
      bytes_of-same b heap made (set_array-other fresh b.array (stale memory n) heap free_b) in
    let at_first : first fresh ≡ splice (0 + 0) (bytes_of heap b) (stale memory n) =
      copy_into fresh n 0 b made (omega (arith, size))
      ∙ ap (λ l. splice (0 + 0) l (made fresh)) source
      ∙ ap (splice (0 + 0) (bytes_of heap b)) (set_array-same fresh (stale memory n) heap) in
    let kept = bytes_of-same other heap first (
      copy_other fresh n 0 other.array b made (omega (arith, size)) free_other
      ∙ set_array-other fresh other.array (stale memory n) heap free_other) in
    copy_into fresh n b.length_ other first (omega (arith, size))
    ∙ ap (λ l. splice (0 + b.length_) l (first fresh)) kept
    ∙ ap (splice (0 + b.length_) (bytes_of heap other)) at_first
    ∙ ap
        (λ k.
          splice (0 + b.length_) (bytes_of heap other)
            (splice (0 + 0) (bytes_of heap b) (stale memory k)))
        (sym size)
    ∙ joined memory (bytes_of heap b) (bytes_of heap other) b.length_ other.length_
        (length-bytes_of heap b in_b) (length-bytes_of heap other in_other)

all_bytes : (bytes : Bytes) (n : ℕ) → length bytes ≡ n → take n (drop 0 bytes) ≡ bytes
all_bytes bytes n h = ap (λ k. take k bytes) (sym h) ∙ take-length bytes

-- concat() of two buffers in their arrays, whose lengths together are a word, on an array that is
-- not in use: there is a result, and its bytes are those of the one and then those of the other.
concat-bytes_of :
    (memory : ℕ → ℕ) (fresh : ℕ) (other b : Buffer) (heap : Heap)
    → fresh ≢ b.array
    → fresh ≢ other.array
    → IsWithin heap b
    → IsWithin heap other
    → b.length_ + other.length_ < word
    → let r = concat memory fresh (some other) b heap in
      (c : Buffer) × (r.1 ≡ some c) × (bytes_of r.0 c ≡ bytes_of heap b ++ bytes_of heap other)
unfolding concat create made_on
concat-bytes_of memory fresh other b heap free_b free_other in_b in_other small =
    let n = (b.length_ + other.length_) % word in
    let size : b.length_ + other.length_ ≡ n = omega (arith, small) in
    let whole = concatenated memory fresh n b other heap free_b free_other in_b in_other size in
    let total : length (bytes_of heap b ++ bytes_of heap other) ≡ n =
      length-append (bytes_of heap b) (bytes_of heap other)
      ∙ omega (arith, length-bytes_of heap b in_b, length-bytes_of heap other in_other, size) in
    (
      made_on fresh n,
      refl,
      ap (λ l. take n (drop 0 l)) whole
          ∙ all_bytes (bytes_of heap b ++ bytes_of heap other) n total,
    )
