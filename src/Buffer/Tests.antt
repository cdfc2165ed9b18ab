-- ===== src/Buffer/Tests.antt =====
-- Buffers that meet the hypotheses of the theorems about Buffer, and runs.
use libnode.Base.{zero, suc, ◌-◌, ◌≡◌, refl, none, some, [], ◌∷◌, arith, get_elem?}
use libnode.Buffer.State.{Heap, Buffer, uint8, Library}
use libnode.Buffer.Ops.{word, slice_buffer, read}
use libnode.Buffer.Slices.{read_outside}

-- One array in use.
abbrev one_array : Heap
one_array zero = 1 ∷ 2 ∷ 3 ∷ 4 ∷ []
one_array (suc a) = []

-- The two bytes in its middle.
abbrev middle : Buffer
middle = record { array = 0; offset = 1; length_ = 2 }

middle_sliced : slice_buffer 1 9 middle ≡ some (record { array = 0; offset = 2; length_ = 1 })
unfolding slice_buffer
middle_sliced = refl

abbrev plain : Library
plain = record {
  get = λ k i bytes. get_elem? bytes i;
  put = λ k v i bytes. none;
  decode = λ enc bytes. some bytes;
  encode = λ enc t. some t;
}

-- The byte behind the slice, and the one before it.
middle_outside :
    (read plain uint8 2 middle one_array ≡ some 4)
    × (read plain uint8 (word - 1) middle one_array ≡ some 1)
middle_outside =
    read_outside plain one_array middle 2 (λ j. refl) (omega arith) (omega arith) (omega arith)
