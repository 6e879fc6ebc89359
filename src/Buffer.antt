-- ===== src/Buffer.antt =====
-- go-pure-impl/types.go: ReadBuffer, the ranked lists of every pair, and DoubleBuffer, the pointer
-- through which readers see the last published one.
pub mod Slots
use priority_service_poc.Base.{ℕ, ◌+◌, ◌*◌, ◌≡◌, List, replicate, length, min, ltb, if◌then◌else◌}
use priority_service_poc.Base.Int.{ℤ, negsuc}
use priority_service_poc.Base.Run.{Run}
use priority_service_poc.Base.Slices.{slice, splice}
use priority_service_poc.Types.{Sizes, num_tables}

-- -1
abbrev pub empty_slot : ℤ
empty_slot = negsuc 0

pub record ReadBuffer : Type 0 where
  pub slots : List ℤ
  pub num_pairs : ℕ

unfoldable pub new_read_buffer : Sizes → ℕ → ReadBuffer
new_read_buffer s num_pairs = record {
  slots = replicate (num_pairs * num_tables * s.top_k) empty_slot;
  num_pairs = num_pairs;
}

abbrev pub list_offset : Sizes → ℕ → ℕ → ℕ
list_offset s pair_idx table = (pair_idx * num_tables + table) * s.top_k

unfoldable pub get_list : Sizes → ReadBuffer → ℕ → ℕ → ℕ → Run (List ℤ)
get_list s b pair_idx table k =
    slice b.slots (list_offset s pair_idx table) (if ltb s.top_k k then s.top_k else k)

-- ListMut returns a part of the array. `list_mut` is what it shows, and `put_list` is the buffer
-- after a write through it.
unfoldable pub list_mut : Sizes → ReadBuffer → ℕ → ℕ → Run (List ℤ)
list_mut s b pair_idx table = slice b.slots (list_offset s pair_idx table) s.top_k

unfoldable pub put_list : Sizes → ReadBuffer → ℕ → ℕ → List ℤ → ReadBuffer
put_list s b pair_idx table dst = record b {
  slots = splice b.slots (list_offset s pair_idx table) dst;
}

-- The array holds `num_tables` lists of `top_k` slots for each pair.
abbrev pub IsSized : Sizes → ReadBuffer → Type 0
IsSized s b = length b.slots ≡ b.num_pairs * num_tables * s.top_k

pub record DoubleBuffer : Type 0 where
  pub ptr : ReadBuffer

unfoldable pub new_double_buffer : Sizes → ℕ → DoubleBuffer
new_double_buffer s num_pairs = record { ptr = new_read_buffer s num_pairs }

unfoldable pub load_buffer : DoubleBuffer → ReadBuffer
load_buffer db = db.ptr

unfoldable pub publish : DoubleBuffer → ReadBuffer → DoubleBuffer
publish db buf = record db { ptr = buf }
