-- ===== src/Buffer/Slots.antt =====
-- The lists of a buffer do not overlap.
use native.Mathlib.Decide.{dec_lt}
use priority_service_poc.Base.{
  ℕ, suc, ◌+◌, ◌*◌, ◌≤◌, ◌<◌, ◌≡◌, ◌≢◌, ap, ◌∙◌, ◌⊎◌, inl, inr, List, arith, length, take, drop,
  replicate, length-replicate, take-replicate, drop-replicate, ◌-◌,
}
use priority_service_poc.Base.Int.{ℤ}
use priority_service_poc.Base.Run.{ok}
use priority_service_poc.Base.Slices.{
  slice-ok, length-splice, slice-splice_self, slice-splice_disjoint,
}
use priority_service_poc.Types.{Sizes, num_tables}
use priority_service_poc.Buffer.{
  ReadBuffer, new_read_buffer, list_offset, list_mut, put_list, IsSized, empty_slot,
}

-- The list of pair `i` for `table`, in full.
abbrev pub list_at : Sizes → ReadBuffer → ℕ → ℕ → List ℤ
list_at s b i table = take s.top_k (drop (list_offset s i table) b.slots)

-- Lists are numbered in the order in which they lie in the array.
abbrev list_number : ℕ → ℕ → ℕ
list_number i table = i * num_tables + table

pub list_fits :
    (s : Sizes) (b : ReadBuffer) (i table : ℕ)
    → IsSized s b
    → i < b.num_pairs
    → table < num_tables
    → list_offset s i table + s.top_k ≤ length b.slots
list_fits s b i table sized hi ht =
    let below : suc (list_number i table) ≤ b.num_pairs * num_tables = omega arith in
    rw sized (grind arith)

lists_apart :
    (s : Sizes) (i table j other : ℕ)
    → table < num_tables
    → other < num_tables
    → (i ≢ j) ⊎ (table ≢ other)
    → (list_offset s j other + s.top_k ≤ list_offset s i table)
      ⊎ (list_offset s i table + s.top_k ≤ list_offset s j other)
lists_apart s i table j other ht ho apart =
    elim (dec_lt (list_number j other) (list_number i table)) [
      | yes before ↦ inl (offset_lt before)
      | no not_before ↦ inr (offset_lt (omega arith))
    ]
  where
    offset_lt : {a b : ℕ} → a < b → a * s.top_k + s.top_k ≤ b * s.top_k
    offset_lt h = grind arith

pub new_read_buffer-IsSized : (s : Sizes) (n : ℕ) → IsSized s (new_read_buffer s n)
unfolding new_read_buffer
new_read_buffer-IsSized s n = length-replicate _ empty_slot

-- A new buffer shows -1 everywhere.
pub new_read_buffer-blank :
    (s : Sizes) (n i table : ℕ)
    → i < n
    → table < num_tables
    → list_at s (new_read_buffer s n) i table ≡ replicate s.top_k empty_slot
unfolding new_read_buffer
new_read_buffer-blank s n i table hi ht =
    let total = n * num_tables * s.top_k in
    let off = list_offset s i table in
    let fits = list_fits s (new_read_buffer s n) i table (new_read_buffer-IsSized s n) hi ht in
    ap (take s.top_k) (drop-replicate off total empty_slot)
    ∙ take-replicate s.top_k (total - off) empty_slot
        (omega (arith, fits, length-replicate total empty_slot))

pub put_list-IsSized :
    (s : Sizes) (b : ReadBuffer) (i table : ℕ) (dst : List ℤ)
    → IsSized s b
    → IsSized s (put_list s b i table dst)
unfolding put_list
put_list-IsSized s b i table dst sized = length-splice b.slots (list_offset s i table) dst ∙ sized

pub list_mut-ok :
    (s : Sizes) (b : ReadBuffer) (i table : ℕ)
    → IsSized s b
    → i < b.num_pairs
    → table < num_tables
    → list_mut s b i table ≡ ok (list_at s b i table)
unfolding list_mut
list_mut-ok s b i table sized hi ht =
    slice-ok b.slots (list_offset s i table) s.top_k (list_fits s b i table sized hi ht)

-- A list reads back as it was written.
pub list_at-put_list_self :
    (s : Sizes) (b : ReadBuffer) (i table : ℕ) (dst : List ℤ)
    → IsSized s b
    → i < b.num_pairs
    → table < num_tables
    → length dst ≡ s.top_k
    → list_at s (put_list s b i table dst) i table ≡ dst
unfolding put_list
list_at-put_list_self s b i table dst sized hi ht size =
    let fits = list_fits s b i table sized hi ht in
    rw size at (slice-splice_self b.slots (list_offset s i table) dst (omega arith))

-- The other lists stay as they were.
pub list_at-put_list_other :
    (s : Sizes) (b : ReadBuffer) (i table j other : ℕ) (dst : List ℤ)
    → IsSized s b
    → j < b.num_pairs
    → table < num_tables
    → other < num_tables
    → length dst ≡ s.top_k
    → (i ≢ j) ⊎ (table ≢ other)
    → list_at s (put_list s b i table dst) j other ≡ list_at s b j other
unfolding put_list
list_at-put_list_other s b i table j other dst sized hj ht ho size apart =
    slice-splice_disjoint b.slots (list_offset s i table) dst (list_offset s j other) s.top_k
      (list_fits s b j other sized hj ho) (rw size (lists_apart s i table j other ht ho apart))
