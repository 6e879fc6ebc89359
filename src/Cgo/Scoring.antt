-- ===== src/Cgo/Scoring.antt =====
-- go-cgo-impl/scoring_bridge.go, and the C kernel that it calls in go-cgo-impl/scoring.c. The matrix is
-- an array of int16_t on the C heap. A read or a write outside the allocation, and through a freed
-- pointer, is undefined in C: such a run ends in `panic` here.
pub mod Kernel
pub mod Live
use priority_service_poc.Base.{
  ℕ, zero, suc, ◌+◌, ◌*◌, ◌^◌, ◌-◌, List, Bool, true, false, ◌||◌, ◌&&◌, Option, none, some, length,
  replicate, ltb, leb, ◌==◌, if◌then◌else◌,
}
use priority_service_poc.Base.Int.{ℤ, pos, negsuc, ◌+ℤ◌, geb_ℤ, gtb_ℤ}
use priority_service_poc.Base.Run.{Run, ok, panic, load, store, ◌>>=◌}
use priority_service_poc.Types.{Sizes}

-- `int32_t v = (int32_t)row[o] + delta_scores[o]`. A sum that is no int32_t is undefined in C:
-- `int_overflow` is what the compiled kernel makes of it.
unfoldable pub c_add : (ℤ → ℤ) → ℤ → ℤ → ℤ
c_add int_overflow x d =
    let v = x +ℤ d in
    if geb_ℤ v (negsuc (2 ^ 31 - 1)) && geb_ℤ (pos (2 ^ 31 - 1)) v then v else int_overflow v

unfoldable pub saturate : ℤ → ℤ
saturate v =
    if gtb_ℤ v (pos 32767) then pos 32767 else if gtb_ℤ (negsuc 32766) v then negsuc 32766 else v

-- The inner loop over `o` of update_all_scores_i16, with the rounds that are left; the row starts at the
-- cell `base`.
unfoldable pub update_cells : (ℤ → ℤ) → List ℤ → ℕ → ℕ → ℕ → List ℤ → Run (List ℤ)
unfolding c_add saturate
update_cells int_overflow delta base zero o cells = ok cells
update_cells int_overflow delta base (suc rounds) o cells = do
  x ← load cells (base + o)
  d ← load delta o
  cells' ← store cells (base + o) (saturate (c_add int_overflow x d))
  update_cells int_overflow delta base rounds (suc o) cells'

-- The outer loop over `p`, with the rounds that are left; `first` is the cell that the pointer shows.
unfoldable pub update_all_scores : (ℤ → ℤ) → List ℤ → ℕ → ℕ → ℕ → ℕ → List ℤ → Run (List ℤ)
unfolding update_cells
update_all_scores int_overflow delta num_orders first zero p cells = ok cells
update_all_scores int_overflow delta num_orders first (suc rounds) p cells =
    update_cells int_overflow delta (first + p * num_orders) num_orders 0 cells
    >>= update_all_scores int_overflow delta num_orders first rounds (suc p)

-- The loop of evict_order_scores, with the rounds that are left.
unfoldable pub evict_order_scores : ℕ → ℕ → ℕ → ℕ → List ℤ → Run (List ℤ)
evict_order_scores order_id num_orders zero p cells = ok cells
evict_order_scores order_id num_orders (suc rounds) p cells =
    store cells (p * num_orders + order_id) (pos 0)
    >>= evict_order_scores order_id num_orders rounds (suc p)

-- `ptr` is none after Free.
pub record PpsMatrix : Type 0 where
  pub ptr : Option (List ℤ)
  pub num_pps : ℕ

-- `allocated` is whether calloc returned memory.
unfoldable pub new_pps_matrix : Sizes → Bool → ℕ → Run PpsMatrix
new_pps_matrix s true num_pps =
    ok (record { ptr = some (replicate (num_pps * s.num_orders) (pos 0)); num_pps = num_pps })
new_pps_matrix s false num_pps = panic

unfoldable pub free : PpsMatrix → PpsMatrix
free m = record m { ptr = none }

-- The slice that Row returns is a view of C memory that starts at the cell `start`.
pub record RowView : Type 0 where
  pub memory : Option (List ℤ)
  pub start : ℕ
  pub size : ℕ

abbrev view_of : Option (List ℤ) → ℕ → ℕ → Run RowView
view_of none zero zero = ok (record { memory = none; start = 0; size = 0 })
view_of none zero (suc size) = panic
view_of none (suc start) size = ok (record { memory = none; start = suc start; size = size })
view_of (some cells) start size = ok (record { memory = some cells; start = start; size = size })

-- There is no test of `pps_id`. unsafe.Slice panics on the nil pointer, unless the length is 0.
unfoldable pub row : Sizes → PpsMatrix → ℕ → Run RowView
row s m pps_id = view_of m.ptr (pps_id * s.num_orders) s.num_orders

abbrev read_memory : Option (List ℤ) → ℕ → Run ℤ
read_memory none i = panic
read_memory (some cells) i = load cells i

-- `row[o]`: Go tests the length of the slice, not the bounds of the allocation.
unfoldable pub read_row : RowView → ℕ → Run ℤ
read_row v o = if ltb o v.size then read_memory v.memory (v.start + o) else panic

abbrev write_memory : Option (List ℤ) → ℕ → ℤ → Run (Option (List ℤ))
write_memory none i x = panic
write_memory (some cells) i x = store cells i x >>= λ cells'. ok (some cells')

-- `row[o] = x`: the memory afterwards.
unfoldable pub write_row : RowView → ℕ → ℤ → Run (Option (List ℤ))
write_row v o x = if ltb o v.size then write_memory v.memory (v.start + o) x else panic

-- The calls of the kernel, which a nil pointer makes do nothing.
abbrev with_memory : PpsMatrix → Option (List ℤ) → (List ℤ → Run (List ℤ)) → Run PpsMatrix
with_memory m none kernel = ok m
with_memory m (some cells) kernel = kernel cells >>= λ cells'. ok (record m { ptr = some cells' })

unfoldable pub evict_order : Sizes → PpsMatrix → ℕ → Run PpsMatrix
unfolding evict_order_scores
evict_order s m order_id =
    if leb s.num_orders order_id
    then ok m
    else with_memory m m.ptr (evict_order_scores order_id s.num_orders m.num_pps 0)

unfoldable pub c_update_row_range : Sizes → (ℤ → ℤ) → PpsMatrix → ℕ → ℕ → List ℤ → Run PpsMatrix
unfolding update_all_scores
c_update_row_range s int_overflow m start_row num_rows delta =
    if num_rows == 0 || length delta == 0
    then ok m
    else with_memory m m.ptr
        (update_all_scores int_overflow delta s.num_orders (start_row * s.num_orders) num_rows 0)

unfoldable pub c_update_all_scores : Sizes → (ℤ → ℤ) → PpsMatrix → List ℤ → Run PpsMatrix
unfolding update_all_scores
c_update_all_scores s int_overflow m delta =
    if length delta == 0 || m.num_pps == 0
    then ok m
    else with_memory m m.ptr (update_all_scores int_overflow delta s.num_orders 0 m.num_pps 0)
