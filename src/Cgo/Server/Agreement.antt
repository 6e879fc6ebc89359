-- ===== src/Cgo/Server/Agreement.antt =====
-- What the servers of the two Go variants have in common: GetTopK in server.go of go-pure-impl and of
-- go-cgo-impl.
use priority_service_poc.Base.{
  get_elem?-get_or, Bool, true, ℕ, zero, suc, ◌+◌, ◌≤◌, ◌<◌, ◌≡◌, refl, sym, ap, List, [], ◌∷◌,
  some, arith, length, take, drop, get_or, ltb, false, if◌then◌else◌,
}
use priority_service_poc.Base.Int.{ℤ, eqb_ℤ}
use priority_service_poc.Base.Run.{ok, load-ok}
use priority_service_poc.Base.Dict.{lookup}
use priority_service_poc.Base.Slices.{drop_step}
use priority_service_poc.Types.{Sizes, num_tables}
use priority_service_poc.Buffer.{ReadBuffer, list_offset, empty_slot, IsSized, load_buffer}
use priority_service_poc.Buffer.Slots.{list_at, list_fits}
use priority_service_poc.Topology.{status_active, get}
use priority_service_poc.Server.{
  GetTopKRequest, GetTopKResponse, PriorityServer, effective_k, answered, get_top_k, read_lists,
}
use priority_service_poc.Server.Answers.{
  key_of, four_lists, copy_list-take, effective_k_bound, take-take,
}
use priority_service_poc.Cgo.Server.{
  get_top_k as cgo_get_top_k, get_list, filled_slots, view_lists, replied,
}

-- The entries before the first -1.
abbrev pub until_empty : List ℤ → List ℤ
until_empty [] = []
until_empty (v ∷ vs) = if eqb_ℤ v empty_slot then [] else (v ∷ until_empty vs)

abbrev pub lists_until_empty : GetTopKResponse → GetTopKResponse
lists_until_empty r = record {
  heuristic = until_empty r.heuristic;
  large = until_empty r.large;
  pbt = until_empty r.pbt;
  critical = until_empty r.critical;
}

if-ok :
    (test : Bool) (xs ys : List ℤ) → (if test then ok xs else ok ys) ≡ ok (if test then xs else ys)
if-ok true xs ys = refl
if-ok false xs ys = refl

filled_slots-until_empty :
    (slots : List ℤ) (off k : ℕ)
    → off + k ≤ length slots
    → filled_slots slots off k ≡ ok (until_empty (take k (drop off slots)))
unfolding filled_slots
filled_slots-until_empty slots off zero h = refl
filled_slots-until_empty slots off (suc k) h =
    let v = get_or slots off empty_slot in
    rw
      (
        load-ok slots off (get_elem?-get_or slots off empty_slot (omega arith)),
        drop_step slots off empty_slot (omega arith),
        filled_slots-until_empty slots (suc off) k (omega arith),
      )
      (if-ok (eqb_ℤ v empty_slot) [] (v ∷ until_empty (take k (drop (suc off) slots))))

get_list-until_empty :
    (s : Sizes) (b : ReadBuffer) (i t k : ℕ)
    → IsSized s b
    → i < b.num_pairs
    → t < num_tables
    → k ≤ s.top_k
    → get_list s b i t k ≡ ok (until_empty (take k (list_at s b i t)))
unfolding get_list
get_list-until_empty s b i t k sized hi ht hk =
    let fits = list_fits s b i t sized hi ht in
    let within : ltb s.top_k k ≡ false = ground arith in
    rw (within, filled_slots-until_empty b.slots (list_offset s i t) k (omega (arith, fits)))
      (ap (λ vs. ok (until_empty vs))
        (sym (take-take k s.top_k (drop (list_offset s i t) b.slots) hk)))

-- For an active pair that the index leads to a row of the buffer, GetTopK of the pure variant returns,
-- without a panic, the first `effective_k` slots of the four lists, and GetTopK of the cgo variant
-- returns, without a panic, the same lists, each cut at its first empty slot.
pub get_top_k_agrees :
    (s : Sizes) (srv : PriorityServer) (req : GetTopKRequest) (i : ℕ)
    → IsSized s srv.db.ptr
    → i < srv.db.ptr.num_pairs
    → get srv.topology (key_of req) ≡ some status_active
    → lookup (key_of req) srv.pair_index ≡ some i
    → (get_top_k s srv req ≡ ok (answered (four_lists s srv.db.ptr i (effective_k s req.k))))
      × (cgo_get_top_k s srv req
          ≡ ok (replied (lists_until_empty (four_lists s srv.db.ptr i (effective_k s req.k)))))
unfolding view_lists read_lists load_buffer get get_top_k cgo_get_top_k
get_top_k_agrees s srv req i sized hi active indexed =
    let b = srv.db.ptr in
    let k = effective_k s req.k in
    let hk = effective_k_bound s req.k in
    (
      rw
          (
            active,
            indexed,
            copy_list-take s b i 0 k sized hi (omega arith) hk,
            copy_list-take s b i 1 k sized hi (omega arith) hk,
            copy_list-take s b i 2 k sized hi (omega arith) hk,
            copy_list-take s b i 3 k sized hi (omega arith) hk,
          )
          refl,
      rw
          (
            active,
            indexed,
            get_list-until_empty s b i 0 k sized hi (omega arith) hk,
            get_list-until_empty s b i 1 k sized hi (omega arith) hk,
            get_list-until_empty s b i 2 k sized hi (omega arith) hk,
            get_list-until_empty s b i 3 k sized hi (omega arith) hk,
          )
          refl,
    )
