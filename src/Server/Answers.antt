-- ===== src/Server/Answers.antt =====
-- GetTopK: the lists of an active pair.
use priority_service_poc.Base.{
  ℕ, zero, suc, ◌+◌, ◌*◌, ◌≤◌, ◌<◌, ◌≡◌, ◌≢◌, refl, sym, ap, ◌∙◌, List, [], ◌∷◌, some, arith,
  length, length-take, length-replicate, get_elem?, take, drop, replicate, ltb, lt_of_get_elem?,
  false, ◌∷◌, length-drop, leb,
}
use priority_service_poc.Base.Int.{ℤ, pos, pos_parts, negsuc, negsuc_parts}
use priority_service_poc.Base.Run.{ok, Returns, returns, Returns-bind, panic}
use priority_service_poc.Base.Dict.{lookup}
use priority_service_poc.Base.Slices.{splice_whole, slice-ok, slice}
use priority_service_poc.Types.{Sizes, PairInfo, make_pair_key, num_tables}
use priority_service_poc.Buffer.{ReadBuffer, get_list, load_buffer, list_offset, IsSized}
use priority_service_poc.Buffer.Slots.{list_at, list_fits}
use priority_service_poc.Topology.{status_active, status_removed, get}
use priority_service_poc.Rank.Lists.{IsRanked}
use priority_service_poc.Rank.Prefix.{IsRanked-take}
use priority_service_poc.Rank.Pass.{Table, heuristic, large, pbt, critical}
use priority_service_poc.Rank.Write.{tbl}
use priority_service_poc.Rank.Pair.{pair_entries}
use priority_service_poc.Phase2.{RankInput}
use priority_service_poc.Phase2.Workers.{IsRankedBuffer}
use priority_service_poc.Server.{
  GetTopKRequest, GetTopKResponse, Msg, ApiError, Answer, answered, PriorityServer, effective_k,
  copy_list, read_lists, get_top_k, refresh_pair_index,
}
use priority_service_poc.Server.Index.{KeysDistinct, refresh_pair_index-lookup}

abbrev pub api_error : ℕ → Msg → ApiError
api_error code msg = record { code = code; msg = msg }

abbrev pub key_of : GetTopKRequest → ℕ
key_of req = make_pair_key req.pps_id req.bin_tag_id

pub effective_k_bound : (s : Sizes) (k : ℤ) → effective_k s k ≤ s.top_k
unfolding effective_k
effective_k_bound s (pos n) = ground (arith, pos_parts 0, pos_parts s.top_k, pos_parts n)
effective_k_bound s (negsuc n) = ground (arith, pos_parts 0, pos_parts s.top_k, negsuc_parts n)

effective_k_positive : (s : Sizes) (k : ℤ) → 0 < s.top_k → 0 < effective_k s k
unfolding effective_k
effective_k_positive s (pos n) h = ground (arith, pos_parts 0, pos_parts s.top_k, pos_parts n)
effective_k_positive s (negsuc n) h = ground (arith, pos_parts 0, pos_parts s.top_k, negsuc_parts n)

pub take-take : (k n : ℕ) (xs : List ℤ) → k ≤ n → take k (take n xs) ≡ take k xs
take-take zero n xs h = refl
take-take (suc k) zero xs h = absurd (omega arith)
take-take (suc k) (suc n) [] h = refl
take-take (suc k) (suc n) (x ∷ xs) h = ap (◌∷◌ x) (take-take k n xs (omega arith))

pub copy_list-take :
    (s : Sizes) (b : ReadBuffer) (i t k : ℕ)
    → IsSized s b
    → i < b.num_pairs
    → t < num_tables
    → k ≤ s.top_k
    → copy_list s b i t k ≡ ok (take k (list_at s b i t))
unfolding copy_list get_list
copy_list-take s b i t k sized hi ht hk =
    let fits = list_fits s b i t sized hi ht in
    let within : ltb s.top_k k ≡ false = ground arith in
    rw (within, slice-ok b.slots (list_offset s i t) k (omega (arith, fits)))
      (ap ok (
        splice_whole (replicate k (pos 0)) (take k (drop (list_offset s i t) b.slots)) (
          length-take k (drop (list_offset s i t) b.slots)
          ∙ omega
              (arith, fits, length-drop (list_offset s i t) b.slots, length-replicate k (pos 0)))
        ∙ sym (take-take k s.top_k (drop (list_offset s i t) b.slots) hk)))

-- The list of the answer for a table.
abbrev pub list_of_answer : Table → GetTopKResponse → List ℤ
list_of_answer heuristic resp = resp.heuristic
list_of_answer large resp = resp.large
list_of_answer pbt resp = resp.pbt
list_of_answer critical resp = resp.critical

abbrev pub four_lists : Sizes → ReadBuffer → ℕ → ℕ → GetTopKResponse
four_lists s b i k = record {
  heuristic = take k (list_at s b i 0);
  large = take k (list_at s b i 1);
  pbt = take k (list_at s b i 2);
  critical = take k (list_at s b i 3);
}

pub taken :
    (s : Sizes) (b : ReadBuffer) (i k : ℕ) (t : Table)
    → list_of_answer t (four_lists s b i k) ≡ take k (list_at s b i (tbl t))
taken s b i k heuristic = refl
taken s b i k large = refl
taken s b i k pbt = refl
taken s b i k critical = refl

read_lists-take :
    (s : Sizes) (b : ReadBuffer) (i k : ℕ)
    → IsSized s b
    → i < b.num_pairs
    → k ≤ s.top_k
    → Returns
        (λ resp. (t : Table) → list_of_answer t resp ≡ take k (list_at s b i (tbl t)))
        (read_lists s b i k)
unfolding read_lists
read_lists-take s b i k sized hi hk =
    rw
      (
        copy_list-take s b i 0 k sized hi (omega arith) hk,
        copy_list-take s b i 1 k sized hi (omega arith) hk,
        copy_list-take s b i 2 k sized hi (omega arith) hk,
        copy_list-take s b i 3 k sized hi (omega arith) hk,
      )
      (returns (taken s b i k))

-- The answer for the pair at index `j`: four rankings of its top entries, as of the ranked input.
pub data IsAnswer (s : Sizes) (input : RankInput) (pair : PairInfo) (k : ℕ) : Answer → Type 0 where
  is_answer :
      {resp : GetTopKResponse}
      → ((t : Table)
          → IsRanked k (pair_entries s input.tables input.now_secs pair t) (list_of_answer t resp))
      → IsAnswer s input pair k (answered resp)

-- Once the buffer that Phase 2 made of an input is published and the index is refreshed with the pairs
-- of that input, of distinct keys, GetTopK answers the request for an active pair among them that was
-- not removed when it was ranked, without a panic: each of its four lists ranks the top entries of the
-- pair, as many as the request asks for, or `top_k` for a number out of range.
pub get_top_k-IsAnswer :
    (s : Sizes) (input : RankInput) (srv : PriorityServer) (req : GetTopKRequest) (j : ℕ)
    (pair : PairInfo)
    → IsRankedBuffer s input srv.db.ptr
    → KeysDistinct input.pairs
    → get_elem? input.pairs j ≡ some pair
    → key_of req ≡ pair.key
    → get input.topology pair.key ≢ some status_removed
    → get srv.topology pair.key ≡ some status_active
    → Returns
        (IsAnswer s input pair (effective_k s req.k))
        (get_top_k s (refresh_pair_index srv input.pairs) req)
unfolding get_top_k load_buffer
get_top_k-IsAnswer s input srv req j pair ranked distinct at named kept active =
    let k = effective_k s req.k in
    let within = effective_k_bound s req.k in
    let inside : j < srv.db.ptr.num_pairs =
      omega (arith, ranked.pairs, lt_of_get_elem? input.pairs j at) in
    let found = (refresh_pair_index-lookup srv input.pairs distinct).0 j pair at in
    let same_topology : (refresh_pair_index srv input.pairs).topology ≡ srv.topology =
      unfold refresh_pair_index in refl in
    let same_db : (refresh_pair_index srv input.pairs).db ≡ srv.db =
      unfold refresh_pair_index in refl in
    rw (named, same_topology, active, found, same_db)
      (Returns-bind (read_lists-take s srv.db.ptr j k ranked.sized inside within) λ resp lists.
        returns (
          is_answer λ t. rw (lists t) (
            IsRanked-take k s.top_k (pair_entries s input.tables input.now_secs pair t)
              (list_at s srv.db.ptr j (tbl t)) within ((ranked.shows j pair at).ranked kept t))))

copy_list-beyond :
    (s : Sizes) (b : ReadBuffer) (i k : ℕ)
    → 0 < k
    → k ≤ s.top_k
    → IsSized s b
    → b.num_pairs ≤ i
    → copy_list s b i 0 k ≡ panic
unfolding copy_list get_list slice
copy_list-beyond s b i k some_k hk sized out =
    let within : ltb s.top_k k ≡ false = ground arith in
    let below : b.num_pairs * num_tables * s.top_k ≤ (i * num_tables + 0) * s.top_k =
      grind (arith, out) in
    let past : leb (list_offset s i 0 + k) (length b.slots) ≡ false =
      ground (arith, sized, below) in
    rw (within, past) refl

-- A pair that is active and indexed beyond the rows of the buffer makes GetTopK panic.
pub get_top_k-beyond :
    (s : Sizes) (srv : PriorityServer) (req : GetTopKRequest) (i : ℕ)
    → 0 < s.top_k
    → IsSized s srv.db.ptr
    → srv.db.ptr.num_pairs ≤ i
    → get srv.topology (key_of req) ≡ some status_active
    → lookup (key_of req) srv.pair_index ≡ some i
    → get_top_k s srv req ≡ panic
unfolding get_top_k load_buffer read_lists
get_top_k-beyond s srv req i some_k sized out active indexed =
    let k = effective_k s req.k in
    rw
      (
        active,
        indexed,
        copy_list-beyond s srv.db.ptr i k (effective_k_positive s req.k some_k)
            (effective_k_bound s req.k) sized out,
      )
      refl
