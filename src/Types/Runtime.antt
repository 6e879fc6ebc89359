-- ===== src/Types/Runtime.antt =====
-- What the program relies on in Go's runtime and standard library.
use mathlib.Core.List.{Pairwise}
use priority_service_poc.Base.{List, Perm}
use priority_service_poc.Base.Int.{ℤ, ◌≤ℤ◌}
use priority_service_poc.Types.{ScoreEntry}
use priority_service_poc.Types.Float.{Float32}

-- Scores do not rise along the list.
abbrev pub IsDescending : List ScoreEntry → Type 0
IsDescending = Pairwise (λ a b. b.score ≤ℤ a.score)

-- `float_overflow` is int32(x) for an x that does not fit. `sort_desc` is
-- sort.Slice(s, func(i, j int) bool { return s[i].score > s[j].score }): documented to sort, with
-- entries of one score in any order.
pub record Runtime : Type 0 where
  pub float_overflow : Float32 → ℤ
  pub sort_desc : List ScoreEntry → List ScoreEntry
  pub sort_desc-perm : (l : List ScoreEntry) → Perm (sort_desc l) l
  pub sort_desc-IsDescending : (l : List ScoreEntry) → IsDescending (sort_desc l)
