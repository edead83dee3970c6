-- ===== src/Bucket.antt =====
-- runtime/column_index_bucket.cc: the buckets of a column index, which list the tuples that hold a
-- value, and the intersection of sorted buckets. An int32_t that counts tuples is a native number.
mod Search
mod Two
mod One
mod Many
mod Push
mod Least
mod Whole
mod Tests
use kushdb.Prelude.{
  ℕ, zero, suc, ◌+◌, ◌-◌, ◌/◌, Bool, true, false, Option, none, some, List, [], ◌∷◌, ◌++◌, map,
  take, set, ltb, leb, ◌==◌, ◌&&◌, ◌||◌, if◌then◌else◌, get_or, length, drop,
}
use kushdb.Prelude.Int.{double_int32}

-- `data` is the memory of `capacity` words, of which the first `size` are in use.
pub record Bucket : Type 0 where
  pub cells : List ℕ
  pub size : ℕ
  pub capacity : ℕ

abbrev pub int32_max : ℕ
int32_max = 2147483647

-- The words of a fresh piece of memory are whatever the allocator left there.
module _ (fresh : ℕ → List ℕ) where
  unfoldable pub bucket_init : Bucket
  bucket_init = record { cells = fresh 4; size = 0; capacity = 4 }

  unfoldable pub grow : Bucket → ℕ → Bucket
  grow v capacity = record v {
    cells = take v.size v.cells ++ drop v.size (fresh capacity);
    capacity = capacity;
  }

  abbrev pub write_last : Bucket → ℕ → Bucket
  write_last v idx = record v { cells = set v.cells v.size idx; size = v.size + 1 }

  -- None where the doubled capacity is no int32_t.
  unfoldable pub bucket_push_back : Bucket → ℕ → Option Bucket
  unfolding grow
  bucket_push_back v idx =
      if v.capacity == v.size
      then elim (double_int32 v.capacity) [
        | none ↦ none
        | some capacity ↦ some (write_last (grow v capacity) idx)
      ]
      else some (write_last v idx)

unfoldable pub get_bucket_value : Bucket → ℕ → ℕ
get_bucket_value b idx = get_or b.cells idx 0

-- What the search gives where `start + end` leaves int, which C++ does not define.
abbrev pub undefined_position : ℕ
undefined_position = int32_max

-- The binary search of FastForwardBucket. `stop` is `end + 1`, since `end` may be -1.
unfoldable pub search : ℕ → List ℕ → ℕ → ℕ → ℕ → ℕ → ℕ
search zero cells prev start stop next = next
search (suc fuel) cells prev start stop next =
    let mid = (start + (stop - 1)) / 2 in
    let right = search fuel cells prev (mid + 1) stop next in
    let left = search fuel cells prev start mid mid in
    if ltb start stop
    then if leb (start + (stop - 1)) int32_max
      then (if ltb (get_or cells mid 0) prev then right else left)
      else undefined_position
    else next

unfoldable pub fast_forward : Bucket → ℕ → ℕ
unfolding search
fast_forward b prev =
    if b.size == 0 then int32_max else search (b.size + 1) b.cells prev 0 b.size int32_max

unfoldable pub intersection_init : List Bucket → ℕ → List ℕ
unfolding fast_forward
intersection_init buckets next = map (λ b. fast_forward b next) buckets

-- The branch for one bucket: `room` is `result_max_size - result_size`. The result is the values
-- written and the state of the intersection.
unfoldable pub populate_one : ℕ → Bucket → ℕ → ℕ → List ℕ × ℕ
populate_one zero b s room = ([], s)
populate_one (suc fuel) b s room =
    let (out, s') = populate_one fuel b (s + 1) (room - 1) in
    if ltb s b.size && ltb 0 room then (get_or b.cells s 0 ∷ out, s') else ([], s)

-- What the branch for two buckets leaves behind: the values written and both states.
pub record Outcome : Type 0 where
  pub out : List ℕ
  pub left : ℕ
  pub right : ℕ

unfoldable pub populate_two : ℕ → Bucket → Bucket → ℕ → ℕ → ℕ → Outcome
unfolding fast_forward
populate_two zero a b s t room = record { out = []; left = s; right = t }
populate_two (suc fuel) a b s t room =
    let x = get_or a.cells s 0 in
    let y = get_or b.cells t 0 in
    let skip_left = populate_two fuel a b (fast_forward a y) t room in
    let skip_right = populate_two fuel a b s (fast_forward b x) room in
    let both = populate_two fuel a b (s + 1) (t + 1) (room - 1) in
    let hit : Outcome = record both { out = x ∷ both.out } in
    let stay : Outcome = record { out = []; left = s; right = t } in
    if ltb s a.size && ltb t b.size && ltb 0 room
    then (if ltb x y then skip_left else if ltb y x then skip_right else hit)
    else stay

-- `bucket_list[i]`. Past the end the C++ code has no bucket; no caller reads there.
abbrev pub no_bucket : Bucket
no_bucket = record { cells = []; size = 0; capacity = 0 }

abbrev pub nth : List Bucket → ℕ → Bucket
nth buckets i = get_or buckets i no_bucket

-- How the pass over the other buckets ends: all hold the candidate, one has no tuple left, or one
-- holds a greater tuple.
pub data Verdict : Type 0 where
  all_equal exhausted differs : Verdict

pub record Checked : Type 0 where
  pub verdict : Verdict
  pub states : List ℕ

-- The loop `for (int i = 0; i < bucket_list_size; i++)` over the buckets from the `i`-th on, for a
-- candidate of the bucket `least`, which is the one at `min_list`.
unfoldable pub check_lists : Bucket → ℕ → ℕ → ℕ → List Bucket → List ℕ → Checked
unfolding fast_forward
check_lists least min_list candidate i [] states = record { verdict = all_equal; states = states }
check_lists least min_list candidate i (b ∷ bs) states =
    let f = fast_forward b candidate in
    let current = get_or b.cells f 0 in
    let moved = set states i f in
    let skip = check_lists least min_list candidate (i + 1) bs states in
    let rest = check_lists least min_list candidate (i + 1) bs moved in
    let behind : Checked = record {
      verdict = differs;
      states = set moved min_list (fast_forward least current);
    } in
    if i == min_list
    then skip
    else if leb b.size f
    then record { verdict = exhausted; states = moved }
    else if ltb candidate current
    then behind
    else rest

pub record Scan : Type 0 where
  pub out : List ℕ
  pub states : List ℕ

-- `return`, `break` out of the pass, or a result.
abbrev pub by_verdict : Verdict → Scan → Scan → Scan → Scan
by_verdict exhausted ended further hit = ended
by_verdict differs ended further hit = further
by_verdict all_equal ended further hit = hit

-- The loop over the least list.
unfoldable pub scan_least : ℕ → List Bucket → ℕ → List ℕ → ℕ → Scan
unfolding check_lists
scan_least zero buckets min_list states room = record { out = []; states = states }
scan_least (suc fuel) buckets min_list states room =
    let least = nth buckets min_list in
    let idx = get_or states min_list 0 in
    let candidate = get_or least.cells idx 0 in
    let c = check_lists least min_list candidate 0 buckets states in
    let further = scan_least fuel buckets min_list c.states room in
    let next = scan_least fuel buckets min_list (set c.states min_list (idx + 1)) (room - 1) in
    let hit : Scan = record next { out = candidate ∷ next.out } in
    let ended : Scan = record { out = []; states = c.states } in
    let stay : Scan = record { out = []; states = states } in
    let round = by_verdict c.verdict ended further hit in
    if ltb idx least.size && ltb 0 room then round else stay

-- `if (intersection_state[i] >= bucket_list[i].size) return 0;`
unfoldable pub any_done : List Bucket → List ℕ → Bool
any_done (b ∷ bs) (s ∷ ss) = leb b.size s || any_done bs ss
any_done _ _ = false

-- The list with the fewest tuples left, from the `i`-th on; `best` is `min_list`.
unfoldable pub least_list : List Bucket → List ℕ → ℕ → List Bucket → ℕ → ℕ
least_list buckets states i [] best = best
least_list buckets states i (b ∷ bs) best = least_list buckets states (i + 1) bs (
    if ltb (b.size - get_or states i 0) ((nth buckets best).size - get_or states best 0)
    then i
    else best)

unfoldable pub populate_many : List Bucket → List ℕ → ℕ → Scan
unfolding any_done least_list scan_least
populate_many buckets states room =
    let min_list = least_list buckets states 1 (drop 1 buckets) 0 in
    let scan = scan_least ((nth buckets min_list).size + 1) buckets min_list states room in
    if any_done buckets states then record { out = []; states = states } else scan

unfoldable pub populate_result : List Bucket → List ℕ → ℕ → Scan
unfolding populate_one populate_two populate_many
populate_result [] states room = record { out = []; states = states }
populate_result (b ∷ []) states room =
    let (out, s) = populate_one (b.size + 1) b (get_or states 0 0) room in
    record { out = out; states = set states 0 s }
populate_result (a ∷ b ∷ []) states room =
    let o = populate_two (a.size + b.size + 1) a b (get_or states 0 0) (get_or states 1 0) room in
    record { out = o.out; states = set (set states 0 o.left) 1 o.right }
populate_result (a ∷ b ∷ c ∷ bs) states room = populate_many (a ∷ b ∷ c ∷ bs) states room

-- `n` buckets from the `i`-th on. `beyond` is what the memory behind the array reads as, a bucket
-- for each place.
abbrev pub buckets_from : (ℕ → Bucket) → List Bucket → ℕ → ℕ → List Bucket
buckets_from beyond buckets i zero = []
buckets_from beyond buckets i (suc n) =
    (if ltb i (length buckets) then nth buckets i else beyond (i - length buckets))
    ∷ buckets_from beyond buckets (i + 1) n

-- BucketListSortedIntersectionPopulateResultFilter: it builds the array of the filtered pointers,
-- but passes the first of them on as the start of an array of buckets.
unfoldable pub populate_result_filter : (ℕ → Bucket) → List Bucket → List ℕ → ℕ → List ℕ → Scan
unfolding populate_result
populate_result_filter beyond buckets states room [] = record { out = []; states = states }
populate_result_filter beyond buckets states room (f ∷ fs) =
    populate_result (buckets_from beyond buckets f (length fs + 1)) states room
