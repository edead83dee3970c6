-- ===== src/Bucket/Tests.antt =====
-- Runs of the bucket operations, and each theorem at an input.
use kushdb.Prelude.{
  ℕ, ◌^◌, some, ◌≡◌, refl, List, [], ◌∷◌, ◌++◌, arith, replicate, length-replicate, length, zero,
  suc, ◌<◌, ◌≤◌, Bool, true, ltb, ◌&&◌,
}
use kushdb.Bucket.{
  Bucket, int32_max, fast_forward, bucket_push_back, intersection_init, populate_result,
  populate_result_filter,
}
use kushdb.Bucket.Search.{◌!◌, IsAscending, IsFirst, fast_forward-IsFirst}
use kushdb.Bucket.Push.{IsValid, contents, bucket_push_back_lem}
use kushdb.Bucket.Whole.{Collects, populate_result-Collects, populate_result_filter-tail}

-- Each number is greater than the one before it.
rises : ℕ → List ℕ → Bool
rises low [] = true
rises low (x ∷ xs) = ltb low x && rises x xs

rises-lt : (low : ℕ) (xs : List ℕ) (j : ℕ) → rises low xs ≡ true → j < length xs → low < xs ! j
unfolding rises
rises-lt low [] j h k = absurd (omega arith)
rises-lt low (x ∷ xs) zero h k = ground arith
rises-lt low (x ∷ xs) (suc j) h k = ground (arith, rises-lt x xs j)

rises-ordered :
    (low : ℕ) (xs : List ℕ) (i j : ℕ)
    → rises low xs ≡ true
    → i < j
    → j < length xs
    → xs ! i < xs ! j
unfolding rises
rises-ordered low [] i j h p q = absurd (omega arith)
rises-ordered low (x ∷ xs) i zero h p q = absurd (omega arith)
rises-ordered low (x ∷ xs) zero (suc j) h p q = ground (arith, rises-lt x xs j)
rises-ordered low (x ∷ xs) (suc i) (suc j) h p q = ground (arith, rises-ordered x xs i j)

module _ (x : ℕ) (xs : List ℕ) (capacity : ℕ) where
  abbrev bucket : Bucket
  bucket = record { cells = x ∷ xs; size = length (x ∷ xs); capacity = capacity }

  bucket-IsAscending : rises x xs ≡ true → length (x ∷ xs) ≤ 2 ^ 30 → IsAscending bucket
  bucket-IsAscending h k = record { small = k; ordered = λ i j p q. ordered i j p q }
    where
      ordered : (i j : ℕ) → i < j → j < length (x ∷ xs) → (x ∷ xs) ! i < (x ∷ xs) ! j
      ordered i zero p q = absurd (omega arith)
      ordered zero (suc j) p q = rises-lt x xs j h (omega arith)
      ordered (suc i) (suc j) p q = rises-ordered x xs i j h (omega arith) (omega arith)

abbrev first : Bucket
first = bucket 0 (4 ∷ 5 ∷ 8 ∷ 9 ∷ []) 5

abbrev second : Bucket
second = bucket 1 (4 ∷ 8 ∷ 9 ∷ []) 4

abbrev third : Bucket
third = bucket 4 (7 ∷ 9 ∷ 11 ∷ []) 4

first-IsAscending : IsAscending first
unfolding rises
first-IsAscending = bucket-IsAscending 0 _ 5 refl (omega arith)

second-IsAscending : IsAscending second
unfolding rises
second-IsAscending = bucket-IsAscending 1 _ 4 refl (omega arith)

third-IsAscending : IsAscending third
unfolding rises
third-IsAscending = bucket-IsAscending 4 _ 4 refl (omega arith)

fast_forward-runs : (fast_forward first 6 ≡ 3) × (fast_forward first 10 ≡ int32_max)
unfolding fast_forward
fast_forward-runs = (refl, refl)

three_lists : (populate_result (first ∷ second ∷ third ∷ []) (0 ∷ 0 ∷ 0 ∷ []) 10).out ≡ 4 ∷ 9 ∷ []
unfolding populate_result
three_lists = refl

-- The filter asks for the first and the third bucket, and gets the first two.
filter_reads_neighbours :
    (populate_result_filter
      (λ i. first)
      (first ∷ second ∷ third ∷ [])
      (0 ∷ 0 ∷ 0 ∷ [])
      10
      (0 ∷ 2 ∷ [])).out
    ≡ 4 ∷ 8 ∷ 9 ∷ []
unfolding populate_result_filter
filter_reads_neighbours = refl

fast_forward-IsFirst_example : IsFirst first 6 (fast_forward first 6)
fast_forward-IsFirst_example = fast_forward-IsFirst first first-IsAscending 6

populate_result-Collects_example :
    Collects
      (first ∷ second ∷ third ∷ [])
      5
      10
      (populate_result
        (first ∷ second ∷ third ∷ [])
        (intersection_init (first ∷ second ∷ third ∷ []) 5)
        10).out
populate_result-Collects_example =
    populate_result-Collects (first ∷ second ∷ third ∷ []) 5 10
      (first-IsAscending, (second-IsAscending, (third-IsAscending, tt))) (cc)

zeros : (n : ℕ) → length (replicate {A = ℕ} n 0) ≡ n
zeros n = length-replicate n 0

bucket_push_back_example :
    (v : Bucket) × (bucket_push_back (λ n. replicate n 0) first 12 ≡ some v)
    × IsValid v
    × (contents v ≡ contents first ++ (12 ∷ []))
bucket_push_back_example =
    bucket_push_back_lem (λ n. replicate n 0) zeros first 12 (omega arith) (omega arith)

-- Filters that name the third and the second bucket beside the first are not told apart.
populate_result_filter-tail_example :
    populate_result_filter
      (λ i. first)
      (first ∷ second ∷ third ∷ [])
      (0 ∷ 0 ∷ 0 ∷ [])
      10
      (0 ∷ 2 ∷ [])
    ≡ populate_result_filter
        (λ i. first)
        (first ∷ second ∷ third ∷ [])
        (0 ∷ 0 ∷ 0 ∷ [])
        10
        (0 ∷ 1 ∷ [])
populate_result_filter-tail_example =
    populate_result_filter-tail (λ i. first) (first ∷ second ∷ third ∷ []) (0 ∷ 0 ∷ 0 ∷ []) 10 0
      (2 ∷ []) (1 ∷ []) refl
