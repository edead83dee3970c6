-- ===== src/Bucket/Whole.antt =====
-- Init and PopulateResult together: the tuples from `next` on that all buckets hold.
use kushdb.Prelude.{
  ap, length-map, drop, ℕ, zero, suc, ◌+◌, ◌≡◌, ◌≢◌, ◌<◌, ◌≤◌, ◌⊎◌, inl, inr, List, [], ◌∷◌, arith,
  sym, ◌∙◌, refl, Bool-cases, ltb, leb, leb→le, ltb→lt, ge_of_not_lt, length, length-drop,
  length-drop, get_or, true, Elem, Ascending, All, subst,
}
use kushdb.Bucket.{
  buckets_from, populate_result_filter, Bucket, Outcome, nth, fast_forward, Scan, any_done,
  least_list, populate_many, populate_result, intersection_init,
}
use kushdb.Bucket.Search.{IsAscending, fast_forward-IsFirst}
use kushdb.Bucket.Two.{Holds, Holds-weaken, Intersects, populate_two-Intersects}
use kushdb.Bucket.One.{Reads, populate_one-Reads}
use kushdb.Bucket.Many.{Common}
use kushdb.Bucket.Least.{Scans, scan_least-Scans, All-nth}

-- The values written, for all buckets, from `next` on, with room for `room` of them.
pub record Collects (buckets : List Bucket) (next room : ℕ) (out : List ℕ) : Type 0 where
  pub sound : (v : ℕ) → Elem v out → Common buckets v × (next ≤ v)
  pub complete :
      (v : ℕ)
      → Common buckets v
      → next ≤ v
      → Elem v out ⊎ ((length out ≡ room) × ((w : ℕ) → Elem w out → w < v))
  pub ordered : Ascending out
  pub fits : length out ≤ room

module _ (b : Bucket) (asc : IsAscending b) (next : ℕ) where
  -- What a bucket holds from `next` on it holds behind the first such tuple.
  from_first : (v : ℕ) → Holds b 0 v → next ≤ v → Holds b (fast_forward b next) v
  from_first v (i, _, q, e) h = elim (Bool-cases (ltb i (fast_forward b next))) [
    | inl early ↦
        absurd (omega (arith, (fast_forward-IsFirst b asc next).below i (ltb→lt _ _ early) q, e))
    | inr late ↦ (i, ge_of_not_lt _ _ late, q, e)
  ]

  first_le : (v : ℕ) → Holds b (fast_forward b next) v → next ≤ v
  first_le v (i, p, q, e) = elim (fast_forward-IsFirst b asc next).found [
    | inl past ↦ absurd (omega arith)
    | inr at ↦ ground (arith, asc.ordered (fast_forward b next) i)
  ]

module _ (next room : ℕ) where
  collect_one :
      (b : Bucket) (out : List ℕ)
      → IsAscending b
      → Reads b (fast_forward b next) room out
      → Collects (b ∷ []) next room out
  collect_one b out asc r = record {
    sound = λ v k.
        ((Holds-weaken b (omega arith) (r.sound v k), tt), first_le b asc next v (r.sound v k));
    complete = λ v c h. found v (from_first b asc next v c.0 h);
    ordered = r.ordered;
    fits = r.fits;
  }
    where
      found :
          (v : ℕ)
          → Holds b (fast_forward b next) v
          → Elem v out ⊎ ((length out ≡ room) × ((w : ℕ) → Elem w out → w < v))
      found v (i, p, q, e) =
          subst (λ x. Elem x out ⊎ ((length out ≡ room) × ((w : ℕ) → Elem w out → w < x))) e
            (r.complete i p q)

  collect_two :
      (a b : Bucket) (o : Outcome)
      → IsAscending a
      → IsAscending b
      → Intersects a b (fast_forward a next) (fast_forward b next) room o
      → Collects (a ∷ b ∷ []) next room o.out
  collect_two a b o asc_a asc_b r = record {
    sound = λ v k. (
      (
        Holds-weaken a (omega arith) (r.sound v k).0,
        (Holds-weaken b (omega arith) (r.sound v k).1, tt),
      ),
      first_le a asc_a next v (r.sound v k).0,
    );
    complete =
        λ v c h. found v (from_first a asc_a next v c.0 h) (from_first b asc_b next v c.1.0 h);
    ordered = r.ordered;
    fits = r.fits;
  }
    where
      left_over :
          (i j : ℕ) → i < a.size → j < b.size → o.left ≤ i → o.right ≤ j → length o.out ≡ room
      left_over i j p q h k = elim r.stops [ inl full ↦ full | inr ended ↦ absurd (omega arith) ]

      found :
          (v : ℕ)
          → Holds a (fast_forward a next) v
          → Holds b (fast_forward b next) v
          → Elem v o.out ⊎ ((length o.out ≡ room) × ((w : ℕ) → Elem w o.out → w < v))
      found v (i, p, q, e) (j, p', q', e') = elim (r.complete i j p q p' q' (e ∙ sym e')) [
        | inl k ↦ inl (subst (λ x. Elem x o.out) e k)
        | inr (h, h') ↦ inr (left_over i j q q' h h', λ w k. omega (arith, r.passed w i k h q, e))
      ]

Common-nth :
    (buckets : List Bucket) (m v : ℕ)
    → Common buckets v
    → m < length buckets
    → Holds (nth buckets m) 0 v
Common-nth [] m v c h = absurd (omega arith)
Common-nth (b ∷ bs) zero v c h = c.0
Common-nth (b ∷ bs) (suc m) v c h = Common-nth bs m v c.1 (omega arith)

get_or-init :
    (buckets : List Bucket) (next m : ℕ)
    → m < length buckets
    → get_or (intersection_init buckets next) m 0 ≡ fast_forward (nth buckets m) next
unfolding intersection_init
get_or-init [] next m h = absurd (omega arith)
get_or-init (b ∷ bs) next zero h = refl
get_or-init (b ∷ bs) next (suc m) h = get_or-init bs next m (omega arith)

length-init :
    (buckets : List Bucket) (next : ℕ) → length (intersection_init buckets next) ≡ length buckets
unfolding intersection_init
length-init bs next = length-map bs (λ b. fast_forward b next)

-- A bucket with no tuple left leaves nothing to find.
any_done-none :
    (buckets : List Bucket) (next v : ℕ)
    → All IsAscending buckets
    → any_done buckets (intersection_init buckets next) ≡ true
    → next ≤ v
    → ¬ Common buckets v
unfolding any_done intersection_init
any_done-none [] next v asc h le c = cc
any_done-none (b ∷ bs) next v asc h le c = elim (Bool-cases (leb b.size (fast_forward b next))) [
  | inl past ↦ gone (from_first b asc.0 next v c.0 le) (leb→le _ _ past)
  | inr present ↦ any_done-none bs next v asc.1 (rw present at h) le c.1
]
  where
    gone : Holds b (fast_forward b next) v → b.size ≤ fast_forward b next → ⊥
    gone (i, p, q, e) k = omega arith

least_list-lt :
    (buckets : List Bucket) (states : List ℕ) (i : ℕ) (bs : List Bucket) (best : ℕ)
    → i + length bs ≤ length buckets
    → best < length buckets
    → least_list buckets states i bs best < length buckets
unfolding least_list
least_list-lt buckets states i [] best h k = k
least_list-lt buckets states i (b ∷ bs) best h k =
    least_list-lt buckets states (i + 1) bs _ (omega arith) (ground arith)

module _ (buckets : List Bucket) (asc : All IsAscending buckets) (next room : ℕ) where
  collect_many :
      (m : ℕ) (inside : m < length buckets) (o : Scan)
      → Scans buckets asc m inside (fast_forward (nth buckets m) next) room o
      → Collects buckets next room o.out
  collect_many m inside o r = record {
    sound = λ v k. ((r.sound v k).0, first_le least asc_least next v (r.sound v k).1);
    complete =
        λ v c h. found v c (from_first least asc_least next v (Common-nth buckets m v c inside) h);
    ordered = r.ordered;
    fits = r.fits;
  }
    where
      least : Bucket
      least = nth buckets m

      asc_least : IsAscending least
      asc_least = All-nth buckets m asc inside

      found :
          (v : ℕ)
          → Common buckets v
          → Holds least (fast_forward least next) v
          → Elem v o.out ⊎ ((length o.out ≡ room) × ((w : ℕ) → Elem w o.out → w < v))
      found v c (i, p, q, e) = elim (r.complete i p q (subst (Common buckets) (sym e) c)) [
        | inl k ↦ inl (subst (λ x. Elem x o.out) e k)
        | inr (full, _, below) ↦ inr (full, λ w k. omega (arith, below w k, e))
      ]

  nothing : ((v : ℕ) → next ≤ v → ¬ Common buckets v) → Collects buckets next room []
  nothing none = record {
    sound = λ v k. absurd k;
    complete = λ v c h. absurd (none v h c);
    ordered = tt;
    fits = omega arith;
  }

  populate_many-Collects :
      0 < length buckets
      → Collects buckets next room (populate_many buckets (intersection_init buckets next) room).out
  unfolding populate_many
  populate_many-Collects some_bucket = elim (Bool-cases (any_done buckets states)) [
    | inl done ↦ rw done (nothing (λ v h. any_done-none buckets next v asc done h))
    | inr go_on ↦ rw go_on (
        collect_many m inside _ (
          scan_least-Scans buckets asc m inside ((nth buckets m).size + 1) _ room states
            (get_or-init buckets next m inside) (length-init buckets next) (omega arith)))
  ]
    where
      states : List ℕ
      states = intersection_init buckets next

      m : ℕ
      m = least_list buckets states 1 (drop 1 buckets) 0

      inside : m < length buckets
      inside =
          least_list-lt buckets states 1 (drop 1 buckets) 0 (omega (arith, length-drop 1 buckets))
            some_bucket

-- On ascending buckets, at least one of them, each of at most 2 ^ 30 tuples, PopulateResult after
-- Init at `next` writes the first `room` of the tuples from `next` on that every bucket holds: each
-- value written is held by all buckets and at least `next`, each such tuple is written unless the
-- result is full of lesser ones, and the values ascend.
pub populate_result-Collects :
    (buckets : List Bucket) (next room : ℕ)
    → All IsAscending buckets
    → buckets ≢ []
    → Collects buckets next room (populate_result buckets (intersection_init buckets next) room).out
unfolding populate_result intersection_init
populate_result-Collects [] next room asc ne = absurd (ne refl)
populate_result-Collects (b ∷ []) next room asc ne =
    collect_one next room b _ asc.0
      (populate_one-Reads b asc.0 (b.size + 1) (fast_forward b next) room (omega arith))
populate_result-Collects (a ∷ b ∷ []) next room asc ne = collect_two next room a b _ asc.0 asc.1.0 (
    populate_two-Intersects a b asc.0 asc.1.0 (a.size + b.size + 1) (fast_forward a next)
      (fast_forward b next) room (omega arith))
populate_result-Collects (a ∷ b ∷ c ∷ bs) next room asc ne =
    populate_many-Collects (a ∷ b ∷ c ∷ bs) asc next room (omega arith)

-- Two filters with the same first entry and the same number of entries give the same result of
-- PopulateResultFilter, whatever lies behind the array of buckets, so the entries behind the first
-- are not read.
pub populate_result_filter-tail :
    (beyond : ℕ → Bucket) (buckets : List Bucket) (states : List ℕ) (room f : ℕ) (fs gs : List ℕ)
    → length fs ≡ length gs
    → populate_result_filter beyond buckets states room (f ∷ fs)
      ≡ populate_result_filter beyond buckets states room (f ∷ gs)
unfolding populate_result_filter
populate_result_filter-tail beyond buckets states room f fs gs e =
    ap (λ n. populate_result (buckets_from beyond buckets f (n + 1)) states room) e
