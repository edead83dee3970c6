-- ===== src/Bucket/Least.antt =====
-- The loop over the least list finds the tuples that all buckets hold.
use kushdb.Prelude.{
  ℕ, zero, suc, ◌+◌, ◌-◌, ◌≡◌, ◌<◌, ◌≤◌, ◌⊎◌, inl, inr, List, [], ◌∷◌, arith, ap, sym, ◌∙◌, refl,
  subst, Bool-cases, ltb, ltb→lt, ge_of_not_lt, length, length-set, set, get_or, get_or-set_self,
  ◌&&◌, true, false, Elem, Ascending, All,
}
use kushdb.Bucket.{
  Bucket, nth, fast_forward, Verdict, all_equal, exhausted, differs, Checked, check_lists,
  by_verdict, Scan, scan_least,
}
use kushdb.Bucket.Search.{◌!◌, IsAscending, fast_forward-IsFirst}
use kushdb.Bucket.Two.{Holds, Holds-weaken, fast_forward-lt}
use kushdb.Bucket.Many.{Common, Meaning, Says, check_lists-Says}

pub All-nth :
    (buckets : List Bucket) (m : ℕ)
    → All IsAscending buckets
    → m < length buckets
    → IsAscending (nth buckets m)
All-nth [] m asc h = absurd (omega arith)
All-nth (b ∷ bs) zero asc h = asc.0
All-nth (b ∷ bs) (suc m) asc h = All-nth bs m asc.1 (omega arith)

module _ (buckets : List Bucket) (asc : All IsAscending buckets) (m : ℕ)
    (inside : m < length buckets) where
  abbrev pub least : Bucket
  least = nth buckets m

  -- What the loop leaves behind when the state of the least list is `s`.
  pub record Scans (s room : ℕ) (o : Scan) : Type 0 where
    pub sound : (v : ℕ) → Elem v o.out → Common buckets v × Holds least s v
    pub complete :
        (i : ℕ)
        → s ≤ i
        → i < least.size
        → Common buckets (least.cells ! i)
        → Elem (least.cells ! i) o.out
          ⊎ ((length o.out ≡ room)
              × (get_or o.states m 0 ≤ i)
              × ((w : ℕ) → Elem w o.out → w < least.cells ! i))
    pub ordered : Ascending o.out
    pub fits : length o.out ≤ room

  asc_least : IsAscending least
  asc_least = All-nth buckets m asc inside

  monotone : (i j : ℕ) → i ≤ j → j < least.size → least.cells ! i ≤ least.cells ! j
  monotone i j h k = ground (arith, asc_least.ordered i j)

  stay :
      (s room : ℕ) (states : List ℕ)
      → get_or states m 0 ≡ s
      → (ltb s least.size && ltb 0 room) ≡ false
      → Scans s room (record { out = []; states = states })
  stay s room states e h = record {
    sound = λ v k. absurd k;
    complete = λ i p q c. inr (full i p q, omega arith, λ w k. absurd k);
    ordered = tt;
    fits = omega arith;
  }
    where
      full : (i : ℕ) → s ≤ i → i < least.size → ◌≡◌ {A = ℕ} 0 room
      full i p q = ground arith

  ended :
      (s room : ℕ) (states : List ℕ)
      → ((w : ℕ) → least.cells ! s ≤ w → ¬ Common buckets w)
      → Scans s room (record { out = []; states = states })
  ended s room states none = record {
    sound = λ v k. absurd k;
    complete = λ i p q c. absurd (none _ (monotone s i p q) c);
    ordered = tt;
    fits = omega arith;
  }

  further :
      (s room y : ℕ) (o : Scan)
      → s < least.size
      → least.cells ! s < y
      → ((w : ℕ) → least.cells ! s ≤ w → w < y → ¬ Common buckets w)
      → Scans (fast_forward least y) room o
      → Scans s room o
  further s room y o h less none r = record {
    sound = λ v k. (
      (r.sound v k).0,
      Holds-weaken least (omega (arith, fast_forward-lt least s y asc_least h less))
          (r.sound v k).1,
    );
    complete = λ i p q c. elim (Bool-cases (ltb i (fast_forward least y))) [
      | inl early ↦ absurd (
          none _ (monotone s i p q)
            ((fast_forward-IsFirst least asc_least y).below i (ltb→lt _ _ early) q) c)
      | inr late ↦ r.complete i (ge_of_not_lt _ _ late) q c
    ];
    ordered = r.ordered;
    fits = r.fits;
  }

  hit :
      (s room : ℕ) (o : Scan)
      → s < least.size
      → 0 < room
      → Common buckets (least.cells ! s)
      → Scans (s + 1) (room - 1) o
      → Scans s room (record o { out = least.cells ! s ∷ o.out })
  hit s room o h hr c r = record {
    sound = λ v k. elim k [
      | inl here ↦ (subst (Common buckets) (sym here) c, (s, omega arith, h, sym here))
      | inr rest ↦ ((r.sound v rest).0, Holds-weaken least (omega arith) (r.sound v rest).1)
    ];
    complete = λ i p q c'. elim (Bool-cases (ltb s i)) [
      | inl later ↦ elim (r.complete i (omega (arith, ltb→lt _ _ later)) q c') [
        | inl k ↦ inl (inr k)
        | inr (full, st, below) ↦ inr (
          omega arith,
          st,
          λ w k. elim k [
            | inl here ↦ omega (arith, here, asc_least.ordered s i (ltb→lt _ _ later) q)
            | inr rest ↦ below w rest
          ],
        )
      ]
      | inr now ↦ inl (inl (ap (λ k. least.cells ! k) (omega (arith, ge_of_not_lt s i now, p))))
    ];
    ordered = (λ v k. above v (r.sound v k).1, r.ordered);
    fits = omega (arith, r.fits);
  }
    where
      above : (v : ℕ) → Holds least (s + 1) v → least.cells ! s < v
      above v (i, p, q, e) = omega (arith, asc_least.ordered s i (omega arith) q)

  -- One round, by the verdict on the candidate.
  by_verdict-Scans :
      (s room : ℕ) (before after : List ℕ) (v : Verdict) (f next : Scan)
      → get_or before m 0 ≡ s
      → s < least.size
      → 0 < room
      → Meaning least m (least.cells ! s) buckets before v after
      → ((s' : ℕ) → get_or after m 0 ≡ s' → s < s' → Scans s' room f)
      → Scans (s + 1) (room - 1) next
      → Scans s room (
          by_verdict v
            (record { out = []; states = after })
            f
            (record next { out = least.cells ! s ∷ next.out }))
  by_verdict-Scans s room before after all_equal f next e h hr mean go_on r =
      hit s room next h hr mean.0 r
  by_verdict-Scans s room before after exhausted f next e h hr mean go_on r =
      ended s room after mean.0
  by_verdict-Scans s room before after differs f next e h hr (y, less, at, none) go_on r =
      further s room y f h less none (go_on _ at (fast_forward-lt least s y asc_least h less))

  pub scan_least-Scans :
      (fuel s room : ℕ) (states : List ℕ)
      → get_or states m 0 ≡ s
      → length states ≡ length buckets
      → least.size - s < fuel
      → Scans s room (scan_least fuel buckets m states room)
  unfolding scan_least
  scan_least-Scans zero s room states e len w = absurd (omega arith)
  scan_least-Scans (suc fuel) s room states e len w =
      subst (λ k. Scans k room (scan_least (suc fuel) buckets m states room)) e
        (elim (Bool-cases (ltb s' least.size && ltb 0 room)) [
          | inr no_more ↦ rw no_more (stay s' room states refl no_more)
          | inl more ↦ rw more (
              by_verdict-Scans s' room states checked.states checked.verdict _ _ refl
                (in_least more).0 (in_least more).1 (says (in_least more).0).1
                (λ t et lt.
                  scan_least-Scans fuel t room checked.states et (kept (in_least more).0)
                    (omega (arith, w, e, (in_least more).0)))
                (scan_least-Scans fuel (s' + 1) (room - 1) (set checked.states m (s' + 1))
                  (get_or-set_self checked.states m (s' + 1) 0
                    (omega (arith, kept (in_least more).0, inside)))
                  (length-set checked.states m (s' + 1) ∙ kept (in_least more).0)
                  (omega (arith, w, e, (in_least more).0))))
        ])
    where
      s' : ℕ
      s' = get_or states m 0

      checked : Checked
      checked = check_lists least m (least.cells ! s') 0 buckets states

      in_least : (ltb s' least.size && ltb 0 room) ≡ true → (s' < least.size) × (0 < room)
      in_least h = ground arith

      says : s' < least.size → Says least m (least.cells ! s') buckets states checked
      says h =
          check_lists-Says least m (least.cells ! s') 0 buckets states (s', omega arith, h, refl)
            asc (omega arith) (λ k ek hk. ap (nth buckets) (omega (arith, ek)))

      kept : s' < least.size → length checked.states ≡ length buckets
      kept h = (says h).0 ∙ len
