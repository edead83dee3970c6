-- ===== src/UnionFind/Laws.antt =====
-- Find returns roots and changes none; Union joins two sets and leaves the others alone.
use kushdb.Prelude.{
  ℕ, zero, suc, ◌<◌, ◌≡◌, sym, subst, ◌≢◌, List, arith, ℕ_discrete, ◌==◌, if◌then◌else◌, ==_iff,
  set, get_or,
}
use kushdb.UnionFind.{find, union}
use kushdb.UnionFind.Roots.{differ, up, here, Root, Root-top, Root-compressed, Root-joined}

-- The roots of one vector are those of the other, no farther away.
abbrev pub Keeps : List ℕ → List ℕ → Type 0
Keeps p q = (m j s : ℕ) → Root p m j s → Root q m j s

-- Where the root of an element is fewer steps away than the fuel, Find returns it, and every element
-- keeps its root, no farther away.
pub find-Keeps :
    (fuel n : ℕ) (p : List ℕ) (i r : ℕ)
    → Root p n i r
    → n < fuel
    → ((find fuel p i).1 ≡ r) × Keeps p (find fuel p i).0
unfolding find
find-Keeps zero n p i r q h = absurd (omega arith)
find-Keeps (suc fuel) n p i r (here a e k) h =
    rw ((==_iff (get_or p i 0) i).1 e) (sym k, λ m j s x. x)
find-Keeps (suc fuel) (suc n) p i r (up a e k) h =
    let (found, keeps) = find-Keeps fuel n p (get_or p i 0) r k (omega arith) in
    rw (differ (get_or p i 0) i e) (
      found,
      λ m j s x.
          subst (λ t. Root (set (find fuel p (get_or p i 0)).0 i t) m j s) (sym found)
            (Root-compressed (find fuel p (get_or p i 0)).0 i r (suc n)
              (keeps (suc n) i r (Root.up a e k)) (apart k) m j s (keeps m j s x)),
    )
  where
    apart : Root p n (get_or p i 0) r → i ≢ r
    apart k t = e (subst (λ x. get_or p x 0 ≡ x) (sym t) (Root-top p k).1)

Root-more : (p : List ℕ) {n i r : ℕ} → Root p n i r → Root p (suc n) i r
Root-more p (here a e h) = Root.here a e h
Root-more p (up a e h) = Root.up a e (Root-more p h)

-- Where the roots of both elements are fewer steps away than the fuel, Union gives every element
-- whose root was that of the first the root of the second, at most one step farther away, and leaves
-- the other elements their roots.
pub union-Root :
    (fuel n n' : ℕ) (p : List ℕ) (x y xset yset : ℕ)
    → Root p n x xset
    → Root p n' y yset
    → n < fuel
    → n' < fuel
    → (m j s : ℕ) → Root p m j s
    → Root (union fuel p x y) (suc m) j (if s == xset then yset else s)
unfolding union
union-Root fuel n n' p x y xset yset a b h k m j s q =
    let (found, keeps) = find-Keeps fuel n p x xset a h in
    let p' = (find fuel p x).0 in
    let (found', keeps') = find-Keeps fuel n' p' y yset (keeps n' y yset b) k in
    let p'' = (find fuel p' y).0 in
    let moved : Keeps p p'' = λ m j s r. keeps' m j s (keeps m j s r) in
    rw (found, found')
      (elim (ℕ_discrete xset yset) [
        | yes e ↦
            rw ((==_iff xset yset).1 e)
              (subst (Root p'' (suc m) j) (unchanged e) (Root-more p'' (moved m j s q)))
        | no e ↦ rw (differ xset yset e) (
            Root-joined p'' xset yset (Root-top p'' (moved n x xset a)).0
              (Root-top p'' (moved n x xset a)).1 (Root-top p'' (moved n' y yset b)).0
              (Root-top p'' (moved n' y yset b)).1 e m j s (moved m j s q))
      ])
  where
    unchanged : xset ≡ yset → s ≡ (if s == xset then yset else s)
    unchanged e = ground arith
