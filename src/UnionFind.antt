-- ===== src/UnionFind.antt =====
-- util/union_find.cc: disjoint sets as a vector of parents.
mod Roots
mod Laws
mod Tests
use kushdb.Prelude.{
  ℕ, zero, suc, ◌+◌, ◌-◌, ◌*◌, ◌/◌, ◌%◌, ◌^◌, ◌≤◌, ◌<◌, ◌≡◌, refl, sym, ap, ◌∙◌, subst, ◌≢◌, ◌↔◌,
  ◌⊎◌, inl, inr, Bool, true, false, not, ◌&&◌, ◌||◌, Option, none, some, List, [], ◌∷◌, ◌++◌, map,
  reverse, reverse-append, append_assoc, append-nil, arith, dec_lt, ℕ_discrete, ltb, leb, ◌==◌,
  if◌then◌else◌, ltb→lt, lt→ltb, leb→le, le→leb, lt_of_not_leb, leb_of_lt, ltb_of_le, ge_of_not_lt,
  ==_iff, ==_ne, Bool-cases, Option-cases, length, get_elem?, set, length-append, length-set,
  get_or, take, drop, replicate, length-take, take-set, take-append_take, length-drop,
  length-replicate, length-map, Elem, Ascending, All, get_or-set_self, get_or-set_ne, Distinct,
  Elem-append, Elem-append_left, Elem-append_right, reverse-cons, Elem-reverse, reverse-Elem,
  Distinct-reverse, Distinct-apart, Distinct-append, Permᴰ-Elem, Permᴰ-Distinct, Permᴰ-length,
  Distinct-right, All-of_Elem, All-at, All-reverse,
}

-- Find, with the vector that it leaves: `fuel` exceeds the steps to the root.
unfoldable pub find : ℕ → List ℕ → ℕ → List ℕ × ℕ
find zero parent i = (parent, i)
find (suc fuel) parent i =
    let above = find fuel parent (get_or parent i 0) in
    if get_or parent i 0 == i then (parent, i) else (set above.0 i above.1, above.1)

unfoldable pub union : ℕ → List ℕ → ℕ → ℕ → List ℕ
unfolding find
union fuel parent x y =
    let (parent', xset) = find fuel parent x in
    let (parent'', yset) = find fuel parent' y in
    if xset == yset then parent'' else set parent'' xset yset
