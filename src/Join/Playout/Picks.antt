-- ===== src/Join/Playout/Picks.antt =====
-- The tables that a playout picks: each once, connected ones first.
use kushdb.Prelude.{
  ℕ, zero, suc, ◌+◌, ◌<◌, ◌≡◌, refl, sym, ap, ◌∙◌, subst, ◌≢◌, ◌⊎◌, inl, inr, Bool, true, false,
  ◌||◌, none, some, List, [], ◌∷◌, ◌++◌, append_assoc, arith, ◌==◌, if◌then◌else◌, ==_iff, ==_ne,
  Bool-cases, length, set, length-append, Elem, Distinct,
}
use kushdb.Join.Playout.{
  contains, is_connected, find_connected, find_unjoined, next_table, fill_order,
}

pub contains-Elem : (us : List ℕ) (t : ℕ) → contains us t ≡ true → Elem t us
unfolding contains
contains-Elem [] t h = cc
contains-Elem (u ∷ us) t h = elim (Bool-cases (u == t)) [
  | inl e ↦ inl (sym ((==_iff u t).0 e))
  | inr e ↦ inr (contains-Elem us t (subst (λ b. (b || contains us t) ≡ true) e h))
]

pub Elem-contains : (us : List ℕ) (t : ℕ) → Elem t us → contains us t ≡ true
unfolding contains
Elem-contains [] t m = absurd m
Elem-contains (u ∷ us) t (inl e) = rw ((==_iff u t).1 (sym e)) refl
Elem-contains (u ∷ us) t (inr m) = rw (Elem-contains us t m) (or_true (u == t))
  where
    or_true : (a : Bool) → (a || true) ≡ true
    or_true a = ground arith

pub contains-cons :
    (u : ℕ) (us : List ℕ) (t : ℕ) → contains (u ∷ us) t ≡ false → (u ≢ t) × (contains us t ≡ false)
unfolding contains
contains-cons u us t h = let (a, b) = neither (u == t) (contains us t) h in (==_ne u t a, b)
  where
    neither : (a b : Bool) → (a || b) ≡ false → (a ≡ false) × (b ≡ false)
    neither a b h = ground arith

pub ==_no : (a b : ℕ) → a ≢ b → (a == b) ≡ false
==_no a b h = ground arith

-- How many tables of the list are not joined yet.
unfoldable pub left : List ℕ → List ℕ → ℕ
left joined [] = 0
left joined (t ∷ ts) = let rest = left joined ts in if contains joined t then rest else suc rest

left-other : (joined ts : List ℕ) (u : ℕ) → ¬ Elem u ts → left (u ∷ joined) ts ≡ left joined ts
unfolding left contains
left-other joined [] u h = refl
left-other joined (t ∷ ts) u h =
    rw (==_no u t (λ e. h (inl e)), left-other joined ts u (λ m. h (inr m)))

pub left-join :
    (joined ts : List ℕ) (u : ℕ)
    → Distinct ts
    → Elem u ts
    → contains joined u ≡ false
    → left (u ∷ joined) ts + 1 ≡ left joined ts
unfolding left contains
left-join joined [] u d m h = absurd m
left-join joined (t ∷ ts) u d (inl e) h =
    rw ((==_iff u t).1 e, sym e, h)
      (omega (arith, left-other joined ts u (subst (λ x. ¬ Elem x ts) (sym e) d.0)))
left-join joined (t ∷ ts) u d (inr m) h =
    rw (==_no u t (λ e. d.0 (subst (λ x. Elem x ts) e m))) (elim (Bool-cases (contains joined t)) [
      | inl c ↦ rw c (left-join joined ts u d.1 m h)
      | inr c ↦ rw c (omega (arith, left-join joined ts u d.1 m h))
    ])

set_next :
    (before rest : List ℕ) (r t : ℕ)
    → set (before ++ (r ∷ rest)) (length before) t ≡ (before ++ (t ∷ [])) ++ rest
set_next [] rest r t = refl
set_next (b ∷ before) rest r t = ap (λ l. b ∷ l) (set_next before rest r t)

module _ (table_connections : ℕ → ℕ → Bool) where
  find_connected-cases :
      (joined ts : List ℕ)
      → ((t : ℕ) × (find_connected table_connections joined ts ≡ some t)
          × Elem t ts
          × (contains joined t ≡ false)
          × (is_connected table_connections joined t ≡ true))
        ⊎ ((find_connected table_connections joined ts ≡ none)
            × ((u : ℕ)
                → Elem u ts
                → contains joined u ≡ false
                → is_connected table_connections joined u ≡ false))
  unfolding find_connected
  find_connected-cases joined [] = inr (refl, λ u m h. absurd m)
  find_connected-cases joined (t ∷ ts) = elim (find_connected-cases joined ts) [
    | inl (u, e, m, c, k) ↦ elim (Bool-cases (contains joined t)) [
      | inl a ↦ rw a (inl (u, e, inr m, c, k))
      | inr a ↦ elim (Bool-cases (is_connected table_connections joined t)) [
        | inl b ↦ rw (a, b) (inl (t, refl, inl refl, a, b))
        | inr b ↦ rw (a, b) (inl (u, e, inr m, c, k))
      ]
    ]
    | inr (e, n) ↦ elim (Bool-cases (contains joined t)) [
      | inl a ↦ rw a (
          inr (
            e,
            λ u m h. elim m [
              | inl i ↦ absurd (true-ne (sym a ∙ ap (contains joined) (sym i) ∙ h))
              | inr l ↦ n u l h
            ],
          ))
      | inr a ↦ elim (Bool-cases (is_connected table_connections joined t)) [
        | inl b ↦ rw (a, b) (inl (t, refl, inl refl, a, b))
        | inr b ↦ rw (a, b) (inr (e, λ u m h. elim m [ inl i ↦ rw i b | inr l ↦ n u l h ]))
      ]
    ]
  ]
    where
      true-ne : true ≡ false → ⊥
      true-ne h = cc

  find_unjoined-some :
      (joined ts : List ℕ)
      → 0 < left joined ts
      → (t : ℕ) × (find_unjoined joined ts ≡ some t) × Elem t ts × (contains joined t ≡ false)
  unfolding find_unjoined left
  find_unjoined-some joined [] h = absurd (omega arith)
  find_unjoined-some joined (t ∷ ts) h = elim (Bool-cases (contains joined t)) [
    | inl a ↦
        let (u, e, m, c) =
          find_unjoined-some joined ts
            (subst (λ b. 0 < (if b then left joined ts else suc (left joined ts))) a h) in
        rw a (u, e, inr m, c)
    | inr a ↦ rw a (t, refl, inl refl, a)
  ]

  module _ (unjoined : List ℕ) where
    -- A table that may come next: it is not joined yet, and it is connected to a table that is,
    -- unless no table left is.
    pub record Comes (joined : List ℕ) (t : ℕ) : Type 0 where
      pub waiting : Elem t unjoined
      pub new : contains joined t ≡ false
      pub connected :
          (is_connected table_connections joined t ≡ true)
          ⊎ ((u : ℕ)
              → Elem u unjoined
              → contains joined u ≡ false
              → is_connected table_connections joined u ≡ false)

    -- Tables that come one after the other.
    abbrev pub Follow : List ℕ → List ℕ → Type 0
    Follow joined [] = Unit
    Follow joined (t ∷ ts) = Comes joined t × Follow (t ∷ joined) ts

    next_table-Comes :
        (joined : List ℕ)
        → 0 < left joined unjoined
        → (t : ℕ) × (next_table table_connections joined unjoined ≡ some t) × Comes joined t
    unfolding next_table
    next_table-Comes joined h = elim (find_connected-cases joined unjoined) [
      | inl (t, e, m, c, k) ↦
          (t, rw (e, next_table), record { waiting = m; new = c; connected = inl k })
      | inr (e, n) ↦
          let (t, f, m, c) = find_unjoined-some joined unjoined h in
          (t, rw (e, next_table) f, record { waiting = m; new = c; connected = inr n })
    ]

    fill_step :
        (n pos t : ℕ) (joined order : List ℕ)
        → next_table table_connections joined unjoined ≡ some t
        → fill_order table_connections (suc n) pos unjoined joined order
          ≡ fill_order table_connections n (pos + 1) unjoined (t ∷ joined) (set order pos t)
    unfolding fill_order
    fill_step n pos t joined order e = rw (e, fill_order)

    pub fill_order-Follow :
        Distinct unjoined
        → (n : ℕ) (joined before rest : List ℕ) → left joined unjoined ≡ n
        → length rest ≡ n
        → (ps : List ℕ) × (fill_order table_connections n
              (length before)
              unjoined
              joined
              (before ++ rest)
            ≡ before ++ ps)
          × (length ps ≡ n)
          × Follow joined ps
    unfolding fill_order
    fill_order-Follow d zero joined before [] e l = ([], refl, refl, tt)
    fill_order-Follow d zero joined before (r ∷ rest) e l = absurd (omega arith)
    fill_order-Follow d (suc n) joined before [] e l = absurd (omega arith)
    fill_order-Follow d (suc n) joined before (r ∷ rest) e l =
        let (t, f, c) = next_table-Comes joined (omega (arith, e)) in
        let (ps, run, len, follow) =
          fill_order-Follow d n (t ∷ joined) (before ++ (t ∷ [])) rest
            (omega (arith, left-join joined unjoined t d c.waiting c.new, e)) (omega arith) in
        (
          t ∷ ps,
          fill_step n (length before) t joined (before ++ (r ∷ rest)) f
              ∙ ap (fill_order table_connections n (length before + 1) unjoined (t ∷ joined))
                  (set_next before rest r t)
              ∙ ap
                  (λ k.
                    fill_order table_connections n k unjoined (t ∷ joined)
                      ((before ++ (t ∷ [])) ++ rest))
                  (sym (length-append before (t ∷ [])))
              ∙ run
              ∙ append_assoc before (t ∷ []) ps,
          omega (arith, len),
          (c, follow),
        )
