-- ===== src/Khir/Fields.antt =====
-- A field of a word: `width` bits from bit `lo` on. What is put there is read there, and the other
-- fields stay as they were.
use kushdb.Prelude.{
  ℕ, ◌+◌, ◌-◌, ◌≤◌, ◌<◌, ◌≡◌, refl, sym, ap, ◌∙◌, ◌⊎◌, inl, inr, Bool, true, false, not, ◌&&◌, ◌||◌,
  arith, dec_lt, ltb, leb, ltb→lt, lt→ltb, le→leb, leb_of_lt, ltb_of_le, ge_of_not_lt, Bool-cases,
}
use kushdb.Khir.Word.{Word, ones, narrow, bit_and, bit_or, bit_not, shift_left, shift_right}
use mathlib.Core.Path.{fun_ext}

abbrev pub mask : ℕ → ℕ → Word
mask lo width = shift_left (ones width) lo

abbrev pub put : ℕ → ℕ → Word → Word → Word
put lo width v x =
    bit_or (bit_and v (bit_not (mask lo width))) (bit_and (shift_left x lo) (mask lo width))

abbrev pub field : ℕ → ℕ → Word → Word
field lo width v = bit_and (shift_right v lo) (ones width)

takes_new : (a b : Bool) → (a && false || b && true) ≡ b
takes_new a b = ground arith

keeps_old : (a b : Bool) → (a && true || b && false) ≡ a
keeps_old a b = ground arith

pub absorbs_true : (a : Bool) → (a && true) ≡ a
absorbs_true a = ground arith

pub absorbs_false : (a : Bool) → (a && false) ≡ false
absorbs_false a = ground arith

in_mask : (lo width i : ℕ) → lo ≤ i → i < lo + width → lo + width ≤ 64 → mask lo width i ≡ true
in_mask lo width i a b fits =
    rw (le→leb lo i a, lt→ltb i 64 (omega arith), lt→ltb (i - lo) width (omega arith)) refl

out_of_mask : (lo width i : ℕ) → (i < lo) ⊎ (lo + width ≤ i) → mask lo width i ≡ false
out_of_mask lo width i (inl h) = rw (leb_of_lt lo i h) refl
out_of_mask lo width i (inr h) =
    rw (le→leb lo i (omega arith), ltb_of_le (i - lo) width (omega arith))
      (absorbs_false (ltb i 64))

pub put-new :
    (lo width : ℕ) (v x : Word) (i : ℕ)
    → i < width
    → lo + width ≤ 64
    → put lo width v x (i + lo) ≡ x i
put-new lo width v x i h fits =
    rw
      (
        in_mask lo width (i + lo) (omega arith) (omega arith) fits,
        lt→ltb (i + lo) 64 (omega arith),
        le→leb lo (i + lo) (omega arith),
      )
      (takes_new (v (i + lo)) (x (i + lo - lo)) ∙ ap x (omega arith))

pub put-old :
    (lo width : ℕ) (v x : Word) (i : ℕ)
    → (i < lo) ⊎ (lo + width ≤ i)
    → i < 64
    → put lo width v x i ≡ v i
put-old lo width v x i h fits = rw (out_of_mask lo width i h, lt→ltb i 64 fits) (keeps_old (v i) _)

-- What is put into a field is read from it.
pub field-put :
    (lo width : ℕ) (v x : Word)
    → lo + width ≤ 64
    → field lo width (put lo width v x) ≡ narrow width x
field-put lo width v x fits = fun_ext (λ i. elim (Bool-cases (ltb i width)) [
  | inl h ↦ rw (h, put-new lo width v x i (ltb→lt i width h) fits) (absorbs_true (x i))
  | inr h ↦ rw h (absorbs_false (put lo width v x (i + lo)))
])

-- Another field stays as it was.
pub field-put_other :
    (lo width lo' width' : ℕ) (v x : Word)
    → (lo' + width' ≤ lo) ⊎ (lo + width ≤ lo')
    → lo' + width' ≤ 64
    → field lo' width' (put lo width v x) ≡ field lo' width' v
field-put_other lo width lo' width' v x apart fits = fun_ext (λ i.
    elim (Bool-cases (ltb i width')) [
      | inl h ↦
          ap (λ b. b && ltb i width')
            (put-old lo width v x (i + lo')
              (elim apart [
                | inl below ↦ inl (omega (arith, ltb→lt i width' h))
                | inr above ↦ inr (omega arith)
              ])
              (omega (arith, ltb→lt i width' h)))
      | inr h ↦
          rw h (absorbs_false (put lo width v x (i + lo')) ∙ sym (absorbs_false (v (i + lo'))))
    ])

-- A bit inside a field is known from the field.
pub bit_of_field :
    (lo width : ℕ) (v w : Word) (i : ℕ)
    → field lo width v ≡ field lo width w
    → lo ≤ i
    → i < lo + width
    → v i ≡ w i
bit_of_field lo width v w i e a b =
    ap v (omega arith)
    ∙ sym (absorbs_true (v (i - lo + lo)))
    ∙ ap (λ t. v (i - lo + lo) && t) (sym inside)
    ∙ ap (λ (f : Word). f (i - lo)) e
    ∙ ap (λ t. w (i - lo + lo) && t) inside
    ∙ absorbs_true (w (i - lo + lo))
    ∙ ap w (omega arith)
  where
    inside : ltb (i - lo) width ≡ true
    inside = lt→ltb (i - lo) width (omega arith)

pub put-high : (lo width : ℕ) (v x : Word) (i : ℕ) → 64 ≤ i → put lo width v x i ≡ false
put-high lo width v x i h = rw (ltb_of_le i 64 h) (nowhere (v i) (leb lo i))
  where
    nowhere : (a b : Bool) → (a && false || (b && false) && (b && false)) ≡ false
    nowhere a b = ground arith

-- Bits beyond the field are not put there.
pub put-narrow : (lo w : ℕ) (v x : Word) → put lo w v (narrow w x) ≡ put lo w v x
put-narrow lo w v x = fun_ext (λ i. elim (Bool-cases (ltb (i - lo) w)) [
  | inl e ↦ rw e refl
  | inr e ↦ rw e (masked (v i) (leb lo i) (ltb i 64) (x (i - lo)))
])
  where
    masked :
        (a b c d : Bool)
        → (a && (c && not (b && (c && false))) || (b && (c && (false && d))) && (b && (c && false)))
          ≡ (a && (c && not (b && (c && false))) || (b && (c && d)) && (b && (c && false)))
    masked a b c d = ground arith

pub narrow-narrow : (n w : ℕ) (x : Word) → w ≤ n → narrow w (narrow n x) ≡ narrow w x
narrow-narrow n w x h = fun_ext (λ i. elim (Bool-cases (ltb i w)) [
  | inl e ↦ rw (e, lt→ltb i n (omega (arith, ltb→lt i w e)))
  | inr e ↦ rw e
])

pub narrow-field : (n lo w : ℕ) (v : Word) → w ≤ n → narrow n (field lo w v) ≡ field lo w v
narrow-field n lo w v h = fun_ext (λ i. elim (Bool-cases (ltb i w)) [
  | inl e ↦ rw (lt→ltb i n (omega (arith, ltb→lt i w e)))
  | inr e ↦ rw (e, absorbs_false (v (i + lo))) (absorbs_false (ltb i n))
])

pub field_narrowed : (lo w : ℕ) (v : Word) → narrow w (field lo w v) ≡ field lo w v
field_narrowed lo w v = narrow-field w lo w v (omega arith)

-- Words that agree below a bit agree below the end of a field from there on that they share.
abbrev pub Agree : Word → Word → ℕ → Type 0
Agree a b n = (i : ℕ) → i < n → a i ≡ b i

pub Agree-step :
    (a b : Word) (lo w : ℕ) → Agree a b lo → field lo w a ≡ field lo w b → Agree a b (lo + w)
Agree-step a b lo w h e i p = elim (dec_lt i lo) [
  | yes q ↦ h i q
  | no q ↦ bit_of_field lo w a b i e (omega arith) p
]

-- Words that agree below bit 64, the first of them of 64 bits.
pub Agree-whole : (a b : Word) → Agree a b 64 → ((i : ℕ) → 64 ≤ i → a i ≡ false) → a ≡ narrow 64 b
Agree-whole a b h high = fun_ext (λ i. elim (Bool-cases (ltb i 64)) [
  | inl e ↦ rw e (h i (ltb→lt i 64 e))
  | inr e ↦ rw e (high i (ge_of_not_lt i 64 e))
])
