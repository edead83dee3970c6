-- ===== src/Khir/Layout.antt =====
-- khir/instruction.cc: what a format promises. Its parts lie beside each other in the word, each with
-- a setter and a reader. A sequence of calls of the setters, in any order, leaves every part as it
-- was set last.
use kushdb.Prelude.{
  ℕ, ◌+◌, ◌≤◌, ◌<◌, ◌≡◌, refl, sym, ap, ◌∙◌, ◌⊎◌, inl, inr, Bool, false, List, [], ◌∷◌, arith, ◌==◌,
  ==_iff, ==_ne, if◌then◌else◌, Bool-cases, dec_lt,
}
use kushdb.Khir.Word.{Word, narrow}
use kushdb.Khir.Fields.{field_narrowed, put, field, field-put, field-put_other, narrow-narrow}

pub record Format (Part : Type 0) : Type 0 where
  pub lo : Part → ℕ
  pub width : Part → ℕ
  pub set : Part → Word → Word → Word
  pub read : Part → Word → Word

module _ {Part : Type 0} (format : Format Part) where
  abbrev pub same : Part → Part → Bool
  same p q = format.lo p == format.lo q

  -- The calls of the setters on the word that a builder starts with.
  abbrev pub run : List (Part × Word) → Word → Word
  run [] v = v
  run ((p, x) ∷ calls) v = run calls (format.set p v x)

  -- The last argument for a part, at the part's width, or what was there before.
  abbrev pub last_set : Part → List (Part × Word) → Word → Word
  last_set q [] old = old
  last_set q ((p, x) ∷ calls) old =
      last_set q calls (if same p q then narrow (format.width q) x else old)

-- The parts are apart from each other, and setters and readers are those of their places.
pub record IsLaid {Part : Type 0} (format : Format Part) : Type 0 where
  -- The width of a setter's argument.
  pub argument : Part → ℕ
  pub one_place : (p q : Part) → format.lo p ≡ format.lo q → p ≡ q
  pub in_order :
      (p q : Part) → format.lo p < format.lo q → format.lo p + format.width p ≤ format.lo q
  pub inside : (p : Part) → format.lo p + format.width p ≤ 64
  pub fits : (p : Part) → format.width p ≤ argument p
  pub sets :
      (p : Part) (v x : Word)
      → format.set p v x ≡ put (format.lo p) (format.width p) v (narrow (argument p) x)
  pub reads : (p : Part) (v : Word) → format.read p v ≡ field (format.lo p) (format.width p) v

module _ {Part : Type 0} (format : Format Part) (laid : IsLaid format) where
  read-set : (p : Part) (v x : Word) → format.read p (format.set p v x) ≡ narrow (format.width p) x
  read-set p v x =
      laid.reads p (format.set p v x)
      ∙ ap (field (format.lo p) (format.width p)) (laid.sets p v x)
      ∙ field-put (format.lo p) (format.width p) v (narrow (laid.argument p) x) (laid.inside p)
      ∙ narrow-narrow (laid.argument p) (format.width p) x (laid.fits p)

  apart :
      (p q : Part)
      → same format p q ≡ false
      → (format.lo q + format.width q ≤ format.lo p) ⊎ (format.lo p + format.width p ≤ format.lo q)
  apart p q h = elim (dec_lt (format.lo p) (format.lo q)) [
    | yes less ↦ inr (laid.in_order p q less)
    | no more ↦ inl (laid.in_order q p (omega (arith, more, ==_ne (format.lo p) (format.lo q) h)))
  ]

  read-set_other :
      (p q : Part) (v x : Word)
      → same format p q ≡ false
      → format.read q (format.set p v x) ≡ format.read q v
  read-set_other p q v x h =
      laid.reads q (format.set p v x)
      ∙ ap (field (format.lo q) (format.width q)) (laid.sets p v x)
      ∙ field-put_other (format.lo p) (format.width p) (format.lo q) (format.width q) v
          (narrow (laid.argument p) x) (apart p q h) (laid.inside q)
      ∙ sym (laid.reads q v)

  read-set_any :
      (p q : Part) (v x : Word)
      → format.read q (format.set p v x)
        ≡ (if same format p q then narrow (format.width q) x else format.read q v)
  read-set_any p q v x = elim (Bool-cases (same format p q)) [
    | inl h ↦ rw h (
        ap (λ r. format.read q (format.set r v x))
          (laid.one_place p q ((==_iff (format.lo p) (format.lo q)).0 h))
        ∙ read-set q v x)
    | inr h ↦ rw h (read-set_other p q v x h)
  ]

  pub read-run :
      (q : Part) (calls : List (Part × Word)) (v : Word)
      → format.read q (run format calls v) ≡ last_set format q calls (format.read q v)
  read-run q [] v = refl
  read-run q ((p, x) ∷ calls) v =
      read-run q calls (format.set p v x) ∙ ap (last_set format q calls) (read-set_any p q v x)

  -- A part that was last set to what w has there agrees with w.
  pub field-rebuilt :
      (q : Part) (calls : List (Part × Word)) (v w : Word)
      → last_set format q calls (format.read q v) ≡ narrow (format.width q) (format.read q w)
      → field (format.lo q) (format.width q) (run format calls v)
        ≡ field (format.lo q) (format.width q) w
  field-rebuilt q calls v w h =
      sym (laid.reads q (run format calls v))
      ∙ read-run q calls v
      ∙ h
      ∙ ap (narrow (format.width q)) (laid.reads q w)
      ∙ field_narrowed (format.lo q) (format.width q) w
