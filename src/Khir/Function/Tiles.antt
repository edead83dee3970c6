-- ===== src/Khir/Function/Tiles.antt =====
-- khir/program_builder.cc: the blocks of a function cut its instructions into pieces. The blocks that
-- have ended, in the order in which they did, are runs of instructions one after the other, each with
-- a terminating instruction at its end and nowhere else; the open block is the rest.
use kushdb.Prelude.{
  ℕ, suc, ◌≤◌, ◌<◌, ◌≡◌, refl, sym, ap, ◌∙◌, subst, ◌≢◌, inl, inr, Bool, true, false, Option, none,
  some, List, [], ◌∷◌, ◌++◌, arith, length, get_or, Elem,
}
use kushdb.Khir.Opcode.{Opcode, is_terminating_instr}
use kushdb.Khir.Instr.{Instr, opcode}
use kushdb.Khir.Function.{Block, FunctionBuilder, new_block, no_instr}

-- What the pieces depend on.
pub record View : Type 0 where
  pub blocks : List Block
  pub order : List ℕ
  pub code : List (Instr Opcode)
  pub now : ℕ

abbrev pub view : FunctionBuilder → View
view f = record {
  blocks = f.basic_blocks;
  order = f.basic_block_order;
  code = f.instructions;
  now = f.current_basic_block;
}

abbrev pub block_at : View → ℕ → Block
block_at f b = get_or f.blocks b new_block

abbrev pub instruction : View → ℕ → Instr Opcode
instruction f i = get_or f.code i no_instr

abbrev pub ends : View → ℕ → Bool
ends f i = is_terminating_instr (opcode (instruction f i))

-- The instructions from lo up to hi do not end a block.
abbrev pub Straight : View → ℕ → ℕ → Type 0
Straight f lo hi = (i : ℕ) → lo ≤ i → i < hi → ends f i ≡ false

-- Block b is the instructions from lo to last, the last of them its terminating one.
pub record IsRun (f : View) (b lo last : ℕ) : Type 0 where
  pub starts_at : (block_at f b).first ≡ some lo
  pub ends_at : (block_at f b).second ≡ some last
  pub in_order : lo ≤ last
  pub inside : last < length f.code
  pub terminated : ends f last ≡ true
  pub straight : Straight f lo last

-- The blocks are runs that follow each other from lo up to hi.
abbrev pub Tiles : View → List ℕ → ℕ → ℕ → Type 0
Tiles f [] lo hi = lo ≡ hi
Tiles f (b ∷ bs) lo hi = (last : ℕ) × IsRun f b lo last × Tiles f bs (suc last) hi

-- The current block, when it is open: it has nothing yet, or the rest of the instructions.
abbrev pub Rest : View → Option ℕ → ℕ → Type 0
Rest f none hi = hi ≡ length f.code
Rest f (some lo) hi = (lo ≡ hi) × (hi < length f.code) × Straight f hi (length f.code)

abbrev pub Open : View → Option ℕ → ℕ → Type 0
Open f none hi = Rest f (block_at f f.now).first hi
Open f (some last) hi = hi ≡ length f.code

pub record IsTiled (f : View) : Type 0 where
  pub covered : ℕ
  pub tiles : Tiles f f.order 0 covered
  pub rest : Open f (block_at f f.now).second covered
  pub current_there : f.now < length f.blocks
  -- A block that is not the current one has ended or has nothing yet.
  pub others : (b : ℕ) → b ≢ f.now → (block_at f b).second ≡ none → (block_at f b).first ≡ none
  -- Only ended blocks are in the order.
  pub listed : (b : ℕ) → (block_at f b).second ≡ none → ¬ Elem b f.order

-- The runs stay as they are while their blocks and instructions do.
Straight-keep :
    (f g : View) (lo hi : ℕ)
    → ((i : ℕ) → i < hi → ends g i ≡ ends f i)
    → Straight f lo hi
    → Straight g lo hi
Straight-keep f g lo hi same h i p q = same i q ∙ h i p q

IsRun-keep :
    (f g : View) (b lo last : ℕ)
    → block_at g b ≡ block_at f b
    → ((i : ℕ) → i < length f.code → ends g i ≡ ends f i)
    → length f.code ≤ length g.code
    → IsRun f b lo last
    → IsRun g b lo last
IsRun-keep f g b lo last e same grows r = record {
  starts_at = ap (λ (x : Block). x.first) e ∙ r.starts_at;
  ends_at = ap (λ (x : Block). x.second) e ∙ r.ends_at;
  in_order = r.in_order;
  inside = omega (arith, r.inside);
  terminated = same last r.inside ∙ r.terminated;
  straight = Straight-keep f g lo last (λ i q. same i (omega (arith, r.inside))) r.straight;
}

pub Tiles-keep :
    (f g : View) (bs : List ℕ) (lo hi : ℕ)
    → ((b : ℕ) → Elem b bs → block_at g b ≡ block_at f b)
    → ((i : ℕ) → i < length f.code → ends g i ≡ ends f i)
    → length f.code ≤ length g.code
    → Tiles f bs lo hi
    → Tiles g bs lo hi
Tiles-keep f g [] lo hi e same grows t = t
Tiles-keep f g (b ∷ bs) lo hi e same grows (last, r, t) = (
  last,
  IsRun-keep f g b lo last (e b (inl refl)) same grows r,
  Tiles-keep f g bs (suc last) hi (λ c h. e c (inr h)) same grows t,
)

pub Tiles-snoc :
    (f : View) (bs : List ℕ) (b lo mid last : ℕ)
    → Tiles f bs lo mid
    → IsRun f b mid last
    → Tiles f (bs ++ (b ∷ [])) lo (suc last)
Tiles-snoc f [] b lo mid last e r = (last, subst (λ x. IsRun f b x last) (sym e) r, refl)
Tiles-snoc f (c ∷ bs) b lo mid last (l, q, t) r = (l, q, Tiles-snoc f bs b (suc l) mid last t r)
