-- ===== src/MemoryPool/Chain.antt =====
-- Chains of free blocks: each block holds the index of the next one.
use cpp_torrent.Base.{
  ℕ, suc, ◌<◌, ◌≤◌, ◌≡◌, ◌≢◌, refl, sym, subst, List, [], ◌∷◌, ◌++◌, arith, length, get_or, set,
  get_or-set_self, get_or-set_ne, All, In, ◌==◌, ==_iff, if◌then◌else◌, Bool-cases, inl, inr,
}

-- From block `x` the blocks `free` follow one another, and the last one names `end`.
abbrev pub Linked : List ℕ → ℕ → List ℕ → ℕ → Type 0
Linked words x [] end = x ≡ end
Linked words x (y ∷ ys) end = (x ≡ y) × Linked words (get_or words y 0) ys end

-- `b` is not one of the blocks.
abbrev pub NotIn : ℕ → List ℕ → Type 0
NotIn b bs = All (λ y. y ≢ b) bs

abbrev pub Distinct : List ℕ → Type 0
Distinct [] = Unit {0}
Distinct (b ∷ bs) = NotIn b bs × Distinct bs

-- No block stands in both lists.
abbrev pub Disjoint : List ℕ → List ℕ → Type 0
Disjoint bs cs = All (λ b. NotIn b cs) bs

-- Writing to a block outside the chain leaves the chain.
pub Linked-set :
    (words : List ℕ) (x : ℕ) (free : List ℕ) (end b v : ℕ)
    → NotIn b free
    → Linked words x free end
    → Linked (set words b v) x free end
Linked-set words x [] end b v n l = l
Linked-set words x (y ∷ ys) end b v (h, n) (e, l) = (
  e,
  subst (λ w. Linked (set words b v) w ys end) (sym (get_or-set_ne words b y v 0 (λ q. h (sym q))))
      (Linked-set words (get_or words y 0) ys end b v n l),
)

-- The block at the end of the chain joins it, once it names a block itself.
pub Linked-snoc :
    (words : List ℕ) (x : ℕ) (free : List ℕ) (end v : ℕ)
    → end < length words
    → NotIn end free
    → Linked words x free end
    → Linked (set words end v) x (free ++ (end ∷ [])) v
Linked-snoc words x [] end v h n l = (l, get_or-set_self words end v 0 h)
Linked-snoc words x (y ∷ ys) end v h (k, n) (e, l) = (
  e,
  subst (λ w. Linked (set words end v) w (ys ++ (end ∷ [])) v)
      (sym (get_or-set_ne words end y v 0 (λ q. k (sym q))))
      (Linked-snoc words (get_or words y 0) ys end v h n l),
)

pub NotIn-below : (bs : List ℕ) (n : ℕ) → All (λ b. b < n) bs → NotIn n bs
NotIn-below [] n a = tt
NotIn-below (b ∷ bs) n (h, a) = (λ e. absurd (omega arith), NotIn-below bs n a)

pub All-snoc {κ} : (P : ℕ → Type κ) (bs : List ℕ) (b : ℕ) → All P bs → P b → All P (bs ++ (b ∷ []))
All-snoc P [] b a h = (h, tt)
All-snoc P (c ∷ bs) b (k, a) h = (k, All-snoc P bs b a h)

pub Distinct-snoc : (bs : List ℕ) (b : ℕ) → Distinct bs → NotIn b bs → Distinct (bs ++ (b ∷ []))
Distinct-snoc [] b d n = (tt, tt)
Distinct-snoc (c ∷ bs) b (m, d) (h, n) =
    (All-snoc (λ y. y ≢ c) bs b m (λ e. h (sym e)), Distinct-snoc bs b d n)

pub NotIn-comm : {b c : ℕ} → b ≢ c → c ≢ b
NotIn-comm h e = h (sym e)

pub Disjoint-below :
    (bs : List ℕ) (cs : List ℕ) (n : ℕ)
    → All (λ b. b < n) bs
    → Disjoint bs cs
    → Disjoint bs (cs ++ (n ∷ []))
Disjoint-below [] cs n a d = tt
Disjoint-below (b ∷ bs) cs n (h, a) (k, d) =
    (All-snoc (λ y. y ≢ b) cs n k (λ e. absurd (omega arith)), Disjoint-below bs cs n a d)

pub All-weaken : (bs : List ℕ) (n m : ℕ) → n ≤ m → All (λ b. b < n) bs → All (λ b. b < m) bs
All-weaken [] n m h a = tt
All-weaken (b ∷ bs) n m h (k, a) = (omega arith, All-weaken bs n m h a)

-- One block is taken out of a list.
unfoldable pub remove : ℕ → List ℕ → List ℕ
remove b [] = []
remove b (c ∷ cs) = if c == b then cs else c ∷ remove b cs

pub All-remove {κ} : (P : ℕ → Type κ) (b : ℕ) (cs : List ℕ) → All P cs → All P (remove b cs)
unfolding remove
All-remove P b [] a = tt
All-remove P b (c ∷ cs) (h, a) = elim (Bool-cases (c == b)) [
  | inl same ↦ rw same a
  | inr other ↦ rw other (h, All-remove P b cs a)
]

pub Distinct-remove : (b : ℕ) (cs : List ℕ) → Distinct cs → Distinct (remove b cs)
unfolding remove
Distinct-remove b [] d = tt
Distinct-remove b (c ∷ cs) (n, d) = elim (Bool-cases (c == b)) [
  | inl same ↦ rw same d
  | inr other ↦ rw other (All-remove (λ y. y ≢ c) b cs n, Distinct-remove b cs d)
]

pub NotIn-remove : (b : ℕ) (cs : List ℕ) → Distinct cs → NotIn b (remove b cs)
unfolding remove
NotIn-remove b [] d = tt
NotIn-remove b (c ∷ cs) (n, d) = elim (Bool-cases (c == b)) [
  | inl same ↦ rw same (subst (λ x. NotIn x cs) ((==_iff c b).0 same) n)
  | inr other ↦ rw other (ground arith, NotIn-remove b cs d)
]

pub length-remove : (b : ℕ) (cs : List ℕ) → In b cs → suc (length (remove b cs)) ≡ length cs
unfolding remove
length-remove b [] i = absurd i
length-remove b (c ∷ cs) i = elim (Bool-cases (c == b)) [
  | inl same ↦ rw same refl
  | inr other ↦ rw other (elim i [
    | inl here ↦ absurd (ground arith)
    | inr there ↦ omega (arith, length-remove b cs there)
  ])
]

pub All-In {κ} : (P : ℕ → Type κ) (b : ℕ) (cs : List ℕ) → All P cs → In b cs → P b
All-In P b [] a i = absurd i
All-In P b (c ∷ cs) (h, a) i = elim i [
  | inl here ↦ subst P (sym here) h
  | inr there ↦ All-In P b cs a there
]

pub Disjoint-head : (bs : List ℕ) (c : ℕ) (cs : List ℕ) → Disjoint bs (c ∷ cs) → NotIn c bs
Disjoint-head [] c cs d = tt
Disjoint-head (b ∷ bs) c cs (h, d) = (λ e. h.0 (sym e), Disjoint-head bs c cs d)

pub Disjoint-tail : (bs : List ℕ) (c : ℕ) (cs : List ℕ) → Disjoint bs (c ∷ cs) → Disjoint bs cs
Disjoint-tail [] c cs d = tt
Disjoint-tail (b ∷ bs) c cs (h, d) = (h.1, Disjoint-tail bs c cs d)

pub Disjoint-cons :
    (bs : List ℕ) (c : ℕ) (cs : List ℕ) → NotIn c bs → Disjoint bs cs → Disjoint bs (c ∷ cs)
Disjoint-cons [] c cs n d = tt
Disjoint-cons (b ∷ bs) c cs (h, n) (k, d) = ((λ e. h (sym e), k), Disjoint-cons bs c cs n d)
