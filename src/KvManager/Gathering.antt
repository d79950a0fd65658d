-- ===== src/KvManager/Gathering.antt =====
-- korith_vllm_ext/amf_kv_manager.py: blocks that are gathered, flattened, split again and scattered.
use axropus_deploy.Prelude.{
  ℕ, zero, suc, ◌*◌, ◌≤◌, ◌<◌, ◌≡◌, refl, sym, ap, ◌∙◌, true, false, List, [], ◌∷◌, some, ◌==◌,
  arith, length, get_elem?, set, any_of, All, length-append, length-set, get_elem?-set_lem, inl,
  inr, Option-cases,
}
use axropus_deploy.KvManager.{Blocks, gather, concat}
use axropus_deploy.KvManager.Words.{Bytes, take_whole, drop_whole}
use axropus_deploy.KvManager.Packing.{some_inj, option_ne}
use axropus_deploy.KvManager.Store.{split, to_blocks, scatter}

-- Every block has as many bytes.
abbrev pub Sized : ℕ → Blocks → Type 0
Sized size = All (λ b. length b ≡ size)

abbrev pub InRange : List ℕ → Blocks → Type 0
InRange table t = All (λ i. i < length t) table

abbrev pub Distinct : List ℕ → Type 0
Distinct [] = Unit
Distinct (i ∷ is) = (any_of (λ j. j == i) is ≡ false) × Distinct is

pub length-concat : (size : ℕ) (bs : Blocks) → Sized size bs → length (concat bs) ≡ length bs * size
length-concat size [] h = omega arith
length-concat size (b ∷ bs) h =
    grind (arith, length-append b (concat bs), length-concat size bs h.1, h.0)

pub split-concat :
    (size : ℕ) (bs : Blocks) → Sized size bs → split (length bs) size (concat bs) ≡ bs
split-concat size [] h = refl
split-concat size (b ∷ bs) h =
    rw
      (
        take_whole b (concat bs) size (sym h.0),
        drop_whole b (concat bs) size (sym h.0),
        split-concat size bs h.1,
      )
      refl

pub to_blocks-concat :
    (size n : ℕ) (bs : Blocks)
    → Sized size bs
    → n ≡ length bs
    → 1 ≤ n * size
    → to_blocks n size (concat bs) ≡ some bs
to_blocks-concat size n bs h same some_bytes =
    let measured = length-concat size bs h in
    let whole : length (concat bs) ≡ n * size = rw same measured in
    let nonzero : (length (concat bs) == 0) ≡ false = ground arith in
    let exact : (length (concat bs) == n * size) ≡ true = ground arith in
    rw (nonzero, exact) (ap some (ap (λ x. split x size (concat bs)) same ∙ split-concat size bs h))

get-Sized :
    (size : ℕ) (t : Blocks) (i : ℕ) (b : Bytes)
    → Sized size t
    → get_elem? t i ≡ some b
    → length b ≡ size
get-Sized size [] i b h e = option_ne e
get-Sized size (x ∷ t) zero b h e = rw (← some_inj e) h.0
get-Sized size (x ∷ t) (suc i) b h e = get-Sized size t i b h.1 e

pub gather_cons :
    (i : ℕ) (is : List ℕ) (t bs : Blocks)
    → gather (i ∷ is) t ≡ some bs
    → (b : Bytes) × ((rest : Blocks) × ((get_elem? t i ≡ some b)
          × ((gather is t ≡ some rest) × (b ∷ rest ≡ bs))))
gather_cons i is t bs h = elim (Option-cases (get_elem? t i)) [
  | inl e ↦ absurd (option_ne (rw e at h))
  | inr (b, e) ↦ elim (Option-cases (gather is t)) [
    | inl f ↦ absurd (option_ne (rw (e, f) at h))
    | inr (rest, f) ↦ (b, (rest, (e, (f, some_inj (rw (e, f) at h)))))
  ]
]

pub gather-Sized :
    (size : ℕ) (table : List ℕ) (t bs : Blocks)
    → Sized size t
    → gather table t ≡ some bs
    → Sized size bs × (length bs ≡ length table)
gather-Sized size [] t bs h e = rw (← some_inj e) (tt, refl)
gather-Sized size (i ∷ is) t bs h e =
    let (b, (rest, (eb, (er, same)))) = gather_cons i is t bs e in
    let (sized, long) = gather-Sized size is t rest h er in
    rw (← same) ((get-Sized size t i b h eb, sized), ap suc long)

get-in_range : (t : Blocks) (i : ℕ) → i < length t → (b : Bytes) × (get_elem? t i ≡ some b)
get-in_range [] i h = absurd (omega arith)
get-in_range (x ∷ t) zero h = (x, refl)
get-in_range (x ∷ t) (suc i) h = get-in_range t i (omega arith)

pub gather-InRange :
    (table : List ℕ) (t : Blocks) → InRange table t → (bs : Blocks) × (gather table t ≡ some bs)
gather-InRange [] t h = ([], refl)
gather-InRange (i ∷ is) t h =
    let (b, eb) = get-in_range t i h.0 in
    let (bs, es) = gather-InRange is t h.1 in (b ∷ bs, rw (eb, es) refl)

set-InRange :
    (table : List ℕ) (t : Blocks) (i : ℕ) (b : Bytes) → InRange table t → InRange table (set t i b)
set-InRange [] t i b h = tt
set-InRange (j ∷ js) t i b h = (rw (length-set t i b) h.0, set-InRange js t i b h.1)

pub scatter-InRange :
    (table ids : List ℕ) (bs t : Blocks) → InRange table t → InRange table (scatter ids bs t)
scatter-InRange table [] bs t h = h
scatter-InRange table (i ∷ is) [] t h = h
scatter-InRange table (i ∷ is) (b ∷ bs) t h =
    scatter-InRange table is bs (set t i b) (set-InRange table t i b h)

get-scatter :
    (i : ℕ) (is : List ℕ) (bs t : Blocks)
    → any_of (λ j. j == i) is ≡ false
    → get_elem? (scatter is bs t) i ≡ get_elem? t i
get-scatter i [] bs t h = refl
get-scatter i (j ∷ js) [] t h = refl
get-scatter i (j ∷ js) (b ∷ bs) t h =
    get-scatter i js bs (set t j b) (ground arith) ∙ (get_elem?-set_lem t j i b ∙ ground arith)

get-set_self : (t : Blocks) (i : ℕ) (b : Bytes) → i < length t → get_elem? (set t i b) i ≡ some b
get-set_self [] i b h = absurd (omega arith)
get-set_self (x ∷ t) zero b h = refl
get-set_self (x ∷ t) (suc i) b h = get-set_self t i b (omega arith)

-- Distinct blocks in range hold what was scattered to them.
pub gather-scatter :
    (table : List ℕ) (bs t : Blocks)
    → Distinct table
    → InRange table t
    → length bs ≡ length table
    → gather table (scatter table bs t) ≡ some bs
gather-scatter [] [] t d r h = refl
gather-scatter [] (b ∷ bs) t d r h = absurd (omega arith)
gather-scatter (i ∷ is) [] t d r h = absurd (omega arith)
gather-scatter (i ∷ is) (b ∷ bs) t d r h =
    let first : get_elem? (scatter is bs (set t i b)) i ≡ some b =
      get-scatter i is bs (set t i b) d.0 ∙ get-set_self t i b r.0 in
    let others = gather-scatter is bs (set t i b) d.1 (set-InRange is t i b r.1) (omega arith) in
    rw (first, others) refl
