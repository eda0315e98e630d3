-- ===== src/Packing/Precompute/Groups.antt =====
-- The groups of baby steps hold every step of the schedule once, in order.
use poulpy_pir.Prelude.{
  ℕ, zero, suc, ◌+◌, ◌-◌, ◌*◌, ◌/◌, ◌%◌, ◌≤◌, ◌<◌, ◌≡◌, refl, sym, ap, ap₂, ◌∙◌, min, Bool-cases,
  inl, inr, if◌then◌else◌, List, [], ◌∷◌, ◌++◌, div_ceil, lt→ltb, le-div_ceil-mul, div_ceil_least,
  mod_bound, div_of_parts, mod_of_parts, div-lt_of_lt_mul, mul_mono, arith,
}
use native.Mathlib.Decide.{dec_lt}
use native.Mathlib.Nat.{div-add-mod}
use poulpy_pir.Error.{Result, ok, >>=-ok, ◌>>=◌}
use poulpy_pir.Packing.Mask.{range}
use poulpy_pir.Packing.Precompute.{
  PackingPrecomputations, bsgs_kg_steps, bsgs_half_steps, bsgs_groups_per_half, bsgs_group_count,
  bsgs_group_start_step, bsgs_group_len,
}

-- The steps of the groups `g`, …, `g + left - 1`.
abbrev pub steps_of :
    {Poly Dft Plan : Type 0} → PackingPrecomputations Poly Dft Plan → (g left : ℕ) → Result (List ℕ)
steps_of p g zero = ok []
steps_of p g (suc left) = do
  start ← bsgs_group_start_step p g
  len ← bsgs_group_len p g
  rest ← steps_of p (g + 1) left
  ok (range start len ++ rest)

-- What the constructors and the callers of a packing keep: a full packing has a step for `key_h`, and two
-- halves of as many steps.
pub record IsScheduled {Poly Dft Plan : Type 0} (p : PackingPrecomputations Poly Dft Plan)
    : Type 0 where
  pub half : ℕ
  pub halves : ℕ
  pub half_eq : bsgs_half_steps p ≡ ok half
  pub kg_eq : bsgs_kg_steps p ≡ ok (halves * half)
  pub halves_eq : halves ≡ (if p.partial then 1 else 2)
  pub baby_pos : 0 < p.bsgs_baby_size

ceil_room : (h b i : ℕ) → 0 < b → i < div_ceil h b → i * b < h
ceil_room h b i pos lt = elim (dec_lt (i * b) h) [
  | yes below ↦ below
  | no above ↦ absurd (omega (arith, div_ceil_least h b i pos (omega arith)))
]

positive : (k n i : ℕ) → i < k * n → 0 < n
positive k zero i lt = absurd (omega arith)
positive k (suc n) i lt = omega arith

range-add : (a x y : ℕ) → range a (x + y) ≡ range a x ++ range (a + x) y
range-add a zero y = ap₂ range (omega arith) (omega arith)
range-add a (suc x) y =
    let e : suc x + y ≡ suc (x + y) = omega arith in
    let e' : a + 1 + x ≡ a + suc x = omega arith in
    rw e (
      ap (λ rest. a ∷ rest)
        (range-add (a + 1) x y ∙ ap (λ (b : ℕ). range (a + 1) x ++ range b y) e'))

append_assoc {ℓ} : {A : Type ℓ} (xs ys zs : List A) → (xs ++ ys) ++ zs ≡ xs ++ (ys ++ zs)
append_assoc [] ys zs = refl
append_assoc (x ∷ xs) ys zs = ap (λ rest. x ∷ rest) (append_assoc xs ys zs)

-- The steps after a group, which are none after the last.
tail_lem :
    (a h b i : ℕ)
    → ◌≡◌ {A = Result (List ℕ)}
        (ok (range (a + (i + 1) * b) (h - (i + 1) * b)))
        (ok (range (a + i * b + min (h - i * b) b) (h - i * b - min (h - i * b) b)))
tail_lem a h b i = elim (dec_lt (h - i * b) b) [
  | yes short ↦
      let z : h - (i + 1) * b ≡ 0 = omega arith in
      let z' : h - i * b - min (h - i * b) b ≡ 0 = omega arith in rw (z, z')
  | no long ↦ ap ok (ap₂ range (omega arith) (omega arith))
]

module _ {Poly Dft Plan : Type 0} (p : PackingPrecomputations Poly Dft Plan)
    (s : IsScheduled p) where
  open s use {half, halves}

  abbrev pub baby : ℕ
  baby = p.bsgs_baby_size

  abbrev pub groups : ℕ
  groups = div_ceil half baby

  groups_lem : bsgs_groups_per_half p ≡ ok groups
  unfolding bsgs_groups_per_half
  groups_lem = rw (s.half_eq, lt→ltb 0 baby s.baby_pos)

  pub count_lem : bsgs_group_count p ≡ ok (halves * groups)
  unfolding bsgs_group_count
  count_lem = elim (Bool-cases p.partial) [
    | inl one ↦
        let e : halves ≡ 1 = s.halves_eq ∙ rw one in
        let e' : groups ≡ halves * groups = rw e (omega arith) in rw (groups_lem, one) (ap ok e')
    | inr two ↦
        let e : halves ≡ 2 = s.halves_eq ∙ rw two in
        let e' : 2 * groups ≡ halves * groups = rw e in rw (groups_lem, two) (ap ok e')
  ]

  -- The group `i` of the half `k`.
  module _ (k i : ℕ) (lt : i < groups) where
    start_lem : bsgs_group_start_step p (k * groups + i) ≡ ok (k * half + i * baby)
    unfolding bsgs_group_start_step
    start_lem = rw (
      groups_lem,
      lt→ltb 0 groups (omega arith),
      s.half_eq,
      div_of_parts k i groups lt,
      mod_of_parts k i groups lt,
    )

    len_lem : bsgs_group_len p (k * groups + i) ≡ ok (min (half - i * baby) baby)
    unfolding bsgs_group_len
    len_lem =
        let room = ceil_room half baby i s.baby_pos lt in
        rw (start_lem, s.half_eq, lt→ltb 0 half (omega arith), mod_of_parts k (i * baby) half room)

  steps_of-add :
      (g a b : ℕ) (xs ys : List ℕ)
      → steps_of p g a ≡ ok xs
      → steps_of p (g + a) b ≡ ok ys
      → steps_of p g (a + b) ≡ ok (xs ++ ys)
  steps_of-add g zero b xs ys first second =
      let none : xs ≡ [] = cc first in
      let e : zero + b ≡ b = omega arith in
      rw (e, none) (ap (λ (h : ℕ). steps_of p h b) (omega arith) ∙ second)
  steps_of-add g (suc a) b xs ys first second =
      let e : suc a + b ≡ suc (a + b) = omega arith in
      let (start, at_start, first1) = >>=-ok (bsgs_group_start_step p g) _ xs first in
      let (len, at_len, first2) = >>=-ok (bsgs_group_len p g) _ xs first1 in
      let (rest, more, same) = >>=-ok (steps_of p (g + 1) a) _ xs first2 in
      let whole : range start len ++ rest ≡ xs = cc same in
      let onward : steps_of p (g + 1 + a) b ≡ ok ys =
        ap (λ (h : ℕ). steps_of p h b) (omega arith) ∙ second in
      rw (e, at_start, at_len, steps_of-add (g + 1) a b rest ys more onward, ← whole)
        (ap ok (sym (append_assoc (range start len) rest ys)))

  half_lem :
      (k left i : ℕ)
      → i + left ≡ groups
      → steps_of p (k * groups + i) left ≡ ok (range (k * half + i * baby) (half - i * baby))
  half_lem k zero i e =
      let whole : half ≤ groups * baby = le-div_ceil-mul half baby s.baby_pos in
      let i_eq : i ≡ groups = omega arith in
      let none : half - i * baby ≡ 0 = rw i_eq (omega (arith, whole)) in rw none
  half_lem k (suc left) i e =
      let lt : i < groups = omega arith in
      let room = ceil_room half baby i s.baby_pos lt in
      let len : ℕ = min (half - i * baby) baby in
      let rest = half_lem k left (i + 1) (omega arith) in
      let next : steps_of p (k * groups + i + 1) left
          ≡ ok (range (k * half + i * baby + len) (half - i * baby - len)) =
        ap (λ (g : ℕ). steps_of p g left) (omega arith) ∙ rest ∙ tail_lem (k * half) half baby i in
      rw (start_lem k i lt, len_lem k i lt, next)
        (ap ok (
          sym (range-add (k * half + i * baby) len (half - i * baby - len))
          ∙ ap (range (k * half + i * baby)) (omega arith)))

  halves_lem :
      (left k : ℕ) → steps_of p (k * groups) (left * groups) ≡ ok (range (k * half) (left * half))
  halves_lem zero k =
      let none : zero * groups ≡ 0 = omega arith in
      let none' : zero * half ≡ 0 = omega arith in rw (none, none')
  halves_lem (suc left) k =
      let e : suc left * groups ≡ groups + left * groups = omega arith in
      let first : steps_of p (k * groups) groups ≡ ok (range (k * half) half) =
        ap (λ (g : ℕ). steps_of p g groups) (omega arith)
        ∙ half_lem k groups 0 (omega arith)
        ∙ ap ok (ap₂ range (omega arith) (omega arith)) in
      let second : steps_of p (k * groups + groups) (left * groups)
          ≡ ok (range (k * half + half) (left * half)) =
        ap (λ (g : ℕ). steps_of p g (left * groups)) (omega arith)
        ∙ halves_lem left (k + 1)
        ∙ ap (λ (a : ℕ). ok (range a (left * half))) (omega arith) in
      rw e (
        steps_of-add (k * groups) groups (left * groups) _ _ first second
        ∙ ap ok
            (sym (range-add (k * half) half (left * half)) ∙ ap (range (k * half)) (omega arith)))

  -- A packing whose halves have as many steps, and with a baby step at least, has as many groups as cover
  -- the halves, and one after another they hold the steps `0`, …, of `key_g`, each once and in the order
  -- of the sequential schedule.
  pub steps_of_lem :
      (count kg : ℕ) × (bsgs_group_count p ≡ ok count)
      × (bsgs_kg_steps p ≡ ok kg)
      × (steps_of p 0 count ≡ ok (range 0 kg))
  steps_of_lem = (
    halves * groups,
    halves * half,
    count_lem,
    s.kg_eq,
    ap (λ (g : ℕ). steps_of p g (halves * groups)) (omega arith)
        ∙ halves_lem halves 0
        ∙ ap (λ (a : ℕ). ok (range a (halves * half))) (omega arith),
  )

  -- Where a group begins, and how many steps it has.
  abbrev pub start_of : ℕ → ℕ
  start_of g = g / groups * half + g % groups * baby

  abbrev pub len_of : ℕ → ℕ
  len_of g = min (half - g % groups * baby) baby

  pub group_lem :
      (g : ℕ)
      → g < halves * groups
      → (bsgs_group_start_step p g ≡ ok (start_of g))
        × (bsgs_group_len p g ≡ ok (len_of g))
        × (start_of g + len_of g ≤ halves * half)
  group_lem g lt =
      let groups_pos : 0 < groups = positive halves groups g lt in
      let k : ℕ = g / groups in
      let i : ℕ = g % groups in
      let e : k * groups + i ≡ g = omega (arith, div-add-mod g groups) in
      let inner : i < groups = mod_bound g groups groups_pos in
      let outer : k < halves = div-lt_of_lt_mul g halves groups lt in
      let room = ceil_room half baby i s.baby_pos inner in
      (
        ap (bsgs_group_start_step p) (sym e) ∙ start_lem k i inner,
        ap (bsgs_group_len p) (sym e) ∙ len_lem k i inner,
        omega (arith, mul_mono (k + 1) halves half (omega arith), room),
      )
