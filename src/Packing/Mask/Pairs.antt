-- ===== src/Packing/Mask/Pairs.antt =====
-- Loops that write two columns in each round.
use poulpy_pir.Prelude.{
  ℕ, zero, suc, ◌+◌, ◌≤◌, ◌<◌, ◌≡◌, ◌≢◌, refl, sym, ◌∙◌, List, set, some, length, get_elem?,
  get_elem?-set_self, get_elem?-set_ne, length-set, arith,
}
use native.Mathlib.Decide.{ℕ_discrete}

-- The columns of different rounds, and the two of one round, are different.
pub record AreApart (total : ℕ) (ca cb : ℕ → ℕ) : Type 0 where
  pub left : (i j : ℕ) → i ≢ j → ca i ≢ ca j
  pub right : (i j : ℕ) → i ≢ j → cb i ≢ cb j
  pub across : (i j : ℕ) → i < total → j < total → ca i ≢ cb j

module _ {ℓ} {A : Type ℓ} (ca cb : ℕ → ℕ) (a b : ℕ → A) where
  -- Round `j` writes `a j` at `ca j` and `b j` at `cb j`.
  abbrev pub write_pairs : (count i : ℕ) → List A → List A
  write_pairs zero i dst = dst
  write_pairs (suc count) i dst =
      write_pairs count (i + 1) (set (set dst (ca i) (a i)) (cb i) (b i))

  pub length-write_pairs :
      (count i : ℕ) (dst : List A) → length (write_pairs count i dst) ≡ length dst
  length-write_pairs zero i dst = refl
  length-write_pairs (suc count) i dst =
      length-write_pairs count (i + 1) (set (set dst (ca i) (a i)) (cb i) (b i))
      ∙ length-set (set dst (ca i) (a i)) (cb i) (b i)
      ∙ length-set dst (ca i) (a i)

  pub write_pairs_miss :
      (count i p : ℕ) (dst : List A)
      → ((j : ℕ) → i ≤ j → j < i + count → (ca j ≢ p) × (cb j ≢ p))
      → get_elem? (write_pairs count i dst) p ≡ get_elem? dst p
  write_pairs_miss zero i p dst miss = refl
  write_pairs_miss (suc count) i p dst miss =
      let (na, nb) = miss i (omega arith) (omega arith) in
      write_pairs_miss count (i + 1) p (set (set dst (ca i) (a i)) (cb i) (b i))
        (λ j ge lt. miss j (omega arith) (omega arith))
      ∙ get_elem?-set_ne (set dst (ca i) (a i)) (cb i) p (b i) nb
      ∙ get_elem?-set_ne dst (ca i) p (a i) na

  module _ (total : ℕ) (apart : AreApart total ca cb) where
    pub write_pairs_left :
        (count i j : ℕ) (dst : List A)
        → i + count ≤ total
        → i ≤ j
        → j < i + count
        → ca j < length dst
        → get_elem? (write_pairs count i dst) (ca j) ≡ some (a j)
    write_pairs_left zero i j dst le ge lt room = absurd (omega arith)
    write_pairs_left (suc count) i j dst le ge lt room = elim (ℕ_discrete i j) [
      | yes e ↦
          write_pairs_miss count (i + 1) (ca j) (set (set dst (ca i) (a i)) (cb i) (b i))
            (λ k ge' lt'. (
              apart.left k j (λ s. absurd (omega arith)),
              λ s. apart.across j k (omega arith) (omega arith) (sym s),
            ))
          ∙ get_elem?-set_ne (set dst (ca i) (a i)) (cb i) (ca j) (b i)
              (λ s. apart.across j i (omega arith) (omega arith) (sym s))
          ∙ rw e (get_elem?-set_self dst (ca j) (a j) room)
      | no ne ↦
          write_pairs_left count (i + 1) j (set (set dst (ca i) (a i)) (cb i) (b i)) (omega arith)
            (omega arith) (omega arith)
            (omega (
              arith,
              room,
              length-set (set dst (ca i) (a i)) (cb i) (b i),
              length-set dst (ca i) (a i),
            ))
    ]

    pub write_pairs_right :
        (count i j : ℕ) (dst : List A)
        → i + count ≤ total
        → i ≤ j
        → j < i + count
        → cb j < length dst
        → get_elem? (write_pairs count i dst) (cb j) ≡ some (b j)
    write_pairs_right zero i j dst le ge lt room = absurd (omega arith)
    write_pairs_right (suc count) i j dst le ge lt room = elim (ℕ_discrete i j) [
      | yes e ↦
          write_pairs_miss count (i + 1) (cb j) (set (set dst (ca i) (a i)) (cb i) (b i))
            (λ k ge' lt'. (
              apart.across k j (omega arith) (omega arith),
              apart.right k j (λ s. absurd (omega arith)),
            ))
          ∙ rw e (
              get_elem?-set_self (set dst (ca j) (a j)) (cb j) (b j)
                (omega (arith, room, length-set dst (ca j) (a j))))
      | no ne ↦
          write_pairs_right count (i + 1) j (set (set dst (ca i) (a i)) (cb i) (b i)) (omega arith)
            (omega arith) (omega arith)
            (omega (
              arith,
              room,
              length-set (set dst (ca i) (a i)) (cb i) (b i),
              length-set dst (ca i) (a i),
            ))
    ]
