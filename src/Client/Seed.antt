-- ===== src/Client/Seed.antt =====
-- src/client/seed.rs: the seeds that the server publishes, and one mask seed for each block.
use poulpy_pir.Prelude.{
  ℕ, zero, suc, ◌+◌, ◌-◌, ◌^◌, ◌<◌, ◌≡◌, sym, ap, ◌∙◌, List, ◌++◌, length, take, drop, ltb, leb,
  le→leb, to_le_bytes, from_le_bytes, from_le_bytes-to_le_bytes, length-take, length-append,
  length-to_le_bytes, drop-append, arith,
}
use poulpy_pir.Error.{Result, ok, assert, ◌>>◌}
use poulpy_pir.Wire.{Ciphertexts}
use poulpy_pir.Client.{Cipher}

pub record ServerSeed : Type 0 where
  pub root : List ℕ

module _ {c : Ciphertexts} (x : Cipher c) where
  -- The seed after `n + 1` draws.
  abbrev pub draws : ℕ → x.Source → List ℕ
  draws zero source = (x.new_seed source).0
  draws (suc n) source = draws n (x.new_seed source).1

  unfoldable pub sub_seed : ServerSeed → ℕ → List ℕ
  sub_seed s n = draws n (x.source_new s.root)

  unfoldable pub mask : ServerSeed → List ℕ
  unfolding sub_seed
  mask s = sub_seed s 0

  unfoldable pub keys : ServerSeed → List ℕ
  unfolding sub_seed
  keys s = sub_seed s 1

  unfoldable pub root_a : ServerSeed → List ℕ
  unfolding sub_seed
  root_a s = sub_seed s 2

  unfoldable pub recursion_a0 : ServerSeed → List ℕ
  unfolding sub_seed
  recursion_a0 s = sub_seed s 3

  unfoldable pub recursion_a1 : ServerSeed → List ℕ
  unfolding sub_seed
  recursion_a1 s = sub_seed s 4

  unfoldable pub recursion_key : ServerSeed → ℕ → Result (List ℕ)
  unfolding sub_seed
  recursion_key s idx = do assert (ltb idx 3); ok (sub_seed s (5 + idx))

pub record MaskSeeds : Type 0 where
  pub root : List ℕ

-- `MaskSeeds::seed`: the last four bytes of the root give way to the number of the block.
unfoldable pub seed : MaskSeeds → ℕ → Result (List ℕ)
seed m block = do assert (leb block (2 ^ 32 - 1)); ok (take 28 m.root ++ to_le_bytes 4 block)

pub seed_lem :
    (m : MaskSeeds) (b : ℕ) → b < 2 ^ 32 → seed m b ≡ ok (take 28 m.root ++ to_le_bytes 4 b)
unfolding seed
seed_lem m b lt = rw (le→leb b (2 ^ 32 - 1) (omega arith))

-- For a root of 32 bytes, every block below `2 ^ 32` has a seed of 32 bytes, and two such blocks with
-- the same seed are the same block.
pub seed_injective :
    (m : MaskSeeds) (b b' : ℕ)
    → length m.root ≡ 32
    → b < 2 ^ 32
    → b' < 2 ^ 32
    → (s s' : List ℕ) × (seed m b ≡ ok s)
      × (seed m b' ≡ ok s')
      × (length s ≡ 32)
      × (s ≡ s' → b ≡ b')
unfolding seed
seed_injective m b b' len lt lt' =
    let front : length (take 28 m.root) ≡ 28 = length-take 28 m.root (omega arith) in
    let back : (v : ℕ)
        → v < 2 ^ 32
        → from_le_bytes (drop 28 (take 28 m.root ++ to_le_bytes 4 v)) ≡ v =
      λ v small.
        ap (λ (k : ℕ). from_le_bytes (drop k (take 28 m.root ++ to_le_bytes 4 v))) (sym front)
        ∙ ap from_le_bytes (drop-append (take 28 m.root) (to_le_bytes 4 v))
        ∙ from_le_bytes-to_le_bytes 4 v (omega arith) in
    (
      take 28 m.root ++ to_le_bytes 4 b,
      take 28 m.root ++ to_le_bytes 4 b',
      rw (le→leb b (2 ^ 32 - 1) (omega arith)),
      rw (le→leb b' (2 ^ 32 - 1) (omega arith)),
      omega
          (arith, front, length-append (take 28 m.root) (to_le_bytes 4 b), length-to_le_bytes 4 b),
      λ same. sym (back b lt) ∙ ap (λ s. from_le_bytes (drop 28 s)) same ∙ back b' lt',
    )
