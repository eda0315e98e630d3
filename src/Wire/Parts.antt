-- ===== src/Wire/Parts.antt =====
-- The parts of messages come back from their bytes.
use poulpy_pir.Prelude.{ℕ, ◌^◌, ◌<◌, ◌≡◌, refl, List, [], ◌∷◌, ◌++◌, length, All, arith, eq→==}
use mathlib.Core.List.{append_assoc}
use poulpy_pir.Io.{ok, Reader, read_exact, read_exact-append, write_u64, read_u64-append}
use poulpy_pir.Wire.{
  Ciphertexts, Gadget, AutoKey, CompressedKey, ensure_len, write_u8, read_u8, write_all, read_n,
  write_vec, read_vec, write_gadget, read_gadget, write_auto_key, read_auto_key,
  write_compressed_key, read_compressed_key,
}

-- `x` is read back from its bytes, whatever follows them.
abbrev pub ComesBack : {T : Type 0} → (T → List ℕ) → Reader T → T → Type 0
ComesBack write read x = (rest : List ℕ) → read (write x ++ rest) ≡ ok (x, rest)

pub read_u8-write_u8 : (v : ℕ) (rest : List ℕ) → read_u8 (write_u8 v ++ rest) ≡ ok (v, rest)
unfolding read_u8 write_u8
read_u8-write_u8 v rest = rw (read_exact-append 1 (v ∷ []) rest refl)

pub read_n-write_all :
    {T : Type 0} (write : T → List ℕ) (read : Reader T) (xs : List T) (rest : List ℕ)
    → All (ComesBack write read) xs
    → read_n read (length xs) (write_all write xs ++ rest) ≡ ok (xs, rest)
unfolding read_n write_all
read_n-write_all write read [] rest h = refl
read_n-write_all write read (x ∷ xs) rest h =
    rw (append_assoc (write x) (write_all write xs) rest)
      (rw (h.0 (write_all write xs ++ rest)) (rw (read_n-write_all write read xs rest h.1)))

pub read_vec-write_vec :
    {T : Type 0} (write : T → List ℕ) (read : Reader T) (xs : List T) (rest : List ℕ)
    → All (ComesBack write read) xs
    → length xs < 2 ^ 64
    → read_vec read (length xs) (write_vec write xs ++ rest) ≡ ok (xs, rest)
unfolding read_vec write_vec ensure_len
read_vec-write_vec write read xs rest h small =
    rw (append_assoc (write_u64 (length xs)) (write_all write xs) rest) (
      rw (read_u64-append (length xs) _ small)
        (rw (eq→== (length xs) (length xs) refl) (read_n-write_all write read xs rest h)))

module _ (c : Ciphertexts) where
  open c use {Entry, write_entry, read_entry, key_seeds, key_entries}

  -- A gadget ciphertext with as many seeds and entries as its receiver.
  pub record IsGadget (seeds entries : ℕ) (g : Gadget Entry) : Type 0 where
    pub seeds_len : length g.seeds ≡ seeds
    pub entries_len : length g.entries ≡ entries
    pub small : seeds < 2 ^ 64
    pub seed_bytes : All (λ seed. length seed ≡ 32) g.seeds
    pub entries_back : All (ComesBack write_entry read_entry) g.entries

  pub record IsAutoKey (key : AutoKey Entry) : Type 0 where
    pub p_lt : key.p < 2 ^ 64
    pub gadget : IsGadget key_seeds key_entries key.gadget

  pub record IsCompressedKey (ck : CompressedKey Entry) : Type 0 where
    pub stride_lt : ck.stride < 2 ^ 64
    pub key : IsAutoKey ck.key

  seeds_back :
      (seeds : List (List ℕ))
      → All (λ seed. length seed ≡ 32) seeds
      → All (ComesBack (λ seed. seed) (read_exact 32)) seeds
  seeds_back [] h = tt
  seeds_back (seed ∷ seeds) h = (λ rest. read_exact-append 32 seed rest h.0, seeds_back seeds h.1)

  pub read_gadget-write_gadget :
      (seeds entries : ℕ) (g : Gadget Entry)
      → IsGadget seeds entries g
      → ComesBack (write_gadget c) (read_gadget c seeds entries) g
  unfolding read_gadget write_gadget
  read_gadget-write_gadget seeds entries g h rest =
      rw (← h.seeds_len, ← h.entries_len)
        (rw (append_assoc (write_vec (λ seed. seed) g.seeds) (write_all write_entry g.entries) rest)
          (rw
            (read_vec-write_vec (λ seed. seed) (read_exact 32) g.seeds _
              (seeds_back g.seeds h.seed_bytes) (omega (arith, h.seeds_len, h.small)))
            (rw (read_n-write_all write_entry read_entry g.entries rest h.entries_back))))

  pub read_auto_key-write_auto_key :
      (key : AutoKey Entry) → IsAutoKey key → ComesBack (write_auto_key c) (read_auto_key c) key
  unfolding read_auto_key write_auto_key
  read_auto_key-write_auto_key key h rest =
      rw (append_assoc (write_u64 key.p) (write_gadget c key.gadget) rest) (
        rw (read_u64-append key.p _ h.p_lt)
          (rw (read_gadget-write_gadget key_seeds key_entries key.gadget h.gadget rest)))

  pub read_compressed_key-write_compressed_key :
      (ck : CompressedKey Entry)
      → IsCompressedKey ck
      → ComesBack (write_compressed_key c) (read_compressed_key c) ck
  unfolding read_compressed_key write_compressed_key
  read_compressed_key-write_compressed_key ck h rest =
      rw (append_assoc (write_u64 ck.stride) (write_auto_key c ck.key) rest) (
        rw (read_u64-append ck.stride _ h.stride_lt)
          (rw (read_auto_key-write_auto_key ck.key h.key rest)))
