-- ===== src/Keyword/Mphf.antt =====
-- src/keyword/mphf.rs: `KeywordIndex` over the hash function of the crate `ptr_hash`, which is a
-- parameter, and `first_duplicate`.
pub mod Duplicates
use poulpy_pir.Prelude.{
  ℕ, zero, suc, ◌+◌, ◌^◌, ◌<◌, ◌≡◌, ◌≢◌, List, [], ◌∷◌, ◌++◌, Bool, true, false, Option, none, some,
  ltb, length, if◌then◌else◌,
}
use poulpy_pir.Io.{IoResult, Reader, ok, err, ◌>>=◌, ◌>>◌, read_u64, write_u64}
use poulpy_pir.Keyword.Key.{same_key}
use poulpy_pir.Keyword.Error.{KeywordResult, KeywordError, mphf_construction, duplicate_key}

-- What the code calls of `ptr_hash`: `try_new` with the module's parameters, `index`, and the
-- portable serialization.
pub record PtrHash : Type 1 where
  pub Phf : Type 0
  pub try_new : List (List ℕ) → Option Phf
  pub phf_index : Phf → List ℕ → ℕ
  pub write_portable : Phf → List ℕ
  pub read_portable : Reader Phf

-- `sort_unstable` on keys, in the order of their bytes.
unfoldable pub leb_key : List ℕ → List ℕ → Bool
leb_key [] bs = true
leb_key (a ∷ as') [] = false
leb_key (a ∷ as') (b ∷ bs) = if ltb a b then true else if ltb b a then false else leb_key as' bs

unfoldable pub insert_key : List ℕ → List (List ℕ) → List (List ℕ)
unfolding leb_key
insert_key key [] = key ∷ []
insert_key key (k ∷ ks) =
    let rest = insert_key key ks in if leb_key key k then key ∷ (k ∷ ks) else k ∷ rest

unfoldable pub sort_unstable : List (List ℕ) → List (List ℕ)
unfolding insert_key
sort_unstable [] = []
sort_unstable (k ∷ ks) = insert_key k (sort_unstable ks)

-- `windows(2).find(|w| w[0] == w[1])`.
unfoldable pub equal_neighbours : List (List ℕ) → Option (List ℕ)
unfolding same_key
equal_neighbours [] = none
equal_neighbours (a ∷ []) = none
equal_neighbours (a ∷ (b ∷ rest)) =
    let later = equal_neighbours (b ∷ rest) in if same_key a b then some a else later

unfoldable pub first_duplicate : List (List ℕ) → Option (List ℕ)
unfolding equal_neighbours sort_unstable
first_duplicate keys = equal_neighbours (sort_unstable keys)

pub record KeywordIndex (Phf : Type 0) : Type 0 where
  pub phf : Phf
  pub n : ℕ

module _ (h : PtrHash) where
  open h use {Phf, try_new, phf_index, write_portable, read_portable}

  abbrev with_phf : ℕ → Option Phf → KeywordResult (KeywordIndex Phf)
  with_phf n none = KeywordResult.err mphf_construction
  with_phf n (some phf) = KeywordResult.ok (record { phf = phf; n = n })

  abbrev build_from : List (List ℕ) → Option (List ℕ) → KeywordResult (KeywordIndex Phf)
  build_from keys (some dup) = KeywordResult.err (duplicate_key dup)
  build_from keys none = with_phf (length keys) (try_new keys)

  unfoldable pub build : List (List ℕ) → KeywordResult (KeywordIndex Phf)
  unfolding first_duplicate
  build keys = build_from keys (first_duplicate keys)

  unfoldable pub index : KeywordIndex Phf → List ℕ → ℕ
  index i key = phf_index i.phf key

  unfoldable pub write_to : KeywordIndex Phf → List ℕ
  write_to i = write_u64 i.n ++ write_portable i.phf

  unfoldable pub read_from : List ℕ → IoResult (KeywordIndex Phf × List ℕ)
  read_from input = do
    (n, rest) ← read_u64 input
    (phf, rest') ← read_portable rest
    ok (record { phf = phf; n = n }, rest')
