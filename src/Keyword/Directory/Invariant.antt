-- ===== src/Keyword/Directory/Invariant.antt =====
-- The map from keys to positions is derived from the list of delta keys, which are distinct.
use poulpy_pir.Prelude.{
  ℕ, suc, ◌%◌, ◌^◌, ◌≤◌, ◌<◌, ◌≡◌, refl, List, [], ◌∷◌, ◌++◌, Bool, false, ◌||◌, none, length,
  length-append, All, All-append, arith, Bool-cases, inl, inr, le→ltb,
}
use poulpy_pir.Keyword.Key.{
  IsKey, lookup, same_key, same_key→eq, same_key_refl, position, position-append,
}
use poulpy_pir.Keyword.Error.{KeywordResult, capacity_exceeded}
use poulpy_pir.Keyword.Mphf.{KeywordIndex}
use poulpy_pir.Keyword.Directory.{KeywordDirectory, len, contains_key, append_key, new}

abbrev pub member : List ℕ → List (List ℕ) → Bool
member key [] = false
member key (k ∷ ks) = same_key k key || member key ks

abbrev pub Distinct : List (List ℕ) → Type 0
Distinct [] = Unit {0}
Distinct (k ∷ ks) = (member k ks ≡ false) × Distinct ks

pub position-none :
    (key : List ℕ) (from : ℕ) (ks : List (List ℕ))
    → position key from ks ≡ none
    → member key ks ≡ false
unfolding position
position-none key from [] h = refl
position-none key from (k ∷ ks) h = ground (arith, position-none key (suc from) ks)

pub member-position :
    (key : List ℕ) (from : ℕ) (ks : List (List ℕ))
    → member key ks ≡ false
    → position key from ks ≡ none
unfolding position
member-position key from [] h = refl
member-position key from (k ∷ ks) h = ground (arith, member-position key (suc from) ks)

pub same_key_sym : (a b : List ℕ) → same_key a b ≡ false → same_key b a ≡ false
same_key_sym a b h = elim (Bool-cases (same_key b a)) [
  | inl same ↦ cc (same_key→eq b a same, same_key_refl a, h)
  | inr differ ↦ differ
]

member-append :
    (key k : List ℕ) (ks : List (List ℕ))
    → member key ks ≡ false
    → same_key k key ≡ false
    → member key (ks ++ k ∷ []) ≡ false
member-append key k [] h ne = ground arith
member-append key k (j ∷ ks) h ne = ground (arith, member-append key k ks)

pub Distinct-append :
    (k : List ℕ) (ks : List (List ℕ)) → Distinct ks → member k ks ≡ false → Distinct (ks ++ k ∷ [])
Distinct-append k [] d h = (refl, tt)
Distinct-append k (j ∷ ks) d h = (
  member-append j k ks d.0 (same_key_sym j k (ground arith)),
  Distinct-append k ks d.1 (ground arith),
)

-- `size` is the width of a key. A `u32` holds every position.
pub record IsConsistent (size : ℕ) {Phf : Type 0} (d : KeywordDirectory Phf) : Type 0 where
  pub lookup_eq : (key : List ℕ) → lookup key d.delta_lookup ≡ position key 0 d.delta_keys
  pub distinct : Distinct d.delta_keys
  pub within : len d ≤ d.capacity
  pub small : d.capacity ≤ 2 ^ 32
  pub keys : All (IsKey size) d.delta_keys

module _ {Phf : Type 0} (size : ℕ) where
  -- For a capacity of at most `2 ^ 32` a new directory is refused exactly where the hash covers more keys than the capacity; otherwise
  -- it starts consistent, with an empty delta.
  pub new_lem :
      (mphf : KeywordIndex Phf) (capacity version : ℕ)
      → capacity ≤ 2 ^ 32
      → (capacity < mphf.n
          → new mphf capacity version ≡ KeywordResult.err (capacity_exceeded mphf.n capacity))
        × (mphf.n ≤ capacity
            → (d : KeywordDirectory Phf) × (new mphf capacity version ≡ KeywordResult.ok d)
              × IsConsistent size d
              × (d.delta_keys ≡ [])
              × (d.version ≡ version)
              × (d.mphf ≡ mphf))
  unfolding new
  new_lem mphf capacity version small = (
    λ lt. ground arith,
    λ le. (
      record {
        mphf = mphf;
        delta_keys = [];
        delta_lookup = [];
        version = version;
        capacity = capacity;
      },
      rw (le→ltb capacity mphf.n le),
      record {
        lookup_eq = λ key. unfold lookup position in refl;
        distinct = tt;
        within = omega arith;
        small = small;
        keys = tt;
      },
      refl,
      refl,
      refl,
    ),
  )

module _ {Phf : Type 0} (size : ℕ) (d : KeywordDirectory Phf) (key : List ℕ)
    (c : IsConsistent size d) where
  pub contains-member : contains_key key d.delta_lookup ≡ member key d.delta_keys
  contains-member = elim (Bool-cases (member key d.delta_keys)) [
    | inl yes_ ↦ ground (arith, c.lookup_eq key, position-none key 0 d.delta_keys)
    | inr no_ ↦ ground (arith, c.lookup_eq key, member-position key 0 d.delta_keys no_)
  ]

  module _ (fresh : member key d.delta_keys ≡ false) (room : len d < d.capacity)
      (fits : IsKey size key) where
    lookup_appended :
        (k : List ℕ)
        → lookup k ((key, length d.delta_keys % 2 ^ 32) ∷ d.delta_lookup)
          ≡ position k 0 (d.delta_keys ++ key ∷ [])
    unfolding lookup
    lookup_appended k = rw (position-append k key 0 d.delta_keys) (
        ground (
          arith,
          c.lookup_eq k,
          same_key→eq key k,
          c.small,
          member-position key 0 d.delta_keys fresh,
        ))

    pub append_key-IsConsistent : IsConsistent size (append_key d key)
    unfolding append_key
    append_key-IsConsistent = record {
      lookup_eq = lookup_appended;
      distinct = Distinct-append key d.delta_keys c.distinct fresh;
      within = omega (arith, length-append d.delta_keys (key ∷ []), room);
      small = c.small;
      keys = All-append (IsKey size) d.delta_keys (key ∷ []) c.keys (fits, tt);
    }
