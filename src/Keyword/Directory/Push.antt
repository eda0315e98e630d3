-- ===== src/Keyword/Directory/Push.antt =====
-- What `push` does on each of its branches, and which indices keys have afterwards.
use poulpy_pir.Prelude.{
  ℕ, suc, ◌+◌, ◌≤◌, ◌<◌, ◌≡◌, ◌≢◌, sym, ap, ◌∙◌, List, [], ◌∷◌, true, false, none, some, length,
  length-append, arith, if◌then◌else◌, Option-cases, inl, inr,
}
use poulpy_pir.Keyword.Key.{
  IsKey, lookup, same_key, same_key→eq, same_key_refl, same_key_ne, position,
}
use poulpy_pir.Keyword.Error.{KeywordResult, duplicate_key, capacity_exceeded}
use poulpy_pir.Keyword.Mphf
use poulpy_pir.Keyword.Mphf.{PtrHash}
use poulpy_pir.Keyword.Directory.{KeywordDirectory, len, append_key, push, index}
use poulpy_pir.Keyword.Directory.Invariant.{
  member, IsConsistent, contains-member, append_key-IsConsistent, position-none,
}

position-lt :
    (key : List ℕ) (from j : ℕ) (ks : List (List ℕ))
    → position key from ks ≡ some j
    → j < from + length ks
unfolding position
position-lt key from j [] h = cc
position-lt key from j (k ∷ ks) h = ground (arith, position-lt key (suc from) j ks)

position-from :
    (key : List ℕ) (from j : ℕ) (ks : List (List ℕ)) → position key from ks ≡ some j → from ≤ j
unfolding position
position-from key from j [] h = cc
position-from key from j (k ∷ ks) h = ground (arith, position-from key (suc from) j ks)

position-injective :
    (a b : List ℕ) (from j : ℕ) (ks : List (List ℕ))
    → position a from ks ≡ some j
    → position b from ks ≡ some j
    → a ≡ b
unfolding position
position-injective a b from j [] h k = cc
position-injective a b from j (x ∷ ks) h k = ground (
  arith,
  same_key→eq x a,
  same_key→eq x b,
  position-from a (suc from) j ks,
  position-from b (suc from) j ks,
  position-injective a b (suc from) j ks,
)

module _ (h : PtrHash) where
  open h use {Phf, phf_index}

  module _ (size : ℕ) (d : KeywordDirectory Phf) (c : IsConsistent size d) (key : List ℕ) where
    -- A key that the delta holds is refused, and so is any other key where the capacity is used
    -- up; the directory stays as it was.
    pub push_refused :
        (member key d.delta_keys ≡ true → push d key ≡ (d, KeywordResult.err (duplicate_key key)))
        × (member key d.delta_keys ≡ false
            → d.capacity ≤ len d
            → push d key ≡ (d, KeywordResult.err (capacity_exceeded (len d + 1) d.capacity)))
    unfolding push
    push_refused = (
      λ old. ground (arith, contains-member size d key c),
      λ fresh full. ground (arith, contains-member size d key c),
    )

    index_appended :
        (k : List ℕ)
        → member key d.delta_keys ≡ false
        → len d < d.capacity
        → index h (append_key d key) k ≡ (if same_key key k then len d else index h d k)
    unfolding index append_key lookup
    index_appended k fresh room = ground (arith, c.small, c.lookup_eq k)

    -- A fresh key is appended where there is room. It gets the index just past the directory's,
    -- every other key keeps its index, and the directory stays consistent.
    pub push_lem :
        member key d.delta_keys ≡ false
        → len d < d.capacity
        → IsKey size key
        → (d' : KeywordDirectory Phf) × (push d key ≡ (d', KeywordResult.ok (len d)))
          × (index h d' key ≡ len d)
          × ((k : List ℕ) → k ≢ key → index h d' k ≡ index h d k)
          × (len d' ≡ len d + 1)
          × IsConsistent size d'
    unfolding push
    push_lem fresh room fits = (
      append_key d key,
      ground (arith, contains-member size d key c),
      rw (index_appended key fresh room, same_key_refl key),
      λ k ne. rw (index_appended k fresh room, same_key_ne key k (λ e. ne (sym e))),
      unfold append_key in omega (arith, length-append d.delta_keys (key ∷ [])),
      append_key-IsConsistent size d key c fresh room fits,
    )

  module _ (size : ℕ) (d : KeywordDirectory Phf) (c : IsConsistent size d)
      (total : (key : List ℕ) → 0 < d.mphf.n → phf_index d.mphf.phf key < d.mphf.n) where
    at_none :
        (key : List ℕ)
        → 0 < d.mphf.n
        → position key 0 d.delta_keys ≡ none
        → index h d key < d.mphf.n
    unfolding index Mphf.index
    at_none key pos none_ = ground (arith, c.lookup_eq key, none_, total key pos)

    at-some :
        (key : List ℕ) (j : ℕ) → position key 0 d.delta_keys ≡ some j → index h d key ≡ d.mphf.n + j
    unfolding index
    at-some key j found = ground (arith, c.lookup_eq key, found)

    index-lt : (key : List ℕ) → 0 < d.mphf.n → index h d key < len d
    index-lt key pos = elim (Option-cases (position key 0 d.delta_keys)) [
      | inl none_ ↦ omega (arith, at_none key pos none_)
      | inr (j, found) ↦ omega (arith, at-some key j found, position-lt key 0 j d.delta_keys found)
    ]

    index-injective :
        (a b : List ℕ)
        → 0 < d.mphf.n
        → member a d.delta_keys ≡ true
        → index h d a ≡ index h d b
        → a ≡ b
    index-injective a b pos old same = elim (Option-cases (position a 0 d.delta_keys)) [
      | inl none_ ↦ cc (position-none a 0 d.delta_keys none_, old)
      | inr (j, found) ↦ elim (Option-cases (position b 0 d.delta_keys)) [
        | inl none_ ↦ absurd (omega (arith, at-some a j found, at_none b pos none_, same))
        | inr (k, found') ↦
            let e : k ≡ j = omega (arith, at-some a j found, at-some b k found', same) in
            position-injective a b 0 j d.delta_keys found (found' ∙ ap some e)
      ]
    ]

    -- Where the hash answers below its length, every key of a directory has an index below the
    -- directory's length, and a key of the delta shares its index with no other key.
    pub index_lem :
        0 < d.mphf.n
        → ((key : List ℕ) → index h d key < len d)
          × ((a b : List ℕ) → member a d.delta_keys ≡ true → index h d a ≡ index h d b → a ≡ b)
    index_lem pos = (λ key. index-lt key pos, λ a b. index-injective a b pos)
