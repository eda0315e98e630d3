-- ===== src/Keyword/Mphf/Duplicates.antt =====
-- `first_duplicate` finds a key that occurs twice, and finds none exactly where all are distinct.
use poulpy_pir.Prelude.{
  ℕ, suc, ◌≤◌, ◌≡◌, refl, List, [], ◌∷◌, Bool, true, false, none, some, arith, if◌then◌else◌, All,
  Bool-cases, inl, inr,
}
use poulpy_pir.Keyword.Key.{same_key, same_key→eq, same_key_refl}
use poulpy_pir.Keyword.Mphf.{leb_key, insert_key, sort_unstable, equal_neighbours, first_duplicate}

-- How often a key occurs.
pub count : List ℕ → List (List ℕ) → ℕ
count key [] = 0
count key (k ∷ ks) = if same_key k key then suc (count key ks) else count key ks

count-insert_key :
    (key k : List ℕ) (ks : List (List ℕ)) → count key (insert_key k ks) ≡ count key (k ∷ ks)
unfolding count insert_key
count-insert_key key k [] = refl
count-insert_key key k (j ∷ ks) = ground (arith, count-insert_key key k ks)

count-sort_unstable :
    (key : List ℕ) (ks : List (List ℕ)) → count key (sort_unstable ks) ≡ count key ks
unfolding sort_unstable count
count-sort_unstable key [] = refl
count-sort_unstable key (k ∷ ks) =
    ground (arith, count-insert_key key k (sort_unstable ks), count-sort_unstable key ks)

leb_key_total : (a b : List ℕ) → leb_key a b ≡ false → leb_key b a ≡ true
unfolding leb_key
leb_key_total [] b h = cc
leb_key_total (a ∷ as') [] h = refl
leb_key_total (a ∷ as') (b ∷ bs) h = ground (arith, leb_key_total as' bs)

leb_key_trans : (a b c : List ℕ) → leb_key a b ≡ true → leb_key b c ≡ true → leb_key a c ≡ true
unfolding leb_key
leb_key_trans [] b c h k = refl
leb_key_trans (a ∷ as') [] c h k = cc
leb_key_trans (a ∷ as') (b ∷ bs) [] h k = cc
leb_key_trans (a ∷ as') (b ∷ bs) (c ∷ cs) h k = ground (arith, leb_key_trans as' bs cs)

leb_key_antisym : (a b : List ℕ) → leb_key a b ≡ true → leb_key b a ≡ true → same_key a b ≡ true
unfolding leb_key same_key
leb_key_antisym [] [] h k = refl
leb_key_antisym [] (b ∷ bs) h k = cc
leb_key_antisym (a ∷ as') [] h k = cc
leb_key_antisym (a ∷ as') (b ∷ bs) h k = ground (arith, leb_key_antisym as' bs)

abbrev IsSorted : List (List ℕ) → Type 0
IsSorted [] = Unit {0}
IsSorted (k ∷ ks) = All (λ j. leb_key k j ≡ true) ks × IsSorted ks

All-insert_key :
    (a k : List ℕ) (ks : List (List ℕ))
    → leb_key a k ≡ true
    → All (λ j. leb_key a j ≡ true) ks
    → All (λ j. leb_key a j ≡ true) (insert_key k ks)
unfolding insert_key
All-insert_key a k [] h hs = (h, tt)
All-insert_key a k (j ∷ ks) h hs = elim (Bool-cases (leb_key k j)) [
  | inl le ↦ rw le (h, hs)
  | inr gt ↦ rw gt (hs.0, All-insert_key a k ks h hs.1)
]

All-trans :
    (a b : List ℕ) (ks : List (List ℕ))
    → leb_key a b ≡ true
    → All (λ j. leb_key b j ≡ true) ks
    → All (λ j. leb_key a j ≡ true) ks
All-trans a b [] h hs = tt
All-trans a b (k ∷ ks) h hs = (leb_key_trans a b k h hs.0, All-trans a b ks h hs.1)

insert_key-IsSorted : (k : List ℕ) (ks : List (List ℕ)) → IsSorted ks → IsSorted (insert_key k ks)
unfolding insert_key
insert_key-IsSorted k [] s = (tt, tt)
insert_key-IsSorted k (j ∷ ks) s = elim (Bool-cases (leb_key k j)) [
  | inl le ↦ rw le ((le, All-trans k j ks le s.0), s)
  | inr gt ↦ rw gt (All-insert_key j k ks (leb_key_total k j gt) s.0, insert_key-IsSorted k ks s.1)
]

sort_unstable-IsSorted : (ks : List (List ℕ)) → IsSorted (sort_unstable ks)
unfolding sort_unstable
sort_unstable-IsSorted [] = tt
sort_unstable-IsSorted (k ∷ ks) =
    insert_key-IsSorted k (sort_unstable ks) (sort_unstable-IsSorted ks)

-- Above `b` in the order, `a` does not occur.
count-above :
    (a b : List ℕ) (ks : List (List ℕ))
    → leb_key a b ≡ true
    → same_key a b ≡ false
    → All (λ j. leb_key b j ≡ true) ks
    → count a ks ≡ 0
unfolding count
count-above a b [] h ne hs = refl
count-above a b (k ∷ ks) h ne hs = elim (Bool-cases (same_key k a)) [
  | inl same ↦
      let back : leb_key b a ≡ true = rw (← same_key→eq k a same) (hs.0) in
      absurd (true_false (leb_key_antisym a b h back) ne)
  | inr differ ↦ rw differ (count-above a b ks h ne hs.1)
]
  where
    true_false : {x : Bool} → x ≡ true → x ≡ false → ⊥
    true_false p q = cc

count-above_head :
    (a b : List ℕ) (rest : List (List ℕ))
    → leb_key a b ≡ true
    → same_key a b ≡ false
    → All (λ j. leb_key b j ≡ true) rest
    → count a (b ∷ rest) ≡ 0
unfolding count
count-above_head a b rest le ne hs = elim (Bool-cases (same_key b a)) [
  | inl same ↦ ground (arith, same_key→eq b a same, same_key_refl a)
  | inr differ ↦ rw differ (count-above a b rest le ne hs)
]

split_head :
    (a : List ℕ) (ks : List (List ℕ)) (key : List ℕ)
    → count key ks ≤ 1
    → count a ks ≡ 0
    → count key (a ∷ ks) ≤ 1
unfolding count
split_head a ks key later above = ground (arith, same_key→eq a key)

-- Without equal neighbours a sorted list repeats no key.
no_neighbours→distinct :
    (ks : List (List ℕ))
    → IsSorted ks
    → equal_neighbours ks ≡ none
    → (key : List ℕ) → count key ks ≤ 1
unfolding equal_neighbours
no_neighbours→distinct [] s h key = unfold count in omega arith
no_neighbours→distinct (a ∷ []) s h key = unfold count in ground arith
no_neighbours→distinct (a ∷ (b ∷ rest)) s h key =
    let differ : same_key a b ≡ false = ground arith in
    let later = no_neighbours→distinct (b ∷ rest) s.1 (ground arith) key in
    let above : count a (b ∷ rest) ≡ 0 = count-above_head a b rest s.0.0 differ s.1.0 in
    split_head a (b ∷ rest) key later above

-- Equal neighbours are a key that occurs twice.
neighbours→twice :
    (ks : List (List ℕ)) (key : List ℕ) → equal_neighbours ks ≡ some key → 2 ≤ count key ks
unfolding equal_neighbours count
neighbours→twice [] key h = cc
neighbours→twice (a ∷ []) key h = cc
neighbours→twice (a ∷ (b ∷ rest)) key h =
    ground
      (arith, same_key→eq a b, same_key_refl a, same_key_refl key, neighbours→twice (b ∷ rest) key)

-- The answer is a key that occurs twice, and there is none exactly where every key occurs at most
-- once.
pub first_duplicate_lem :
    (keys : List (List ℕ))
    → ((key : List ℕ) → first_duplicate keys ≡ some key → 2 ≤ count key keys)
      × (first_duplicate keys ≡ none → (key : List ℕ) → count key keys ≤ 1)
unfolding first_duplicate
first_duplicate_lem keys = (
  λ key h. omega (arith, neighbours→twice (sort_unstable keys) key h, count-sort_unstable key keys),
  λ h key. omega (
    arith,
    no_neighbours→distinct (sort_unstable keys) (sort_unstable-IsSorted keys) h key,
    count-sort_unstable key keys,
  ),
)
