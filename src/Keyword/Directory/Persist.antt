-- ===== src/Keyword/Directory/Persist.antt =====
-- A directory that is written and read back answers as before.
use poulpy_pir.Prelude.{
  ℕ, ◌+◌, ◌^◌, ◌≤◌, ◌<◌, ◌≡◌, refl, sym, ap, ◌∙◌, List, [], ◌++◌, min, length, drop, arith, le→leb,
  le→ltb,
}
use poulpy_pir.Io.{ok, read_u64, write_u64, read_u64-append}
use poulpy_pir.Keyword.Key.{lookup, position}
use poulpy_pir.Keyword.Mphf
use poulpy_pir.Keyword.Mphf.{PtrHash, KeywordIndex}
use poulpy_pir.Keyword.Directory.{
  KeywordDirectory, len, write_keys, read_keys, read_delta_entries, read_delta, index,
  write_delta_from, write_to, read_from, usize_max,
}
use poulpy_pir.Keyword.Directory.Invariant.{IsConsistent}
use poulpy_pir.Keyword.Directory.Sync.{
  extend, read_keys-write_keys, version-extend, capacity-extend,
}
use mathlib.Core.List.{append_assoc}

module _ (h : PtrHash) (size : ℕ) where
  open h use {Phf, write_portable, read_portable}

  module _ (d : KeywordDirectory Phf) (c : IsConsistent size d) (word : d.version < 2 ^ 64)
      (portable : (rest : List ℕ)
        → read_portable (write_portable d.mphf.phf ++ rest) ≡ ok (d.mphf.phf, rest)) where
    read_from-write_to_hash :
        (rest : List ℕ) → Mphf.read_from h (Mphf.write_to h d.mphf ++ rest) ≡ ok (d.mphf, rest)
    unfolding Mphf.read_from Mphf.write_to
    read_from-write_to_hash rest =
        rw (append_assoc (write_u64 d.mphf.n) (write_portable d.mphf.phf) rest) (
          rw
            (read_u64-append d.mphf.n (write_portable d.mphf.phf ++ rest)
              (omega (arith, c.within, c.small)))
            (rw (portable rest)))

    abbrev empty : KeywordDirectory Phf
    empty = record {
      mphf = d.mphf;
      delta_keys = [];
      delta_lookup = [];
      version = d.version;
      capacity = d.capacity;
    }

    abbrev copy : KeywordDirectory Phf
    copy = extend empty d.delta_keys

    empty-IsConsistent : IsConsistent size empty
    empty-IsConsistent = record {
      lookup_eq = λ key. unfold lookup position in refl;
      distinct = tt;
      within = omega (arith, c.within);
      small = c.small;
      keys = tt;
    }

    read_step :
        (e : KeywordDirectory Phf) (input : List ℕ) (count : ℕ) (rest : List ℕ)
        → read_u64 input ≡ ok (count, rest)
        → len e + count ≤ e.capacity
        → read_delta size e input ≡ read_keys size count e rest
    unfolding read_delta read_delta_entries
    read_step e input count rest front room =
        ground (arith, front, le→ltb e.capacity (min (len e + count) usize_max))

    delta_lem :
        (rest : List ℕ)
        → (read_delta size empty (write_delta_from d 0 ++ rest) ≡ (copy, ok rest))
          × IsConsistent size copy
          × (copy.delta_keys ≡ d.delta_keys)
          × (copy.mphf ≡ d.mphf)
    unfolding write_delta_from
    delta_lem rest =
        let (run, kept, keys, hash) =
          read_keys-write_keys size empty d.delta_keys rest empty-IsConsistent c.distinct c.keys
            (omega (arith, c.within)) in
        let all : drop (min 0 (length d.delta_keys)) d.delta_keys ≡ d.delta_keys =
          let z : min 0 (length d.delta_keys) ≡ 0 = omega arith in rw z in
        (
          rw (all, append_assoc (write_u64 (length d.delta_keys)) (write_keys d.delta_keys) rest)
              (read_step empty _ (length d.delta_keys) _
                  (read_u64-append (length d.delta_keys) (write_keys d.delta_keys ++ rest)
                    (omega (arith, c.within, c.small)))
                  (omega (arith, c.within, c.small))
                ∙ run),
          kept,
          keys,
          hash,
        )

    -- Reading what `write_to` wrote gives a directory of the same version, capacity, hash and delta,
    -- in which every key has the index that it had, and leaves the bytes that follow.
    pub read_from-write_to :
        (copied : KeywordDirectory Phf) × ((rest : List ℕ)
          → read_from h size (write_to h d ++ rest) ≡ ok (copied, rest))
        × (copied.version ≡ d.version)
        × (copied.capacity ≡ d.capacity)
        × (copied.mphf ≡ d.mphf)
        × (copied.delta_keys ≡ d.delta_keys)
        × ((key : List ℕ) → index h copied key ≡ index h d key)
    unfolding read_from write_to index
    read_from-write_to =
        let (run, kept, keys, hash) = delta_lem [] in
        (
          copy,
          λ rest. rw (append_assoc (write_u64 d.version) _ rest) (
              rw (append_assoc (write_u64 d.capacity) _ rest) (
                rw (append_assoc (Mphf.write_to h d.mphf) _ rest) (
                  rw (read_u64-append d.version _ word) (
                    rw (read_u64-append d.capacity _ (omega (arith, c.small))) (
                      rw (read_from-write_to_hash _) (
                        rw (le→leb d.mphf.n d.capacity (omega (arith, c.within)))
                          (rw ((delta_lem rest).0)))))))),
          version-extend empty d.delta_keys,
          capacity-extend empty d.delta_keys,
          hash,
          keys,
          λ key.
              let same : lookup key copy.delta_lookup ≡ lookup key d.delta_lookup =
                kept.lookup_eq key ∙ ap (position key 0) keys ∙ sym (c.lookup_eq key) in
              ground (arith, same, hash),
        )
