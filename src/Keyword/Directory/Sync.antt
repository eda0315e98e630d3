-- ===== src/Keyword/Directory/Sync.antt =====
-- A delta envelope takes a client that lags behind to the server's directory, and is refused
-- unchanged where it does not belong to the client's generation and offset.
use poulpy_pir.Prelude.{
  ℕ, suc, ◌+◌, ◌^◌, ◌≤◌, ◌<◌, min, ◌≡◌, ◌≢◌, ◌⊎◌, refl, sym, ap, ◌∙◌, List, [], ◌∷◌, ◌++◌, false,
  length, length-append, take, drop, take-append-drop, length-drop_le, All, All-drop, arith, le→ltb,
}
use poulpy_pir.Io.{ok, read_exact, read_exact-append}
use poulpy_pir.Keyword.Key.{IsKey, lookup, same_key, position}
use poulpy_pir.Keyword.Mphf.{PtrHash}
use poulpy_pir.Keyword.Directory.{
  KeywordDirectory, Header, len, contains_key, append_key, write_keys, read_keys,
  read_delta_entries, read_header, check_header, apply_delta_envelope, write_delta_envelope_from,
  envelope, index, usize_max,
}
use poulpy_pir.Keyword.Directory.Invariant.{
  same_key_sym, member, Distinct, IsConsistent, contains-member, append_key-IsConsistent,
}
use poulpy_pir.Keyword.Directory.Envelope.{
  IsWord64, header_of, words, read_header-words, envelope-append,
}
use mathlib.Core.List.{append_assoc, append-nil}

-- The directory after appending keys one by one.
pub extend : {Phf : Type 0} → KeywordDirectory Phf → List (List ℕ) → KeywordDirectory Phf
extend d [] = d
extend d (k ∷ ks) = extend (append_key d k) ks

member-middle :
    (j : List ℕ) (ks : List (List ℕ)) (k : List ℕ) (rest : List (List ℕ))
    → member j (ks ++ (k ∷ rest)) ≡ false
    → same_key k j ≡ false
member-middle j [] k rest h = ground arith
member-middle j (i ∷ ks) k rest h = ground (arith, member-middle j ks k rest)

-- `k` is new to `ks` where `ks`, `k` and what follows are distinct together.
Distinct-middle :
    (ks : List (List ℕ)) (k : List ℕ) (rest : List (List ℕ))
    → Distinct (ks ++ (k ∷ rest))
    → member k ks ≡ false
Distinct-middle [] k rest d = refl
Distinct-middle (j ∷ ks) k rest d =
    ground (arith, Distinct-middle ks k rest d.1, same_key_sym k j (member-middle j ks k rest d.0))

module _ {Phf : Type 0} where
  pub version-extend :
      (d : KeywordDirectory Phf) (ks : List (List ℕ)) → (extend d ks).version ≡ d.version
  unfolding extend append_key
  version-extend d [] = refl
  version-extend d (k ∷ ks) = version-extend (append_key d k) ks

  pub capacity-extend :
      (d : KeywordDirectory Phf) (ks : List (List ℕ)) → (extend d ks).capacity ≡ d.capacity
  unfolding extend append_key
  capacity-extend d [] = refl
  capacity-extend d (k ∷ ks) = capacity-extend (append_key d k) ks

module _ {Phf : Type 0} (size : ℕ) where
  read_keys_step :
      (count : ℕ) (d : KeywordDirectory Phf) (input key rest : List ℕ)
      → read_exact size input ≡ ok (key, rest)
      → contains_key key d.delta_lookup ≡ false
      → read_keys size (suc count) d input ≡ read_keys size count (append_key d key) rest
  unfolding read_keys
  read_keys_step count d input key rest front fresh = ground (arith, front, fresh)

  pub read_keys-write_keys :
      (d : KeywordDirectory Phf) (ks : List (List ℕ)) (rest : List ℕ)
      → IsConsistent size d
      → Distinct (d.delta_keys ++ ks)
      → All (IsKey size) ks
      → len d + length ks ≤ d.capacity
      → (read_keys size (length ks) d (write_keys ks ++ rest) ≡ (extend d ks, ok rest))
        × IsConsistent size (extend d ks)
        × ((extend d ks).delta_keys ≡ d.delta_keys ++ ks)
        × ((extend d ks).mphf ≡ d.mphf)
  unfolding read_keys extend append_key
  read_keys-write_keys d [] rest c dist fits room = (refl, c, sym (append-nil d.delta_keys), refl)
  read_keys-write_keys d (k ∷ ks) rest c dist fits room =
      let fresh = Distinct-middle d.delta_keys k ks dist in
      let front : read_exact size ((k ++ write_keys ks) ++ rest) ≡ ok (k, write_keys ks ++ rest) =
        ap (read_exact size) (append_assoc k (write_keys ks) rest)
        ∙ read_exact-append size k (write_keys ks ++ rest) fits.0 in
      let moved = append_assoc d.delta_keys (k ∷ []) ks in
      let (run, kept, keys, hash) =
        read_keys-write_keys (append_key d k) ks rest
          (append_key-IsConsistent size d k c fresh (omega arith) fits.0) (rw moved dist) fits.1
          (omega (arith, length-append d.delta_keys (k ∷ []))) in
      (
        read_keys_step (length ks) d ((k ++ write_keys ks) ++ rest) k (write_keys ks ++ rest) front
              (contains-member size d k c ∙ fresh)
            ∙ run,
        kept,
        keys ∙ moved,
        hash,
      )

apply_step :
    {Phf : Type 0} (size : ℕ) (d : KeywordDirectory Phf) (header : Header) (input rest : List ℕ)
    → read_header input ≡ ok (header, rest)
    → check_header d header ≡ ok tt
    → apply_delta_envelope size d input ≡ read_delta_entries size header.count d rest
unfolding apply_delta_envelope
apply_step size d header input rest front checked = ground (arith, front, checked)

-- An envelope of another generation, base length, offset or capacity is refused, and the directory
-- stays as it was.
pub apply_delta_envelope_refused :
    {Phf : Type 0} (size : ℕ) (d : KeywordDirectory Phf) (header : Header) (rest : List ℕ)
    → IsWord64 header
    → (header.version ≢ d.version)
      ⊎ (header.base_len ≢ d.mphf.n)
      ⊎ (header.start ≢ length d.delta_keys)
      ⊎ (header.capacity ≢ d.capacity)
    → let (after, result) = apply_delta_envelope size d (words header rest) in
      (after ≡ d) × ((left : List ℕ) → result ≢ ok left)
unfolding apply_delta_envelope check_header
apply_delta_envelope_refused size d header rest w wrong =
    let front = read_header-words header rest w in
    (ground (arith, front, wrong), λ left. ground (arith, front, wrong))

-- The client has the server's hash, version and capacity, and a prefix of its delta.
pub record LagsBehind {Phf : Type 0} (client server : KeywordDirectory Phf) : Type 0 where
  pub mphf : client.mphf ≡ server.mphf
  pub version : client.version ≡ server.version
  pub capacity : client.capacity ≡ server.capacity
  pub front : client.delta_keys ≡ take (length client.delta_keys) server.delta_keys
  pub shorter : length client.delta_keys ≤ length server.delta_keys

module _ (h : PtrHash) (size : ℕ) where
  open h use {Phf}

  module _ (client server : KeywordDirectory Phf) (cc_ : IsConsistent size client)
      (cs : IsConsistent size server) (lag : LagsBehind client server)
      (word : server.version < 2 ^ 64) where
    abbrev have : ℕ
    have = length client.delta_keys

    abbrev missing : List (List ℕ)
    missing = drop have server.delta_keys

    whole : client.delta_keys ++ missing ≡ server.delta_keys
    whole = ap (λ front. front ++ missing) lag.front ∙ take-append-drop have server.delta_keys

    room : len client + length missing ≤ client.capacity
    room = omega (
      arith,
      cs.within,
      length-drop_le have server.delta_keys lag.shorter,
      ap (λ m. m.n) lag.mphf,
      lag.capacity,
    )

    read_lem :
        (rest : List ℕ)
        → (read_delta_entries size (length missing) client (write_keys missing ++ rest)
            ≡ (extend client missing, ok rest))
          × IsConsistent size (extend client missing)
          × ((extend client missing).delta_keys ≡ client.delta_keys ++ missing)
          × ((extend client missing).mphf ≡ client.mphf)
    unfolding read_delta_entries
    read_lem rest =
        let (run, kept, keys, hash) =
          read_keys-write_keys size client missing rest cc_ (rw whole cs.distinct)
            (All-drop (IsKey size) have server.delta_keys cs.keys) room in
        (
          rw
              (le→ltb client.capacity (min (len client + length missing) usize_max)
                (omega (arith, room)))
              run,
          kept,
          keys,
          hash,
        )

    same_index : (key : List ℕ) → index h (extend client missing) key ≡ index h server key
    unfolding index
    same_index key =
        let (run, kept, keys, hash) = read_lem [] in
        let same : lookup key (extend client missing).delta_lookup
            ≡ lookup key server.delta_lookup =
          kept.lookup_eq key ∙ ap (position key 0) (keys ∙ whole) ∙ sym (cs.lookup_eq key) in
        ground (arith, same, hash, lag.mphf)

    fits_words : IsWord64 (header_of server have missing)
    fits_words = record {
      version = word;
      base_len = omega (arith, cs.within, cs.small);
      start = omega (arith, cs.within, cs.small, lag.shorter);
      count = omega (arith, cs.within, cs.small, length-drop_le have server.delta_keys lag.shorter);
      capacity = omega (arith, cs.small);
    }

    header_ok : check_header client (header_of server have missing) ≡ ok tt
    unfolding check_header
    header_ok = ground (arith, lag.version, lag.capacity, ap (λ m. m.n) lag.mphf)

    -- For a client and a server that are consistent, of the same hash, version (below `2 ^ 64`) and capacity,
    -- where the client's delta is a prefix of the server's: the envelope that the server writes for the
    -- client's delta length is accepted, makes the client's delta the server's, keeps it consistent, and
    -- is consumed alone; from then on the two resolve every key to the same index.
    pub apply_delta_envelope-write :
        (bytes : List ℕ) × (write_delta_envelope_from server have ≡ ok bytes)
        × (updated : KeywordDirectory Phf) × ((rest : List ℕ)
            → apply_delta_envelope size client (bytes ++ rest) ≡ (updated, ok rest))
        × (updated.delta_keys ≡ server.delta_keys)
        × IsConsistent size updated
        × ((key : List ℕ) → index h updated key ≡ index h server key)
    unfolding write_delta_envelope_from
    apply_delta_envelope-write = (
      envelope server have missing,
      rw (le→ltb (length server.delta_keys) have lag.shorter),
      extend client missing,
      λ rest. rw (envelope-append server have missing rest) (
          apply_step size client (header_of server have missing) _ _
            (read_header-words (header_of server have missing) _ fits_words) header_ok
          ∙ (read_lem rest).0),
      (read_lem []).2 ∙ whole,
      (read_lem []).1,
      same_index,
    )
