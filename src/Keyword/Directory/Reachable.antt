-- ===== src/Keyword/Directory/Reachable.antt =====
-- src/keyword/directory.rs: every directory that the operations lead to is consistent, whatever keys and bytes
-- they get.
use poulpy_pir.Prelude.{
  ℕ, zero, suc, ◌+◌, ◌^◌, ◌≤◌, ◌≡◌, refl, sym, ap, ◌∙◌, min, List, [], ◌∷◌, length, length-append,
  length-take, ◌⊎◌, lt→ltb, le→ltb, lt→leb, le→leb, take, Bool-cases, inl, inr, arith,
}
use native.Mathlib.Decide.{dec_lt}
use mathlib.Core.Path.{subst}
use poulpy_pir.Io.{IoResult, IoError, ok, err, invalid_data, read_exact, read_u64}
use poulpy_pir.Keyword.Key.{IsKey}
use poulpy_pir.Keyword.Error.{KeywordResult, KeywordError}
use poulpy_pir.Keyword.Mphf
use poulpy_pir.Keyword.Mphf.{PtrHash, KeywordIndex}
use poulpy_pir.Keyword.Directory.{
  KeywordDirectory, len, append_key, contains_key, new, push, read_keys, read_delta_entries,
  read_delta, apply_delta, read_header, check_header, apply_delta_envelope, rebuilt, renew,
  usize_max,
}
use poulpy_pir.Keyword.Directory.Invariant.{
  IsConsistent, new_lem, contains-member, append_key-IsConsistent,
}

outcome {ℓ} : {A : Type ℓ} (r : IoResult A) → ((e : IoError) × (r ≡ err e)) ⊎ ((a : A) × (r ≡ ok a))
outcome (IoResult.err e) = inl (e, refl)
outcome (IoResult.ok a) = inr (a, refl)

read_exact-IsKey :
    (size : ℕ) (input key rest : List ℕ) → read_exact size input ≡ ok (key, rest) → IsKey size key
unfolding read_exact
read_exact-IsKey size input key rest h =
    let e : take size input ≡ key = ground arith in
    let enough : size ≤ length input = ground arith in
    ap length (sym e) ∙ length-take size input enough

module _ (size : ℕ) {Phf : Type 0} where
  -- What a reader leaves is consistent where its outcome is known to be.
  left_by :
      (d : KeywordDirectory Phf) (r : KeywordDirectory Phf × IoResult (List ℕ))
      (result : IoResult (List ℕ))
      → r ≡ (d, result)
      → IsConsistent size d
      → IsConsistent size r.0
  left_by d r result e c = subst (IsConsistent size) (sym (ap (λ x. x.0) e)) c

  goes_on :
      (r r' : KeywordDirectory Phf × IoResult (List ℕ))
      → r ≡ r'
      → IsConsistent size r'.0
      → IsConsistent size r.0
  goes_on r r' e c = subst (IsConsistent size) (sym (ap (λ x. x.0) e)) c

  -- The keys of a delta are appended one by one, so what was read before a failure is kept consistent.
  read_keys-IsConsistent :
      (count : ℕ) (d : KeywordDirectory Phf) (input : List ℕ)
      → len d + count ≤ d.capacity
      → IsConsistent size d
      → IsConsistent size (read_keys size count d input).0
  unfolding read_keys append_key
  read_keys-IsConsistent zero d input room c = c
  read_keys-IsConsistent (suc count) d input room c = elim (outcome (read_exact size input)) [
    | inl (e, failed) ↦
        left_by d (read_keys size (suc count) d input) (err e) (ground (arith, failed)) c
    | inr ((key, rest), front) ↦ elim (Bool-cases (contains_key key d.delta_lookup)) [
      | inl known ↦
          left_by d (read_keys size (suc count) d input)
            (err (invalid_data "duplicate key in keyword delta")) (ground (arith, front, known)) c
      | inr fresh ↦
          goes_on (read_keys size (suc count) d input)
            (read_keys size count (append_key d key) rest) (ground (arith, front, fresh))
            (read_keys-IsConsistent count (append_key d key) rest
              (omega (arith, room, length-append d.delta_keys (key ∷ [])))
              (append_key-IsConsistent size d key c (sym (contains-member size d key c) ∙ fresh)
                (omega arith) (read_exact-IsKey size input key rest front)))
    ]
  ]

  read_delta_entries-IsConsistent :
      (count : ℕ) (d : KeywordDirectory Phf) (input : List ℕ)
      → IsConsistent size d
      → IsConsistent size (read_delta_entries size count d input).0
  unfolding read_delta_entries
  read_delta_entries-IsConsistent count d input c =
      elim (dec_lt d.capacity (min (len d + count) usize_max)) [
        | yes over ↦ rw (lt→ltb _ _ over) c
        | no within ↦
            rw (le→ltb d.capacity (min (len d + count) usize_max) (omega arith))
              (read_keys-IsConsistent count d input (omega (arith, c.small)) c)
      ]

  read_delta-IsConsistent :
      (d : KeywordDirectory Phf) (input : List ℕ)
      → IsConsistent size d
      → IsConsistent size (read_delta size d input).0
  unfolding read_delta
  read_delta-IsConsistent d input c = elim (outcome (read_u64 input)) [
    | inl (e, failed) ↦ left_by d (read_delta size d input) (err e) (ground (arith, failed)) c
    | inr ((count, rest), front) ↦
        goes_on (read_delta size d input) (read_delta_entries size count d rest)
          (ground (arith, front)) (read_delta_entries-IsConsistent count d rest c)
  ]

  apply_delta_envelope-IsConsistent :
      (d : KeywordDirectory Phf) (input : List ℕ)
      → IsConsistent size d
      → IsConsistent size (apply_delta_envelope size d input).0
  unfolding apply_delta_envelope
  apply_delta_envelope-IsConsistent d input c = elim (outcome (read_header input)) [
    | inl (e, failed) ↦
        left_by d (apply_delta_envelope size d input) (err e) (ground (arith, failed)) c
    | inr ((header, rest), front) ↦ elim (outcome (check_header d header)) [
      | inl (e, failed) ↦
          left_by d (apply_delta_envelope size d input) (err e) (ground (arith, front, failed)) c
      | inr (u, checked) ↦
          goes_on (apply_delta_envelope size d input) (read_delta_entries size header.count d rest)
            (ground (arith, front, checked)) (read_delta_entries-IsConsistent header.count d rest c)
    ]
  ]

  push-IsConsistent :
      (d : KeywordDirectory Phf) (key : List ℕ)
      → IsKey size key
      → IsConsistent size d
      → IsConsistent size (push d key).0
  unfolding push
  push-IsConsistent d key fits c = elim (Bool-cases (contains_key key d.delta_lookup)) [
    | inl known ↦ rw known c
    | inr fresh ↦ elim (dec_lt (len d) d.capacity) [
      | no over ↦ rw fresh (rw (le→leb d.capacity (len d) (omega arith)) c)
      | yes room ↦ rw fresh (
          rw (lt→leb d.capacity (len d) room) (
            append_key-IsConsistent size d key c (sym (contains-member size d key c) ∙ fresh) room
              fits))
    ]
  ]

  new-IsConsistent :
      (mphf : KeywordIndex Phf) (capacity version : ℕ) (d : KeywordDirectory Phf)
      → capacity ≤ 2 ^ 32
      → new mphf capacity version ≡ KeywordResult.ok d
      → IsConsistent size d
  new-IsConsistent mphf capacity version d small made =
      let (refused, accepted) = new_lem size mphf capacity version small in
      elim (dec_lt capacity mphf.n) [
        | yes over ↦ cc (refused over, made)
        | no within ↦
            let (d', run, c, _, _, _) = accepted (omega arith) in
            let e : d' ≡ d = cc (run, made) in subst (IsConsistent size) e c
      ]

module _ (h : PtrHash) (size : ℕ) where
  -- What the operations make of a directory for at most `2 ^ 32` keys of `size` bytes: a new one, an append,
  -- a delta or an envelope read from any bytes, accepted or not, and a rebuilt one.
  pub data IsReachable : KeywordDirectory h.Phf → Type 0 where
    made :
        (mphf : KeywordIndex h.Phf) (capacity version : ℕ) {d : KeywordDirectory h.Phf}
        → capacity ≤ 2 ^ 32
        → new mphf capacity version ≡ KeywordResult.ok d
        → IsReachable d
    pushed :
        {d : KeywordDirectory h.Phf} (key : List ℕ)
        → IsKey size key
        → IsReachable d
        → IsReachable (push d key).0
    synced :
        {d : KeywordDirectory h.Phf} (input : List ℕ)
        → IsReachable d
        → IsReachable (apply_delta size d input).0
    received :
        {d : KeywordDirectory h.Phf} (input : List ℕ)
        → IsReachable d
        → IsReachable (apply_delta_envelope size d input).0
    renewed :
        {d d' : KeywordDirectory h.Phf} (keys : List (List ℕ))
        → IsReachable d
        → rebuilt h d keys ≡ KeywordResult.ok d'
        → IsReachable d'

  built :
      (r : KeywordResult (KeywordIndex h.Phf))
      → ((e : KeywordError) × (r ≡ KeywordResult.err e))
        ⊎ ((mphf : KeywordIndex h.Phf) × (r ≡ KeywordResult.ok mphf))
  built (KeywordResult.err e) = inl (e, refl)
  built (KeywordResult.ok mphf) = inr (mphf, refl)

  rebuilt-IsConsistent :
      (d d' : KeywordDirectory h.Phf) (keys : List (List ℕ))
      → IsConsistent size d
      → rebuilt h d keys ≡ KeywordResult.ok d'
      → IsConsistent size d'
  unfolding rebuilt
  rebuilt-IsConsistent d d' keys c run = elim (built (Mphf.build h keys)) [
    | inl (e, failed) ↦ cc (failed, run)
    | inr (mphf, good) ↦
        new-IsConsistent size mphf d.capacity (d.version + 1) d' c.small
          (sym (ap (renew h d) good) ∙ run)
  ]

  -- Every directory that a new one for at most `2 ^ 32` keys leads to by pushes of keys of its size, deltas and
  -- envelopes read from any bytes, whether they are accepted or fail half way, and rebuilds is consistent:
  -- its map gives each delta key the position that the list gives it, no key is twice in the list, every
  -- key has the size, and the keys are within the capacity.
  pub IsReachable-IsConsistent : {d : KeywordDirectory h.Phf} → IsReachable d → IsConsistent size d
  unfolding apply_delta
  IsReachable-IsConsistent (made mphf capacity version {d} small run) =
      new-IsConsistent size mphf capacity version d small run
  IsReachable-IsConsistent (pushed {d} key fits r) =
      push-IsConsistent size d key fits (IsReachable-IsConsistent r)
  IsReachable-IsConsistent (synced {d} input r) =
      read_delta-IsConsistent size d input (IsReachable-IsConsistent r)
  IsReachable-IsConsistent (received {d} input r) =
      apply_delta_envelope-IsConsistent size d input (IsReachable-IsConsistent r)
  IsReachable-IsConsistent (renewed {d} {d'} keys r run) =
      rebuilt-IsConsistent d d' keys (IsReachable-IsConsistent r) run
