-- ===== src/Keyword/Directory/Envelope.antt =====
-- The reader of an envelope's header takes back what the writer wrote.
use poulpy_pir.Prelude.{ℕ, ◌^◌, ◌<◌, ◌≡◌, refl, List, ◌++◌, length}
use poulpy_pir.Io.{ok, write_u64, read_exact-append, read_u64-append}
use poulpy_pir.Keyword.Key.{same_key}
use poulpy_pir.Keyword.Directory.{
  KeywordDirectory, Header, write_keys, read_header, envelope, delta_envelope_magic,
}
use mathlib.Core.List.{append_assoc}

abbrev pub words : Header → List ℕ → List ℕ
words header rest =
    delta_envelope_magic
    ++ (write_u64 header.version
        ++ (write_u64 header.base_len
            ++ (write_u64 header.start
                ++ (write_u64 header.count ++ (write_u64 header.capacity ++ rest)))))

pub record IsWord64 (header : Header) : Type 0 where
  pub version : header.version < 2 ^ 64
  pub base_len : header.base_len < 2 ^ 64
  pub start : header.start < 2 ^ 64
  pub count : header.count < 2 ^ 64
  pub capacity : header.capacity < 2 ^ 64

pub read_header-words :
    (header : Header) (rest : List ℕ)
    → IsWord64 header
    → read_header (words header rest) ≡ ok (header, rest)
unfolding read_header same_key
read_header-words header rest w = rw (read_exact-append 8 delta_envelope_magic _ refl) (
    rw (read_u64-append header.version _ w.version) (
      rw (read_u64-append header.base_len _ w.base_len) (
        rw (read_u64-append header.start _ w.start) (
          rw (read_u64-append header.count _ w.count)
            (rw (read_u64-append header.capacity _ w.capacity))))))

abbrev pub header_of : {Phf : Type 0} → KeywordDirectory Phf → ℕ → List (List ℕ) → Header
header_of d have tail = record {
  version = d.version;
  base_len = d.mphf.n;
  start = have;
  count = length tail;
  capacity = d.capacity;
}

pub envelope-append :
    {Phf : Type 0} (d : KeywordDirectory Phf) (have : ℕ) (tail : List (List ℕ)) (rest : List ℕ)
    → envelope d have tail ++ rest ≡ words (header_of d have tail) (write_keys tail ++ rest)
envelope-append d have tail rest = simp append_assoc
