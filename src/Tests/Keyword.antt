-- ===== src/Tests/Keyword.antt =====
-- A directory over one-byte keys whose hash is the key modulo the number of keys.
use poulpy_pir.Prelude.{
  ℕ, ◌+◌, ◌%◌, ◌^◌, ◌≤◌, ◌<◌, ◌≡◌, ◌≢◌, inl, refl, List, [], ◌∷◌, ◌++◌, none, some, false, true,
  length, arith, from_le_bytes, mod_bound,
}
use poulpy_pir.Io.{ok, read_u64, write_u64, read_u64-append}
use poulpy_pir.Keyword.Key.{lookup, position, same_key}
use poulpy_pir.Keyword.Error.{KeywordResult, duplicate_key, capacity_exceeded}
use poulpy_pir.Keyword.Mphf.{PtrHash, first_duplicate}
use poulpy_pir.Keyword.Mphf.Duplicates.{count, first_duplicate_lem}
use poulpy_pir.Keyword.Directory.{
  KeywordDirectory, Header, len, push, new, index, append_key, write_to, read_from,
  write_delta_envelope_from, apply_delta, apply_delta_envelope,
}
use poulpy_pir.Keyword.Directory.Invariant.{member, IsConsistent, append_key-IsConsistent}
use poulpy_pir.Keyword.Directory.Reachable.{IsReachable, IsReachable-IsConsistent}
use poulpy_pir.Keyword.Directory.Push.{push_refused, push_lem, index_lem}
use poulpy_pir.Keyword.Directory.Envelope.{words, IsWord64}
use poulpy_pir.Keyword.Directory.Sync.{
  LagsBehind, apply_delta_envelope-write, apply_delta_envelope_refused,
}
use poulpy_pir.Keyword.Directory.Persist.{read_from-write_to}

abbrev modular : PtrHash
modular = record {
  Phf = ℕ;
  try_new = λ keys. some (length keys);
  phf_index = λ n key. from_le_bytes key % n;
  write_portable = write_u64;
  read_portable = read_u64;
}

abbrev one_byte : ℕ → List ℕ
one_byte b = b ∷ []

-- The keys 4 and 7 in the hash, room for five.
abbrev base : KeywordDirectory ℕ
base = record {
  mphf = record { phf = 2; n = 2 };
  delta_keys = [];
  delta_lookup = [];
  version = 3;
  capacity = 5;
}

base-IsConsistent : IsConsistent 1 base
base-IsConsistent = record {
  lookup_eq = λ k. unfold lookup position in refl;
  distinct = tt;
  within = omega arith;
  small = omega arith;
  keys = tt;
}

-- The client has learned of the key 9.
abbrev client : KeywordDirectory ℕ
client = append_key base (one_byte 9)

client-IsConsistent : IsConsistent 1 client
client-IsConsistent =
    append_key-IsConsistent 1 base (one_byte 9) base-IsConsistent refl (omega arith) refl

client_keys : client.delta_keys ≡ one_byte 9 ∷ []
unfolding append_key
client_keys = refl

client-len : len client ≡ 3
unfolding append_key
client-len = refl

twelve_fresh : member (one_byte 12) client.delta_keys ≡ false
unfolding append_key same_key
twelve_fresh = refl

nine_old : member (one_byte 9) client.delta_keys ≡ true
unfolding append_key same_key
nine_old = refl

-- The server has appended 12 as well.
abbrev server : KeywordDirectory ℕ
server = append_key client (one_byte 12)

client_capacity : client.capacity ≡ 5
unfolding append_key
client_capacity = refl

server-IsConsistent : IsConsistent 1 server
server-IsConsistent =
    append_key-IsConsistent 1 client (one_byte 12) client-IsConsistent twelve_fresh
      (omega (arith, client-len, client_capacity)) refl

client-LagsBehind : LagsBehind client server
unfolding append_key
client-LagsBehind = record {
  mphf = refl;
  version = refl;
  capacity = refl;
  front = refl;
  shorter = omega arith;
}

server_version : server.version < 2 ^ 64
unfolding append_key
server_version = omega arith

server_read_portable :
    (rest : List ℕ) → read_u64 (write_u64 server.mphf.phf ++ rest) ≡ ok (server.mphf.phf, rest)
unfolding append_key
server_read_portable rest = read_u64-append 2 rest (omega arith)

first_duplicate_lem_example :
    ((k : List ℕ)
      → first_duplicate (one_byte 4 ∷ one_byte 7 ∷ one_byte 4 ∷ []) ≡ some k
      → 2 ≤ count k (one_byte 4 ∷ one_byte 7 ∷ one_byte 4 ∷ []))
    × (first_duplicate (one_byte 4 ∷ one_byte 7 ∷ one_byte 4 ∷ []) ≡ none
        → (k : List ℕ) → count k (one_byte 4 ∷ one_byte 7 ∷ one_byte 4 ∷ []) ≤ 1)
first_duplicate_lem_example = first_duplicate_lem (one_byte 4 ∷ one_byte 7 ∷ one_byte 4 ∷ [])

four_twice : first_duplicate (one_byte 4 ∷ one_byte 7 ∷ one_byte 4 ∷ []) ≡ some (one_byte 4)
unfolding first_duplicate
four_twice = refl

push_refused_example :
    (member (one_byte 9) client.delta_keys ≡ true
      → push client (one_byte 9) ≡ (client, KeywordResult.err (duplicate_key (one_byte 9))))
    × (member (one_byte 9) client.delta_keys ≡ false
        → client.capacity ≤ len client
        → push client (one_byte 9)
          ≡ (client, KeywordResult.err (capacity_exceeded (len client + 1) client.capacity)))
push_refused_example = push_refused modular 1 client client-IsConsistent (one_byte 9)

push_lem_example :
    (d' : KeywordDirectory ℕ) × (push client (one_byte 12) ≡ (d', KeywordResult.ok (len client)))
    × (index modular d' (one_byte 12) ≡ len client)
    × ((k : List ℕ) → k ≢ one_byte 12 → index modular d' k ≡ index modular client k)
    × (len d' ≡ len client + 1)
    × IsConsistent 1 d'
push_lem_example =
    push_lem modular 1 client client-IsConsistent (one_byte 12) twelve_fresh
      (omega (arith, client-len, client_capacity)) refl

client_total : (k : List ℕ) → 0 < client.mphf.n → from_le_bytes k % client.mphf.phf < client.mphf.n
unfolding append_key
client_total k h = mod_bound (from_le_bytes k) 2 (omega arith)

client_hash : 0 < client.mphf.n
unfolding append_key
client_hash = omega arith

index_lem_example :
    ((k : List ℕ) → index modular client k < len client)
    × ((a b : List ℕ)
        → member a client.delta_keys ≡ true
        → index modular client a ≡ index modular client b
        → a ≡ b)
index_lem_example = index_lem modular 1 client client-IsConsistent client_total client_hash

base-IsReachable : IsReachable modular 1 base
unfolding new
base-IsReachable = IsReachable.made base.mphf 5 3 (omega arith) refl

-- A delta that announces three keys and ends after two.
abbrev cut_delta : List ℕ
cut_delta = write_u64 3 ++ (1 ∷ 2 ∷ [])

IsReachable-IsConsistent_example :
    IsConsistent 1 (push (apply_delta 1 base cut_delta).0 (one_byte 9)).0
IsReachable-IsConsistent_example =
    IsReachable-IsConsistent modular 1
      (IsReachable.pushed (one_byte 9) refl (IsReachable.synced cut_delta base-IsReachable))

apply_delta_envelope-write_example :
    (bytes : List ℕ) × (write_delta_envelope_from server (length client.delta_keys) ≡ ok bytes)
    × (updated : KeywordDirectory ℕ) × ((rest : List ℕ)
        → apply_delta_envelope 1 client (bytes ++ rest) ≡ (updated, ok rest))
    × (updated.delta_keys ≡ server.delta_keys)
    × IsConsistent 1 updated
    × ((k : List ℕ) → index modular updated k ≡ index modular server k)
apply_delta_envelope-write_example =
    apply_delta_envelope-write modular 1 client server client-IsConsistent server-IsConsistent
      client-LagsBehind server_version

-- An envelope of the generation after the client's.
abbrev next_generation : Header
next_generation = record { version = 4; base_len = 2; start = 0; count = 0; capacity = 5 }

next_generation-IsWord64 : IsWord64 next_generation
next_generation-IsWord64 = record {
  version = omega arith;
  base_len = omega arith;
  start = omega arith;
  count = omega arith;
  capacity = omega arith;
}

next_generation_differs : next_generation.version ≢ base.version
next_generation_differs e = omega arith

apply_delta_envelope_refused_example :
    let (after, result) = apply_delta_envelope 1 base (words next_generation []) in
    (after ≡ base) × ((left : List ℕ) → result ≢ ok left)
apply_delta_envelope_refused_example =
    apply_delta_envelope_refused 1 base next_generation [] next_generation-IsWord64
      (inl next_generation_differs)

read_from-write_to_example :
    (copied : KeywordDirectory ℕ) × ((rest : List ℕ)
      → read_from modular 1 (write_to modular server ++ rest) ≡ ok (copied, rest))
    × (copied.version ≡ server.version)
    × (copied.capacity ≡ server.capacity)
    × (copied.mphf ≡ server.mphf)
    × (copied.delta_keys ≡ server.delta_keys)
    × ((k : List ℕ) → index modular copied k ≡ index modular server k)
read_from-write_to_example =
    read_from-write_to modular 1 server server-IsConsistent server_version server_read_portable
