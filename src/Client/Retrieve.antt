-- ===== src/Client/Retrieve.antt =====
-- A response that decrypts to the selected column is decoded to the payload that was asked for.
use poulpy_pir.Prelude.{
  ℕ, zero, suc, ◌+◌, ◌≤◌, ◌<◌, ◌≡◌, refl, sym, ap, ◌∙◌, ℤ, List, [], ◌∷◌, length, take, drop, leb,
  le→leb, lt→ltb, true, arith,
}
use text.Mathlib.Text.{◌==◌ as str_eq}
use mathlib.Core.Path.{subst}
use poulpy_pir.Error.{ok, >>=-ok, assert}
use poulpy_pir.Loop.{at}
use poulpy_pir.Payload.{Payload}
use poulpy_pir.Database.Layout.{Address, locate}
use poulpy_pir.Database.Matrix.{CoeffMatrix, cell}
use poulpy_pir.Database.Storage.{
  Database, column_height, payload_capacity, payload_address, try_payload_address,
}
use poulpy_pir.Database.Storage.Access.{
  read_column, read_digits, read_record, matrix_index_and_column, payload,
}
use poulpy_pir.Database.Storage.{payloads_per_column}
use poulpy_pir.Database.Storage.Shape.{IsShaped}
use poulpy_pir.Database.Storage.Place.{place_of, slot-lt}
use poulpy_pir.Database.Storage.Read.{slot_fits}
use poulpy_pir.Wire.{Ciphertexts}
use poulpy_pir.Wire.Response.{Response}
use poulpy_pir.Client.{Cipher}
use poulpy_pir.Client.Decode.{
  Client, QueryState, decrypt_unchecked, try_decode, collapse_name, response_name, payload_digits,
}

-- A part of a run of cells.
read_column_prefix :
    (x : CoeffMatrix) (row c h e : ℕ) (digits : List ℤ)
    → e ≤ h
    → read_column x row c h ≡ ok digits
    → read_column x row c e ≡ ok (take e digits)
unfolding read_column
read_column_prefix x row c h zero digits le run = refl
read_column_prefix x row c zero (suc e) digits le run = absurd (omega arith)
read_column_prefix x row c (suc h) (suc e) digits le run =
    let (v, here, more) = >>=-ok (cell x row c) _ digits run in
    let (vs, there, same) = >>=-ok (read_column x (row + 1) c h) _ digits more in
    let whole : v ∷ vs ≡ digits = cc in
    rw (here, read_column_prefix x (row + 1) c h e vs (omega arith) there)
      (ap (λ (ds : List ℤ). ok (take (suc e) ds)) whole)

run_step :
    (x : CoeffMatrix) (row c h : ℕ) (digits : List ℤ)
    → read_column x row c (suc h) ≡ ok digits
    → (v : ℤ) × (vs : List ℤ) × (read_column x (row + 1) c h ≡ ok vs) × (v ∷ vs ≡ digits)
unfolding read_column
run_step x row c h digits run =
    let (v, here, more) = >>=-ok (cell x row c) _ digits run in
    let (vs, there, same) = >>=-ok (read_column x (row + 1) c h) _ digits more in (v, vs, there, cc)

empty_run :
    (x : CoeffMatrix) (row c : ℕ) (digits : List ℤ)
    → read_column x row c 0 ≡ ok digits
    → digits ≡ []
unfolding read_column
empty_run x row c digits run = cc

arith_zero : (n : ℕ) → n + 0 ≡ n
arith_zero n = omega arith

read_column_part :
    (x : CoeffMatrix) (row c h off e : ℕ) (digits : List ℤ)
    → off + e ≤ h
    → read_column x row c h ≡ ok digits
    → read_column x (row + off) c e ≡ ok (take e (drop off digits))
read_column_part x row c h zero e digits le run =
    rw (arith_zero row) (read_column_prefix x row c h e digits (omega arith) run)
read_column_part x row c zero (suc off) e digits le run = absurd (omega arith)
read_column_part x row c (suc h) (suc off) e digits le run =
    let (v, vs, there, whole) = run_step x row c h digits run in
    ap (λ (r : ℕ). read_column x r c e) (omega arith)
    ∙ read_column_part x (row + 1) c h off e vs (omega arith) there
    ∙ ap (λ (ds : List ℤ). ok (take e (drop (suc off) ds))) whole

length-read_column :
    (x : CoeffMatrix) (row c h : ℕ) (digits : List ℤ)
    → read_column x row c h ≡ ok digits
    → length digits ≡ h
length-read_column x row c zero digits run = ap length (empty_run x row c digits run)
length-read_column x row c (suc h) digits run =
    let (v, vs, there, whole) = run_step x row c h digits run in
    ap length (sym whole) ∙ ap suc (length-read_column x (row + 1) c h vs there)

-- A part of the column that a record is.
read_digits_part :
    (db : Database) (column grid_row off e : ℕ) (digits : List ℤ)
    → off + e ≤ column_height db
    → read_digits db column grid_row 0 (column_height db) ≡ ok digits
    → (read_digits db column grid_row off e ≡ ok (take e (drop off digits)))
      × (length digits ≡ column_height db)
unfolding read_digits
read_digits_part db column grid_row off e digits le run =
    let (_, _, run1) =
      >>=-ok (assert (leb (0 + column_height db) (column_height db))) _ digits run in
    let ((m, base, c), place, run2) =
      >>=-ok (matrix_index_and_column db grid_row column) _ digits run1 in
    let (x, found, run3) = >>=-ok (at db.matrices m) _ digits run2 in
    let run4 : read_column x base c (column_height db) ≡ ok digits =
      ap (λ (r : ℕ). read_column x r c (column_height db)) (omega arith) ∙ run3 in
    let part = read_column_part x base c (column_height db) off e digits le run4 in
    (
      rw (le→leb _ _ le) (rw place (rw found part)),
      length-read_column x base c (column_height db) digits run4,
    )

module _ {c : Ciphertexts} (x : Cipher c) (p : Payload) (client : Client) (response : Response c)
    (st : QueryState x p) (digits : List ℤ) where
  -- What the client makes of the digits of the right column, whatever the server did to get there.
  try_decode_part :
      str_eq (collapse_name client.params.collapse) (response_name x p response) ≡ true
      → decrypt_unchecked x p client response st.sk ≡ ok digits
      → st.address.row_offset + p.exponent ≤ length digits
      → try_decode x p client response st
        ≡ ok (p.decode (payload_digits x p st.address.row_offset digits))
  unfolding try_decode
  try_decode_part kind run fits = rw kind (rw run (rw (le→leb _ _ fits)))

-- The part of the column that an address of the database names.
address_fits :
    (p : Payload) (db : Database) (i : ℕ) (a : Address)
    → IsShaped p.exponent db
    → 0 < p.exponent
    → i < payload_capacity p db
    → payload_address p db i ≡ ok a
    → a.row_offset + p.exponent ≤ column_height db
unfolding payload_address try_payload_address locate place_of
address_fits p db i a s e_pos lt place =
    let fits = slot_fits (column_height db) p.exponent _ (slot-lt p db s e_pos i lt) in
    let found : payload_address p db i
        ≡ ok (locate db.cols (payloads_per_column p db) p.exponent i) =
      rw (lt→ltb _ _ lt) in
    let same : locate db.cols (payloads_per_column p db) p.exponent i ≡ a = cc in
    subst (λ (b : Address). b.row_offset + p.exponent ≤ column_height db) same fits

-- A response that decrypts to the column of a payload, and is of the variant that the client asked for, is
-- decoded to that payload.
pub retrieve :
    {c : Ciphertexts} (x : Cipher c) (p : Payload) (client : Client) (response : Response c)
    (st : QueryState x p) (digits : List ℤ) (db : Database) (i : ℕ)
    → IsShaped p.exponent db
    → 0 < p.exponent
    → i < payload_capacity p db
    → payload_address p db i ≡ ok st.address
    → read_record db st.address.column st.address.matrix ≡ ok digits
    → str_eq (collapse_name client.params.collapse) (response_name x p response) ≡ true
    → decrypt_unchecked x p client response st.sk ≡ ok digits
    → try_decode x p client response st ≡ payload p db i
unfolding payload read_record
retrieve x p client response st digits db i s e_pos lt place column kind run =
    let a = st.address in
    let fits = address_fits p db i a s e_pos lt place in
    let (part, len) =
      read_digits_part db a.column a.matrix a.row_offset p.exponent digits fits column in
    try_decode_part x p client response st digits kind run (rw len fits) ∙ sym (rw place (rw part))
