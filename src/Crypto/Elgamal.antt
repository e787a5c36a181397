-- ===== src/Crypto/Elgamal.antt =====
-- crypto/src/elgamal.rs. The tracing calls are left out. On a 64-bit machine `usize` holds every
-- offset that `decrypt` computes, so offsets are plain numbers.
pub mod Words
pub mod Format
pub mod Padding
pub mod RoundTrip
pub mod Safety
pub mod Panic
use mathlib.Core.List.{reverse}
use da_concept.Base.{
  ℕ, zero, suc, ◌+◌, ◌*◌, ◌/◌, ◌%◌, ◌^◌, bit_and, bit_or, Option, none, some, List, [], ◌∷◌, ◌++◌,
  map, length, ltb, ◌==◌, if◌then◌else◌,
}
use da_concept.Base.Outcome.{Outcome, ok, err, unwrap_ok, reject_if, ◌>>=◌, ◌>>◌}
use da_concept.Crypto.Types.{
  PrivateKey, Ciphertext, CryptoError, invalid_ciphertext, decode_decrypted_message,
}
use da_concept.Crypto.Crates.{Crates, Result}
use da_concept.Crypto.Std.{
  as_u32, to_le_bytes, from_le_bytes, index, slice, chunks, is_utf8, from_utf8,
}
use da_concept.Crypto.PrivateKey
use da_concept.Crypto.PublicKey

-- `value |= (byte as u32) << (i * 8)` over a chunk.
unfoldable pub pack : ℕ → ℕ → List ℕ → ℕ
pack i value [] = value
pack i value (byte ∷ rest) = pack (i + 1) (bit_or value (as_u32 (byte * 2 ^ (i * 8)))) rest

-- The four pushes of a chunk's bytes.
unfoldable pub unpack : List ℕ → List ℕ
unpack [] = []
unpack (chunk ∷ rest) =
    (bit_and chunk 0xFF % 256)
    ∷ (bit_and (chunk / 2 ^ 8) 0xFF % 256)
    ∷ (bit_and (chunk / 2 ^ 16) 0xFF % 256)
    ∷ (bit_and (chunk / 2 ^ 24) 0xFF % 256)
    ∷ unpack rest

-- `while bytes.last() == Some(&0) { bytes.pop(); }`, on the bytes from the last to the first.
unfoldable pub pop_zeros : List ℕ → List ℕ
pop_zeros [] = []
pop_zeros (last ∷ front) =
    let popped = pop_zeros front in if last == 0 then popped else last ∷ front

unfoldable pub trim : List ℕ → List ℕ
unfolding pop_zeros
trim bytes = reverse (pop_zeros (reverse bytes))

module _ (crates : Crates) where
  -- The `map` over the chunks, with the `unwrap` of each encryption.
  unfoldable pub encrypt_chunks : PrivateKey → List ℕ → ℕ → Result crates (List Ciphertext × ℕ)
  encrypt_chunks key [] rng = ok ([], rng)
  encrypt_chunks key (chunk ∷ chunks) rng = do
    (c, rng) ← unwrap_ok (PublicKey.encrypt crates key.public_key chunk rng)
    (cs, rng) ← encrypt_chunks key chunks rng
    ok (c ∷ cs, rng)

  -- The bytes that the last loop of `encrypt` adds for one ciphertext.
  unfoldable pub store : Ciphertext → List ℕ
  store ciphertext =
      let c1_bytes = crates.to_bytes_le ciphertext.c1 in
      let c2_bytes = crates.to_bytes_le ciphertext.c2 in
      to_le_bytes (as_u32 (length c1_bytes))
      ++ (c1_bytes ++ (to_le_bytes (as_u32 (length c2_bytes)) ++ c2_bytes))

  unfoldable pub store_all : List ℕ → List Ciphertext → List ℕ
  store_all result [] = result
  store_all result (c ∷ cs) = store_all (result ++ store c) cs

  unfoldable pub encrypt : List ℕ → PrivateKey → ℕ → Result crates (List ℕ × ℕ)
  encrypt input key rng = do
    (ciphertexts, rng) ← encrypt_chunks key (map (pack 0 0) (chunks input)) rng
    ok (store_all (to_le_bytes (as_u32 (length ciphertexts))) ciphertexts, rng)

  -- `u32::from_le_bytes([data[at], data[at + 1], data[at + 2], data[at + 3]])`
  unfoldable pub read_u32 : List ℕ → ℕ → Result crates ℕ
  read_u32 data_bytes at = do
    a ← index data_bytes at
    b ← index data_bytes (at + 1)
    c ← index data_bytes (at + 2)
    d ← index data_bytes (at + 3)
    ok (from_le_bytes a b c d)

  -- One round of the loop that reads ciphertexts, with the new offset.
  unfoldable pub read : List ℕ → ℕ → Result crates (Ciphertext × ℕ)
  read data_bytes offset = do
    reject_if (ltb (length data_bytes) (offset + 8)) invalid_ciphertext
    c1_len ← read_u32 data_bytes offset
    let offset1 = offset + 4
    reject_if (ltb (length data_bytes) (offset1 + c1_len + 4)) invalid_ciphertext
    c1_bytes ← slice data_bytes offset1 (offset1 + c1_len)
    let offset2 = offset1 + c1_len
    c2_len ← read_u32 data_bytes offset2
    let offset3 = offset2 + 4
    reject_if (ltb (length data_bytes) (offset3 + c2_len)) invalid_ciphertext
    c2_bytes ← slice data_bytes offset3 (offset3 + c2_len)
    ok (
      record { c1 = crates.from_bytes_le c1_bytes; c2 = crates.from_bytes_le c2_bytes },
      offset3 + c2_len,
    )

  unfoldable pub read_all : ℕ → List ℕ → ℕ → Result crates (List Ciphertext)
  read_all zero data_bytes offset = ok []
  read_all (suc count) data_bytes offset = do
    (c, offset) ← read data_bytes offset
    cs ← read_all count data_bytes offset
    ok (c ∷ cs)

  -- `decrypt`, up to the end of the loop that reads the ciphertexts.
  unfoldable pub parse : List ℕ → Result crates (List Ciphertext)
  parse data_bytes = do
    reject_if (ltb (length data_bytes) 4) invalid_ciphertext
    count ← read_u32 data_bytes 0
    read_all count data_bytes 4

  unfoldable pub decrypt_chunks : PrivateKey → List Ciphertext → Result crates (List ℕ)
  decrypt_chunks key [] = ok []
  decrypt_chunks key (ciphertext ∷ ciphertexts) = do
    message ← PrivateKey.decrypt crates key ciphertext
    chunk ← index (crates.to_u32_digits message) 0
    chunks ← decrypt_chunks key ciphertexts
    ok (chunk ∷ chunks)

  abbrev pub decoded : Option (List ℕ) → Result crates (List ℕ)
  decoded none = err decode_decrypted_message
  decoded (some text) = ok text

  unfoldable pub decrypt : List ℕ → PrivateKey → Result crates (List ℕ)
  decrypt data_bytes key = do
    ciphertexts ← parse data_bytes
    chunks ← decrypt_chunks key ciphertexts
    decoded (from_utf8 (trim (unpack chunks)))
