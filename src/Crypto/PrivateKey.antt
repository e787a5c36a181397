-- ===== src/Crypto/PrivateKey.antt =====
-- `impl PrivateKey` of crypto/src/keypair.rs, with the constant PRIME and the random bytes. Random
-- requests are numbered; a function that makes some takes the next number and returns the new one.
use Prim.Native.Char.{code}
use da_concept.Base.{ℕ, ◌+◌, ◌*◌, List, [], ◌∷◌, String}
use da_concept.Base.Outcome.{Outcome, ok, err, panic, unwrap, ok_or, ◌>>=◌}
use da_concept.Crypto.Types.{PrivateKey, Ciphertext, invalid_ciphertext, base64_decoding}
use da_concept.Crypto.Crates.{Crates, Result, rem}

abbrev pub codes : String → List ℕ
codes String.[] = []
codes (String.◌∷◌ c s) = code c ∷ codes s

abbrev pub prime : List ℕ
prime = codes "21888242871839275222246405745257275088696311157297823662689037894645226208583"

module _ (crates : Crates) where
  unfoldable pub get_secure_random_bytes : ℕ → Result crates (List ℕ × ℕ)
  get_secure_random_bytes rng = do bytes ← unwrap (crates.generate rng); ok (bytes, rng + 1)

  unfoldable pub from : ℕ → Result crates PrivateKey
  from private_key = do
    prime ← unwrap (crates.parse_bytes prime 10)
    private_key ← rem private_key prime
    let generator : ℕ = 2
    public_exponent ← unwrap (crates.modpow generator private_key prime)
    ok (record {
      private_key = private_key;
      public_key = record {
        prime = prime;
        generator = generator;
        public_exponent = public_exponent;
      };
    })

  unfoldable pub generate : ℕ → Result crates (PrivateKey × ℕ)
  unfolding get_secure_random_bytes
  generate rng = do
    (bytes, rng) ← get_secure_random_bytes rng
    key ← from (crates.from_bytes_be bytes)
    ok (key, rng)

  unfoldable pub get_encoded_private_key : PrivateKey → List ℕ
  get_encoded_private_key key = crates.encode (crates.to_bytes_le key.private_key)

  unfoldable pub decrypt : PrivateKey → Ciphertext → Result crates ℕ
  decrypt key ciphertext = do
    s ← unwrap (crates.modpow ciphertext.c1 key.private_key key.public_key.prime)
    s_inv ← ok_or (crates.modinv s key.public_key.prime) invalid_ciphertext
    rem (ciphertext.c2 * s_inv) key.public_key.prime

  -- `?` on a `DecodeError` makes it `Base64Decoding`.
  abbrev pub from_decode_error : Outcome crates.DecodeError (List ℕ) → Result crates (List ℕ)
  from_decode_error (ok bytes) = ok bytes
  from_decode_error (err e) = err (base64_decoding e)
  from_decode_error panic = panic

  unfoldable pub try_from : List ℕ → Result crates PrivateKey
  try_from value = do
    decoded_key ← from_decode_error (crates.decode value)
    from (crates.from_bytes_le decoded_key)
