-- ===== src/Crypto/KeyPair/Laws.antt =====
-- What makes a key of crypto/src/keypair.rs a key, and what its operations give.
use native.Mathlib.Nat.{mod-lt, mod-eq_of_lt}
use da_concept.Base.{ℕ, ◌+◌, ◌-◌, ◌*◌, ◌%◌, ◌^◌, ◌≤◌, ◌<◌, ◌≡◌, refl, sym, ap, ◌∙◌, some, arith}
use da_concept.Base.Modular.{mul-mod-mod, mod-mul-mod, pow_swap, pow_unit, pow-mod, pow-mul}
use da_concept.Base.Outcome.{ok, err}
use da_concept.Crypto.Types.{PrivateKey, Ciphertext, invalid_ciphertext}
use da_concept.Crypto.Crates.{Crates, IsLawful, IsAvailable}
use da_concept.Crypto.PrivateKey
use da_concept.Crypto.PublicKey

-- The prime is no wider than 32 bytes and wider than a chunk, the generator is a unit, and the
-- public exponent belongs to the private key. That the prime is one is not needed.
pub record IsKey (key : PrivateKey) : Type 0 where
  pub reduced : key.private_key < key.public_key.prime
  pub wide : 2 ^ 32 ≤ key.public_key.prime
  pub fits : key.public_key.prime < 256 ^ 32
  pub inverse : ℕ
  pub unit : key.public_key.generator * inverse % key.public_key.prime ≡ 1
  pub public :
      key.public_key.public_exponent
      ≡ key.public_key.generator ^ key.private_key % key.public_key.prime

abbrev pub prime_value : ℕ
prime_value = 21888242871839275222246405745257275088696311157297823662689037894645226208583

abbrev with_residue : ℕ → PrivateKey
with_residue x = record {
  private_key = x;
  public_key = record { prime = prime_value; generator = 2; public_exponent = 2 ^ x % prime_value };
}

-- The key of the exponent `n`.
abbrev pub key_of : ℕ → PrivateKey
key_of n = with_residue (n % prime_value)

abbrev half_prime : ℕ
half_prime = 10944121435919637611123202872628637544348155578648911831344518947322613104292

pub key_of-IsKey : (n : ℕ) → IsKey (key_of n)
key_of-IsKey n = record {
  reduced = omega arith;
  wide = omega arith;
  fits = omega arith;
  inverse = half_prime;
  unit = refl;
  public = refl;
}

module _ (crates : Crates) (law : IsLawful crates) where
  parse_prime : crates.parse_bytes PrivateKey.prime 10 ≡ some prime_value
  parse_prime = law.parse_bytes-decimal PrivateKey.prime (λ e. cc) (omega arith)

  -- `PrivateKey::from` takes any number, without a panic, to the key of its residue.
  pub from-eq : (n : ℕ) → PrivateKey.from crates n ≡ ok (key_of n)
  unfolding PrivateKey.from
  from-eq n = rw (parse_prime, law.modpow-eq 2 (n % prime_value) prime_value (omega arith))

  -- The key that the random bytes lead to.
  pub generate_key_of :
      (available : IsAvailable crates) (rng : ℕ)
      → PrivateKey.generate crates rng
        ≡ ok (key_of (crates.from_bytes_be (available rng).0), rng + 1)
  unfolding PrivateKey.generate
  generate_key_of available rng =
      let (bytes, e) = available rng in rw (e, from-eq (crates.from_bytes_be bytes))

  -- With lawful crates and random bytes at hand, a key is generated with one random request, and
  -- it is valid.
  pub generate_lem :
      IsAvailable crates
      → (rng : ℕ)
      → (key : PrivateKey) × (PrivateKey.generate crates rng ≡ ok (key, rng + 1)) × IsKey key
  generate_lem av rng =
      let n : ℕ = crates.from_bytes_be (av rng).0 in
      (key_of n, generate_key_of av rng, key_of-IsKey n)

  pub try_from-key_of :
      (n : ℕ)
      → PrivateKey.try_from crates (PrivateKey.get_encoded_private_key crates (key_of n))
        ≡ ok (key_of n)
  unfolding PrivateKey.try_from PrivateKey.get_encoded_private_key
  try_from-key_of n =
      rw
        (
          law.decode-encode (crates.to_bytes_le (n % prime_value)),
          law.from_bytes_le-to_bytes_le (n % prime_value),
        )
        (from-eq (n % prime_value)
          ∙ ap (λ t. ok (with_residue t))
              (let e : n % prime_value % prime_value ≡ n % prime_value = omega arith in e))

  -- With lawful crates any number makes a key, and that key, exported and imported again, is the
  -- same key.
  pub try_from-get_encoded_private_key :
      (n : ℕ)
      → (key : PrivateKey) × (PrivateKey.from crates n ≡ ok key)
        × (PrivateKey.try_from crates (PrivateKey.get_encoded_private_key crates key) ≡ ok key)
  try_from-get_encoded_private_key n = (key_of n, from-eq n, try_from-key_of n)

  module _ (key : PrivateKey) (valid : IsKey key) where
    abbrev p : ℕ
    p = key.public_key.prime

    -- The shared secret is a unit, and both sides compute it.
    secret_unit :
        (y : ℕ)
        → (key.public_key.public_exponent ^ y % p) * (valid.inverse ^ (key.private_key * y)) % p ≡ 1
    secret_unit y =
        rw (valid.public, pow-mod, ← pow-mul)
          (pow_unit key.public_key.generator valid.inverse (key.private_key * y) p valid.unit
            ∙ mod-eq_of_lt (let h : 1 < p = omega (arith, valid.wide) in h))

    secret_shared :
        (y : ℕ)
        → (key.public_key.generator ^ y % p) ^ key.private_key % p
          ≡ key.public_key.public_exponent ^ y % p
    secret_shared y = rw valid.public (pow_swap key.public_key.generator y key.private_key p)

    -- Dividing the masked message by the secret gives the message back.
    unmask : (m s v : ℕ) → m < p → s * v % p ≡ 1 → m * s % p * v % p ≡ m
    unmask m s v h u =
        mod-mul-mod (m * s) v p
        ∙ ap (λ t. t % p) (let e : m * s * v ≡ m * (s * v) = omega arith in e)
        ∙ sym (mul-mod-mod m (s * v) p)
        ∙ ap (λ t. m * t % p) u
        ∙ ap (λ t. t % p) (let e : m * 1 ≡ m = omega arith in e)
        ∙ mod-eq_of_lt h

    -- With lawful crates, a valid key and random bytes at hand, a message below the prime is
    -- encrypted with one random request to two residues of the prime, and the private key
    -- decrypts them to the message.
    pub decrypt-encrypt :
        IsAvailable crates
        → (m rng : ℕ) → m < p
        → (c : Ciphertext) × (PublicKey.encrypt crates key.public_key m rng ≡ ok (c, rng + 1))
          × (c.c1 < p)
          × (c.c2 < p)
          × (PrivateKey.decrypt crates key c ≡ ok m)
    unfolding PublicKey.encrypt PrivateKey.decrypt
    decrypt-encrypt av m rng h =
        let (bytes, e) = av rng in
        let y : ℕ = crates.from_bytes_be bytes % (p - 1) in
        let s : ℕ = key.public_key.public_exponent ^ y % p in
        let pos : 0 < p = omega (arith, valid.wide) in
        let (v, inv, one) = law.modinv-unit s _ p (omega (arith, valid.wide)) (secret_unit y) in
        (
          record { c1 = key.public_key.generator ^ y % p; c2 = m * s % p },
          ground (
            arith,
            e,
            valid.wide,
            law.modpow-eq key.public_key.generator y p pos,
            law.modpow-eq key.public_key.public_exponent y p pos,
          ),
          mod-lt _ pos,
          mod-lt _ pos,
          rw (law.modpow-eq _ key.private_key p pos, secret_shared y, inv)
              (ground (arith, pos, unmask m s v h one)),
        )

    -- With lawful crates and a valid key, a message that is not below the prime is refused as an
    -- invalid ciphertext.
    pub encrypt_too_large :
        (m rng : ℕ) → p ≤ m → PublicKey.encrypt crates key.public_key m rng ≡ err invalid_ciphertext
    unfolding PublicKey.encrypt
    encrypt_too_large m rng h = ground arith
