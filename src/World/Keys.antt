-- ===== src/World/Keys.antt =====
-- The key libraries that pkg/service/helpers/helpers.go calls (crypto/rsa, crypto/ed25519, crypto/x509,
-- encoding/pem, golang.org/x/crypto/ssh), and the structures that it gives them. A key stands for its bytes.
use edp_gerrit_operator.Base.{ℕ, String, Option, List}
use edp_gerrit_operator.Errors.{Outcome}

abbrev pub Bytes : Type 0
Bytes = List ℕ

-- `pk1` of `marshalED25519PrivateKey`
pub record PrivateBlock : Type 0 where
  pub check1 : ℕ
  pub check2 : ℕ
  pub keytype : String
  pub pub_key : Bytes
  pub priv : Bytes
  pub comment : String
  pub pad : Bytes

-- `w` of `marshalED25519PrivateKey`
pub record KeyFile : Type 0 where
  pub cipher_name : String
  pub kdf_name : String
  pub kdf_opts : String
  pub num_keys : ℕ
  pub pub_key : Bytes
  pub priv_key_block : Bytes

-- What is random depends on what was done before, a `T`.
pub record KeyLibrary (T : Type 0) : Type 0 where
  -- `rsa.GenerateKey` at the number of bits, and `Validate`
  pub rsa_generate_key : T → ℕ → Outcome Bytes
  pub rsa_validate : Bytes → Outcome (Unit {0})
  -- `x509.MarshalPKCS1PrivateKey`
  pub marshal_pkcs1 : Bytes → Bytes
  -- `ssh.NewPublicKey` at the public part of an RSA key, and at an ed25519 public key
  pub rsa_public_key : Bytes → Outcome Bytes
  pub new_public_key : Bytes → Outcome Bytes
  pub marshal_authorized_key : Bytes → String
  -- `pem.EncodeToMemory` at the type and the bytes of a block
  pub encode_to_memory : String → Bytes → String
  -- the public key and the private key
  pub ed25519_generate_key : T → Outcome (Bytes × Bytes)
  -- `key.Public().(ed25519.PublicKey)`
  pub ed25519_public : Bytes → Option Bytes
  -- `binary.Read` of four random bytes
  pub read_uint32 : T → Outcome ℕ
  -- `ssh.Marshal`
  pub marshal_block : PrivateBlock → Bytes
  pub marshal_file : KeyFile → Bytes
