-- ===== src/Service/KeyPairs.antt =====
-- The generation of key pairs (pkg/service/helpers/helpers.go).
pub mod Layout
use edp_gerrit_operator.Base.{
  ℕ, zero, suc, ◌+◌, ◌-◌, ◌%◌, ◌^◌, String, none, some, [], ◌∷◌, ◌++◌, length, codes,
}
use edp_gerrit_operator.Errors.{Outcome, new}
use edp_gerrit_operator.World.{Env, Trace}
use edp_gerrit_operator.World.Keys.{Bytes, PrivateBlock, KeyFile, KeyLibrary}
use edp_gerrit_operator.Exec.{M, ◌>>=◌, ◌>>◌, pure, raise, lift, wrapping, traced}

abbrev pub key_bit_size : ℕ
key_bit_size = 4096

-- `ssh.KeyAlgoED25519`
abbrev pub key_algo_ed25519 : String
key_algo_ed25519 = "ssh-ed25519"

-- The loop that fills the padding, from `i` on.
unfoldable pub pad_from : ℕ → ℕ → Bytes
pad_from i zero = []
pad_from i (suc n) = (i + 1) % 2 ^ 8 ∷ pad_from (i + 1) n

-- `(bs - (blockLen % bs)) % bs`
abbrev pub pad_len : ℕ → ℕ
pad_len block_len = (8 - block_len % 8) % 8

abbrev pub unpadded : ℕ → Bytes → Bytes → PrivateBlock
unpadded check pk key = record {
  check1 = check;
  check2 = check;
  keytype = key_algo_ed25519;
  pub_key = pk;
  priv = key;
  comment = "";
  pad = [];
}

-- The public key after its prefix, the length and the name of the algorithm and the length of the key.
unfoldable pub public_part : Bytes → Bytes
public_part pk = (0 ∷ 0 ∷ 0 ∷ 11 ∷ []) ++ codes key_algo_ed25519 ++ (0 ∷ 0 ∷ 0 ∷ 32 ∷ []) ++ pk

module _ {T : Type 0} (keys : KeyLibrary T) where
  -- `pk1` after its padding is filled in
  unfoldable pub padded : ℕ → Bytes → Bytes → PrivateBlock
  padded check pk key =
      let block = unpadded check pk key in
      record block { pad = pad_from 0 (pad_len (length (keys.marshal_block block))) }

  unfoldable pub key_file : ℕ → Bytes → Bytes → KeyFile
  key_file check pk key = record {
    cipher_name = "none";
    kdf_name = "none";
    kdf_opts = "";
    num_keys = 1;
    pub_key = public_part pk;
    priv_key_block = keys.marshal_block (padded check pk key);
  }

module _ {O : Type 0} (env : Env O) where
  -- `marshalED25519PrivateKey`
  unfoldable pub marshal_ed25519_private_key : Bytes → M O Bytes
  marshal_ed25519_private_key key = do
    t ← traced
    check ← lift (env.keys.read_uint32 t)
    elim (env.keys.ed25519_public key) [
      | none ↦ raise (new "invalid public key type: %T")
      | some pk ↦
          pure
            (codes "openssh-key-v1" ++ 0 ∷ env.keys.marshal_file (key_file env.keys check pk key))
    ]

  unfoldable pub generate_private_key : M O Bytes
  generate_private_key = do
    t ← traced
    private_key ←
        wrapping "failed to generate private rsa key" []
          (lift (env.keys.rsa_generate_key t key_bit_size))
    wrapping "failed to validate private key" [] (lift (env.keys.rsa_validate private_key))
    pure private_key

  unfoldable pub generate_public_key : Bytes → M O String
  generate_public_key private_key = do
    public_key ←
        wrapping "failed to generate public key" [] (lift (env.keys.rsa_public_key private_key))
    pure (env.keys.marshal_authorized_key public_key)

  unfoldable pub encode_private_key : Bytes → String
  encode_private_key private_key =
      env.keys.encode_to_memory "RSA PRIVATE KEY" (env.keys.marshal_pkcs1 private_key)

  -- The private key and the public key.
  unfoldable pub generate_key_pairs : M O (String × String)
  generate_key_pairs = do
    pk ← generate_private_key
    public_key ← generate_public_key pk
    pure (encode_private_key pk, public_key)

  unfoldable pub generate_ssh_ed25519_key_pairs : M O (String × String)
  generate_ssh_ed25519_key_pairs = do
    t ← traced
    (pub_key, priv_key) ←
        wrapping "failed to generate ed25519 key pair" [] (lift (env.keys.ed25519_generate_key t))
    ssh_public_key ←
        wrapping "failed to generate ssh public key" [] (lift (env.keys.new_public_key pub_key))
    bytes ←
        wrapping "failed to generate ed25519 private key" [] (marshal_ed25519_private_key priv_key)
    pure (
      env.keys.encode_to_memory "OPENSSH PRIVATE KEY" bytes,
      env.keys.marshal_authorized_key ssh_public_key,
    )
