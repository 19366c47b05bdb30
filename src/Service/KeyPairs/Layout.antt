-- ===== src/Service/KeyPairs/Layout.antt =====
-- The layout of a private key file (`marshalED25519PrivateKey` of pkg/service/helpers/helpers.go).
use edp_gerrit_operator.Base.{
  ℕ, zero, suc, ◌+◌, ◌%◌, ◌<◌, ◌≡◌, refl, true, Bool, [], ◌∷◌, ◌++◌, length, drop, arith, ◌=?◌,
  ◌&&◌,
}
use edp_gerrit_operator.World.Keys.{Bytes, PrivateBlock, KeyLibrary}
use edp_gerrit_operator.Service.KeyPairs

-- What a reader of the file asks of the bytes after the fields: that they count 1, 2, 3 and so on.
abbrev pub counts_from : ℕ → Bytes → Bool
counts_from i [] = true
counts_from i (b ∷ bytes) = (b =? i + 1) && counts_from (i + 1) bytes

length-pad_from : (i n : ℕ) → length (KeyPairs.pad_from i n) ≡ n
unfolding KeyPairs.pad_from
length-pad_from i zero = refl
length-pad_from i (suc n) = omega (arith, length-pad_from (i + 1) n)

counts_from-pad_from : (i n : ℕ) → i + n < 256 → counts_from i (KeyPairs.pad_from i n) ≡ true
unfolding KeyPairs.pad_from
counts_from-pad_from i zero h = refl
counts_from-pad_from i (suc n) h = ground (arith, counts_from-pad_from (i + 1) n)

length-append : (xs ys : Bytes) → length (xs ++ ys) ≡ length xs + length ys
length-append [] ys = omega arith
length-append (x ∷ xs) ys = omega (arith, length-append xs ys)

drop-append : (xs ys : Bytes) → drop (length xs) (xs ++ ys) ≡ ys
drop-append [] ys = refl
drop-append (x ∷ xs) ys = drop-append xs ys

module _ {T : Type 0} (keys : KeyLibrary T) where
  -- Where the last field is written as it is, after the others, the private block of a key file is a whole
  -- number of blocks of eight bytes, less than eight bytes follow the fields, and they count 1, 2, 3 and so on.
  pub key_file_padded :
      ((b : PrivateBlock)
        → keys.marshal_block b ≡ keys.marshal_block (record b { pad = [] }) ++ b.pad)
      → (check : ℕ) (pk key : Bytes)
      → (let block = (KeyPairs.key_file keys check pk key).priv_key_block in
          let written = length (keys.marshal_block (KeyPairs.unpadded check pk key)) in
          (length block % 8 ≡ 0)
          × (length block < written + 8)
          × (counts_from 0 (drop written block) ≡ true))
  unfolding KeyPairs.key_file KeyPairs.padded
  key_file_padded rest check pk key =
      let fields = keys.marshal_block (KeyPairs.unpadded check pk key) in
      let n = KeyPairs.pad_len (length fields) in
      rw (rest (KeyPairs.padded keys check pk key), length-append, drop-append)
        (
          omega (arith, length-pad_from 0 n),
          omega (arith, length-pad_from 0 n),
          counts_from-pad_from 0 n (omega arith),
        )
