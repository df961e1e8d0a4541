-- ===== src/Quickstart/Prompts.antt =====
-- The dialogs of quickstart/src/quickstart/utils.py.
use trustlines_blockchain.Prelude.{
  String, Bool, true, false, Option, none, some, List, [], ◌∷◌, Result, ok, err, abort, system_exit,
  nat_eqb, length, if◌then◌else◌,
}
use trustlines_blockchain.Prelude.Classes.{Bytes, ◌==◌, string_eq}
use trustlines_blockchain.Quickstart.Session.{Answer, typed, confirmed}

-- What decrypting a keystore comes to; every exception but a wrong password ends the program.
pub data Decrypted (A : Type 0) : Type 0 where
  decrypted : A → Decrypted A
  wrong_password failed : Decrypted A

-- What is taken from eth_account, eth_utils and json, over accounts of type `A`, and from the host's
-- files: `read_keyfile` opens and parses a keystore.
pub record AccountLib (A : Type 0) : Type 0 where
  pub address : A → String
  pub encrypt : A → String → String
  pub decrypt : String → String → Decrypted A
  pub from_key : String → Result A
  pub new_account : A
  pub is_hex : String → Bool
  pub decode_hex : String → Result Bytes
  pub without_prefix : String → String
  pub is_checksum_address : String → Bool
  pub absolute : String → String
  pub is_readable : String → Bool
  pub read_keyfile : String → Result String

module _ {A : Type 0} (lib : AccountLib A) where
  unfoldable pub get_keystore_path : List Answer → Result String × List Answer
  get_keystore_path [] = (err abort, [])
  get_keystore_path (confirmed b ∷ rest) = (err abort, rest)
  get_keystore_path (typed raw_path ∷ rest) = elim (lib.is_readable (lib.absolute raw_path)) [
    | true ↦ (ok (lib.absolute raw_path), rest)
    | false ↦ get_keystore_path rest
  ]

  -- One answer of `read_private_key`: a key, an exception, or none where it is asked for again.
  unfoldable pub private_key_of : String → Option (Result String)
  private_key_of private_key =
      if lib.is_hex private_key
      then elim (lib.decode_hex private_key) [
        | err x ↦ some (err x)
        | ok key ↦
            if nat_eqb (length key) 32 then some (ok (lib.without_prefix private_key)) else none
      ]
      else none

  unfoldable pub read_private_key : List Answer → Result String × List Answer
  read_private_key [] = (err abort, [])
  read_private_key (confirmed b ∷ rest) = (err abort, rest)
  read_private_key (typed private_key ∷ rest) = elim (private_key_of private_key) [
    | some r ↦ (r, rest)
    | none ↦ read_private_key rest
  ]

  unfoldable pub read_address : List Answer → Result String × List Answer
  read_address [] = (err abort, [])
  read_address (confirmed b ∷ rest) = (err abort, rest)
  read_address (typed address ∷ rest) = elim (lib.is_checksum_address address) [
    | true ↦ (ok address, rest)
    | false ↦ read_address rest
  ]

  unfoldable pub read_decryption_password : String → List Answer → Result (A × String) × List Answer
  read_decryption_password keyfile [] = (err abort, [])
  read_decryption_password keyfile (confirmed b ∷ rest) = (err abort, rest)
  read_decryption_password keyfile (typed password ∷ rest) = elim (lib.decrypt keyfile password) [
    | decrypted account ↦ (ok (account, password), rest)
    | wrong_password ↦ read_decryption_password keyfile rest
    | failed ↦ (err system_exit, rest)
  ]

unfoldable pub read_encryption_password : List Answer → Result String × List Answer
read_encryption_password [] = (err abort, [])
read_encryption_password (confirmed b ∷ rest) = (err abort, rest)
read_encryption_password (typed password ∷ []) = (err abort, [])
read_encryption_password (typed password ∷ confirmed b ∷ rest) = (err abort, rest)
read_encryption_password (typed password ∷ typed password_repeat ∷ rest) =
    elim (password == password_repeat) [
      | true ↦ (ok password, rest)
      | false ↦ read_encryption_password rest
    ]
