-- ===== src/Bridge/Config/Checked.antt =====
-- What a configuration that passed the checks is good for.
use trustlines_blockchain.Prelude.{
  ℕ, ◌*◌, ◌≤◌, ◌<◌, ◌≡◌, refl, ap, ◌∙◌, and_then-ok, String, true, Option, none, some, ok, ◌↔◌,
  length, ◌⊎◌, inl, inr, arith,
}
use trustlines_blockchain.Prelude.Int.{ℤ, pos, negsuc}
use trustlines_blockchain.Prelude.Classes.{Bytes}
use trustlines_blockchain.Bridge.Config.{
  ConfigLib, Value, text, no_text, check_key, deserialize_private_key, PrivateKeyConfig,
  validate_private_key, KeyFiles, key_from_keystore, get_validator_private_key, HomeInput,
  HomeConfig, pending_per_block, non_negative, load_chain, load_home_chain,
}

check_key_iff :
    (lib : ConfigLib) (b k : Bytes)
    → (check_key lib b ≡ ok k) ↔ (
        (b ≡ k)
        × (length k ≡ 32)
        × (0 < lib.big_endian_to_int k)
        × (lib.big_endian_to_int k < lib.secpk1_n))
unfolding check_key
check_key_iff lib b k = (
  λ h. let same : b ≡ k = ground arith in (same, ground arith, ground arith, ground arith),
  λ (same, size, above, below). ground arith,
)

-- A private key of the file is taken exactly if it is 0x-prefixed hex text for 32 bytes that are a
-- number above 0 and below the order of the curve, and it is then those bytes.
pub deserialize_private_key_iff :
    (lib : ConfigLib) (value : Value) (k : Bytes)
    → (deserialize_private_key lib value ≡ ok k) ↔ (
        (s : String) × (value ≡ text s)
        × (lib.is_hex s ≡ true)
        × (lib.is_0x_prefixed s ≡ true)
        × (lib.decode_hex s ≡ ok k)
        × (length k ≡ 32)
        × (0 < lib.big_endian_to_int k)
        × (lib.big_endian_to_int k < lib.secpk1_n))
unfolding deserialize_private_key check_key
deserialize_private_key_iff lib no_text k =
    (λ h. absurd (ground arith), λ (s, e, _, _, _, _, _, _). absurd (ground arith))
deserialize_private_key_iff lib (text s) k = (
  λ h.
      let hex : lib.is_hex s ≡ true = ground arith in
      let prefixed : lib.is_0x_prefixed s ≡ true = ground arith in
      let (bytes, decoded, checked) =
        and_then-ok (lib.decode_hex s) (check_key lib) k (ground arith) in
      let (same, size, above, below) = (check_key_iff lib bytes k).0 checked in
      (s, refl, hex, prefixed, decoded ∙ ap (λ b. ok b) same, size, above, below),
  λ (t, e, hex, prefixed, decoded, size, above, below).
      let same : t ≡ s = ground arith in
      let checked = (check_key_iff lib k k).1 (refl, size, above, below) in ground arith,
)

-- The raw key, or what the keystore gives.
abbrev pub KeyGiven : KeyFiles → PrivateKeyConfig → Type 0
KeyGiven files c =
    ((k : Bytes) × (c.raw ≡ some k)
      × (c.keystore_path ≡ none)
      × (c.keystore_password_path ≡ none)
      × (get_validator_private_key files c ≡ ok k))
    ⊎ ((path : String) × (password_path : String) × (c.raw ≡ none)
        × (c.keystore_path ≡ some path)
        × (c.keystore_password_path ≡ some password_path)
        × (get_validator_private_key files c ≡ key_from_keystore files path password_path))

-- A key section that passed `PrivateKeySchema` gives the raw key, or names both files and gives what
-- the keystore gives; `get_validator_private_key` finds every entry that it reads.
pub get_validator_private_key_lem :
    (files : KeyFiles) (c : PrivateKeyConfig) → validate_private_key c ≡ ok tt → KeyGiven files c
unfolding validate_private_key get_validator_private_key
get_validator_private_key_lem files c h =
    go c.raw c.keystore_path c.keystore_password_path refl refl refl
  where
    go :
        (raw : Option Bytes) (path password_path : Option String)
        → c.raw ≡ raw
        → c.keystore_path ≡ path
        → c.keystore_password_path ≡ password_path
        → KeyGiven files c
    go (some k) none none a b d = inl (k, a, b, d, rw (a, get_validator_private_key) refl)
    go none (some p) (some q) a b d =
        inr (p, q, a, b, d, rw (a, b, d, get_validator_private_key) refl)
    go (some k) (some p) q a b d = absurd (ground arith)
    go (some k) none (some q) a b d = absurd (ground arith)
    go none none q a b d = absurd (ground arith)
    go none (some p) none a b d = absurd (ground arith)

pending_per_block-bounds : (o : Option ℤ) (n : ℕ) → pending_per_block o ≡ ok n → (1 ≤ n) × (n ≤ 128)
unfolding pending_per_block
pending_per_block-bounds none n h = (ground arith, ground arith)
pending_per_block-bounds (some (negsuc k)) n h = absurd (ground arith)
pending_per_block-bounds (some (pos k)) n h = (ground arith, ground arith)

-- A home section that passed allows 1 to 128 pending transactions a block.
pub load_home_chain-bounds :
    (lib : ConfigLib) (second : ℕ) (i : HomeInput) (c : HomeConfig)
    → load_home_chain lib second i ≡ ok c
    → (1 ≤ c.max_pending_transactions_per_block) × (c.max_pending_transactions_per_block ≤ 128)
unfolding load_home_chain pending_per_block
load_home_chain-bounds lib second i c h =
    let (chain, _, h1) = and_then-ok (load_chain lib second (5 * second) i.chain) _ c h in
    let (price, _, h2) = and_then-ok (non_negative 10_000_000_000 i.gas_price) _ c h1 in
    let (balance, _, h3) =
      and_then-ok (non_negative 40_000_000_000_000_000 i.minimum_validator_balance) _ c h2 in
    let (warn, _, h4) =
      and_then-ok (non_negative (60 * second) i.balance_warn_poll_interval) _ c h3 in
    let (pending, got, h5) =
      and_then-ok (pending_per_block i.max_pending_transactions_per_block) _ c h4 in
    let same : pending ≡ c.max_pending_transactions_per_block = ground arith in
    let (low, high) = pending_per_block-bounds i.max_pending_transactions_per_block pending got in
    (omega arith, omega arith)
