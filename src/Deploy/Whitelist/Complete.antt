-- ===== src/Deploy/Whitelist/Complete.antt =====
-- Whitelisting in batches reaches every address, in batches of the size asked for.
use trustlines_blockchain.Prelude.{
  ℕ, zero, suc, ◌≤◌, ◌<◌, ◌≡◌, refl, ap, ◌∙◌, String, true, false, ◌||◌, List, [], ◌∷◌, Result, ok,
  ltb, length, if◌then◌else◌, arith,
}
use trustlines_blockchain.Prelude.Classes.{string_eq}
use trustlines_blockchain.Containers.PySet.{contains}
use trustlines_blockchain.Prelude.Slices.{take, drop}
use trustlines_blockchain.Deploy.Whitelist.{
  chunks, WhitelistChain, WhitelistState, missing_whitelisted_addresses, add_chunks, counted,
  whitelist_addresses, whitelist_command, check_whitelist, all_whitelisted,
}

-- `addToWhitelist`, for up to `batch_size` addresses: it goes through, and whitelists those addresses
-- and no others.
pub record IsWhitelisting {W O : Type 0} (api : WhitelistChain W O) (batch_size : ℕ) : Type 0 where
  pub adds :
      (chunk : List String) (o : O) (w : W)
      → length chunk ≤ batch_size
      → (w' : W) × (api.add_to_whitelist chunk o w ≡ ok w')
        × ((a : String) → api.whitelist w' a ≡ (api.whitelist w a || contains chunk a))

contains-take-drop :
    (n : ℕ) (xs : List String) (a : String)
    → contains xs a ≡ (contains (take n xs) a || contains (drop n xs) a)
unfolding take drop contains
contains-take-drop zero xs a = refl
contains-take-drop (suc n) [] a = refl
contains-take-drop (suc n) (x ∷ xs) a = ground (arith, contains-take-drop n xs a)

length-take-le : (n : ℕ) (xs : List String) → length (take n xs) ≤ n
unfolding take
length-take-le zero xs = omega arith
length-take-le (suc n) [] = omega arith
length-take-le (suc n) (x ∷ xs) = omega (arith, length-take-le n xs)

length-drop-le : (n : ℕ) (xs : List String) → length (drop n xs) ≤ length xs
unfolding drop
length-drop-le zero xs = omega arith
length-drop-le (suc n) [] = omega arith
length-drop-le (suc n) (x ∷ xs) = omega (arith, length-drop-le n xs)

module _ {W O : Type 0} (api : WhitelistChain W O) where
  missing-same :
      (w : W) (whitelist : List String) (a : String)
      → (api.whitelist w a || contains (missing_whitelisted_addresses api w whitelist) a)
        ≡ (api.whitelist w a || contains whitelist a)
  unfolding missing_whitelisted_addresses contains
  missing-same w [] a = refl
  missing-same w (x ∷ xs) a = ground (arith, missing-same w xs a, string_eq.beq_iff x a)

  chunk_step :
      (batch_size : ℕ) (chunk : List String) (rest : List (List String)) (s : WhitelistState W O)
      (w : W) {r : Result (Unit {0}) × WhitelistState W O}
      → length chunk ≤ batch_size
      → api.add_to_whitelist chunk s.options s.chain ≡ ok w
      → add_chunks api batch_size rest (record { chain = w; options = api.increase s.options }) ≡ r
      → add_chunks api batch_size (chunk ∷ rest) s ≡ r
  unfolding add_chunks
  chunk_step batch_size chunk rest s w h added after =
      let fits : ltb batch_size (length chunk) ≡ false = ground arith in
      rw (add_chunks, fits, added) after

  add_chunks_lem :
      (fuel k : ℕ) (xs : List String) (s : WhitelistState W O)
      → IsWhitelisting api (suc k)
      → length xs ≤ fuel
      → (s' : WhitelistState W O) × (add_chunks api (suc k) (chunks fuel (suc k) xs) s
          ≡ (ok tt, s'))
        × ((a : String) → api.whitelist s'.chain a ≡ (api.whitelist s.chain a || contains xs a))
  unfolding add_chunks chunks contains drop
  add_chunks_lem zero k [] s v h = (s, refl, λ a. ground arith)
  add_chunks_lem (suc fuel) k [] s v h = (s, refl, λ a. ground arith)
  add_chunks_lem zero k (x ∷ xs) s v h = absurd (omega arith)
  add_chunks_lem (suc fuel) k (x ∷ xs) s v h =
      let chunk = take (suc k) (x ∷ xs) in
      let fits = length-take-le (suc k) (x ∷ xs) in
      let (w, added, grown) = v.adds chunk s.options s.chain fits in
      let (s', done, all) =
        add_chunks_lem fuel k (drop k xs) (record { chain = w; options = api.increase s.options }) v
          (omega (arith, length-drop-le k xs)) in
      (
        s',
        chunk_step (suc k) chunk (chunks fuel (suc k) (drop k xs)) s w fits added done,
        λ a. ground (arith, all a, grown a, contains-take-drop (suc k) (x ∷ xs) a),
      )

  -- How many entries of a list are not whitelisted.
  abbrev pub lacking : W → List String → ℕ
  lacking w [] = 0
  lacking w (x ∷ xs) = let rest = lacking w xs in if api.whitelist w x then rest else suc rest

  length-missing :
      (w : W) (whitelist : List String)
      → length (missing_whitelisted_addresses api w whitelist) ≡ lacking w whitelist
  unfolding missing_whitelisted_addresses
  length-missing w [] = refl
  length-missing w (x ∷ xs) = ground (arith, length-missing w xs)

  -- Where the contract takes batches of up to `batch_size` addresses, and `batch_size` is not 0,
  -- whitelisting goes through, no batch is larger, and afterwards exactly the addresses of the list
  -- and those that were there before are whitelisted. The number returned is that of the entries of
  -- the list that were not whitelisted before.
  pub whitelist_addresses_lem :
      (whitelist : List String) (batch_size : ℕ) (s : WhitelistState W O)
      → 0 < batch_size
      → IsWhitelisting api batch_size
      → (s' : WhitelistState W O) × (whitelist_addresses api whitelist batch_size s
          ≡ (ok (lacking s.chain whitelist), s'))
        × ((a : String)
            → api.whitelist s'.chain a ≡ (api.whitelist s.chain a || contains whitelist a))
  unfolding whitelist_addresses counted
  whitelist_addresses_lem whitelist zero s h v = absurd (omega arith)
  whitelist_addresses_lem whitelist (suc k) s h v =
      let missing = missing_whitelisted_addresses api s.chain whitelist in
      let (s', done, all) = add_chunks_lem (length missing) k missing s v (omega arith) in
      let some_size : ltb 0 (suc k) ≡ true = ground arith in
      (
        s',
        rw (whitelist_addresses, some_size)
            (ap (counted (length missing)) done
              ∙ ap (λ n. (ok n, s')) (length-missing s.chain whitelist)),
        λ a. all a ∙ missing-same s.chain whitelist a,
      )

  none_missing :
      (w : W) (whitelist : List String)
      → ((a : String) → contains whitelist a ≡ true → api.whitelist w a ≡ true)
      → missing_whitelisted_addresses api w whitelist ≡ []
  unfolding missing_whitelisted_addresses contains
  none_missing w [] h = refl
  none_missing w (x ∷ xs) h =
      let here : api.whitelist w x ≡ true = h x (ground (arith, (string_eq.beq_iff x x).1 refl)) in
      let rest = none_missing w xs (λ a b. h a (ground arith)) in
      rw (missing_whitelisted_addresses, here) rest

  -- Under the same conditions, after the command `whitelist` the command `check_whitelist` on the same
  -- file reports that all its addresses are whitelisted.
  pub check_whitelist-whitelist :
      (whitelist : List String) (batch_size : ℕ) (s : WhitelistState W O)
      → 0 < batch_size
      → IsWhitelisting api batch_size
      → (n : ℕ) × (s' : WhitelistState W O) × (whitelist_command api (ok whitelist) batch_size s
          ≡ (ok n, s'))
        × (check_whitelist api s'.chain (ok whitelist) ≡ ok (all_whitelisted (length whitelist)))
  unfolding whitelist_command check_whitelist
  check_whitelist-whitelist whitelist batch_size s h v =
      let (s', done, all) = whitelist_addresses_lem whitelist batch_size s h v in
      let none_left = none_missing s'.chain whitelist (λ a b. ground (arith, all a)) in
      (lacking s.chain whitelist, s', done, rw (check_whitelist, none_left) refl)
