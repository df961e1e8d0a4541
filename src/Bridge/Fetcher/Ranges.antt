-- ===== src/Bridge/Fetcher/Ranges.antt =====
-- The logs of consecutive block ranges, put together.
use trustlines_blockchain.Prelude.{
  ℕ, ◌≡◌, refl, ap, String, List, [], ◌∷◌, ◌++◌, arith, inl, inr, length, if◌then◌else◌,
}
use trustlines_blockchain.Prelude.Int.{
  ℤ, pos, ◌+ℤ◌, ◌≤ℤ◌, ◌<ℤ◌, ltb_ℤ, ltb_ℤ-cases, le→ltb_ℤ, eq_of_parts, int_laws,
}
use trustlines_blockchain.Bridge.Events.{Web3Event}
use trustlines_blockchain.Bridge.Utils.{sort_events}
use trustlines_blockchain.Bridge.Utils.Order.{length-sort_events}
use trustlines_blockchain.Bridge.Fetcher.{ArgumentFilters, Node}

-- The chain's own logs, up to a block that no reorganisation can reach: those of a range are those
-- of its parts, and the node answers with them at every call.
pub record IsChain (node : Node) (logs : String → ℤ → ℤ → ArgumentFilters → List Web3Event)
    (limit : ℤ) : Type 0 where
  pub answers :
      (t : ℕ) (name : String) (a b : ℤ) (filters : ArgumentFilters)
      → b ≤ℤ limit
      → node.get_logs t name a b filters ≡ logs name a b filters
  pub splits :
      (name : String) (a b c : ℤ) (filters : ArgumentFilters)
      → a ≤ℤ b
      → b <ℤ c
      → c ≤ℤ limit
      → logs name a c filters ≡ logs name a b filters ++ logs name (b +ℤ pos 1) c filters

module _ (logs : String → ℤ → ℤ → ArgumentFilters → List Web3Event) where
  abbrev pub all_logs : List (String × ArgumentFilters) → ℤ → ℤ → List Web3Event
  all_logs [] a b = []
  all_logs ((name, filters) ∷ definitions) a b = logs name a b filters ++ all_logs definitions a b

  -- Nothing where the range is empty.
  unfoldable pub logs_between : List (String × ArgumentFilters) → ℤ → ℤ → List Web3Event
  logs_between definitions a b = if ltb_ℤ b a then [] else all_logs definitions a b

append-eq_nil : (xs ys : List Web3Event) → xs ++ ys ≡ [] → (xs ≡ []) × (ys ≡ [])
append-eq_nil [] ys h = (refl, h)
append-eq_nil (x ∷ xs) ys h = cc

pub sort_events-eq_nil : (xs : List Web3Event) → sort_events xs ≡ [] → xs ≡ []
sort_events-eq_nil [] h = refl
sort_events-eq_nil (x ∷ xs) h =
    absurd (omega (arith, length-sort_events (x ∷ xs), ap (λ (l : List Web3Event). length l) h))

module _ {node : Node} {logs : String → ℤ → ℤ → ArgumentFilters → List Web3Event} {limit : ℤ}
    (chain : IsChain node logs limit) where
  all_logs_skip :
      (definitions : List (String × ArgumentFilters)) (a b c : ℤ)
      → a ≤ℤ b
      → b <ℤ c
      → c ≤ℤ limit
      → all_logs logs definitions a b ≡ []
      → all_logs logs definitions a c ≡ all_logs logs definitions (b +ℤ pos 1) c
  all_logs_skip [] a b c h k m e = refl
  all_logs_skip ((name, filters) ∷ definitions) a b c h k m e =
      let (none_here, none_there) = append-eq_nil (logs name a b filters) _ e in
      rw (chain.splits name a b c filters h k m) (
        rw none_here (
          ap (λ l. logs name (b +ℤ pos 1) c filters ++ l)
            (all_logs_skip definitions a b c h k m none_there)))

  -- A first part of the range with no logs can be left out.
  pub logs_between_skip :
      (definitions : List (String × ArgumentFilters)) (a b c : ℤ)
      → a ≤ℤ b
      → b ≤ℤ c
      → c ≤ℤ limit
      → all_logs logs definitions a b ≡ []
      → logs_between logs definitions a c ≡ logs_between logs definitions (b +ℤ pos 1) c
  unfolding logs_between
  logs_between_skip definitions a b c h k m e = elim (ltb_ℤ-cases c (b +ℤ pos 1)) [
    | inl (t, below) ↦
        let same : b ≡ c = eq_of_parts b c (omega int_laws) in
        rw (t, le→ltb_ℤ c a (omega int_laws)) (rw (← same) e)
    | inr (t, above) ↦
        rw (t, le→ltb_ℤ c a (omega int_laws))
          (all_logs_skip definitions a b c h (omega int_laws) m e)
  ]
