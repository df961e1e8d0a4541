-- ===== src/Bridge/Utils/Order.antt =====
-- `sort_events` sorts, and keeps the events that it is given.
use mathlib.Core.List.{Perm}
use mathlib.Core.List.Perm
use trustlines_blockchain.Prelude.{
  ◌≡◌, inl, inr, true, false, List, [], ◌∷◌, arith, ◌⊎◌, ◌<◌, ◌≤◌, All, Bool-cases, length, ◌+◌,
}
use trustlines_blockchain.Bridge.Events.{Web3Event}
use trustlines_blockchain.Bridge.Utils.{key_leb, insert_event, sort_events}

-- The block numbers grow, among events of a block the transaction indices, and among events of a
-- transaction the log indices.
abbrev pub Before : Web3Event → Web3Event → Type 0
Before a b =
    (a.block_number < b.block_number)
    ⊎ ((a.block_number ≡ b.block_number)
        × ((a.transaction_index < b.transaction_index)
            ⊎ ((a.transaction_index ≡ b.transaction_index) × (a.log_index ≤ b.log_index))))

abbrev pub IsSorted : List Web3Event → Type 0
IsSorted [] = Unit
IsSorted (x ∷ xs) = All (Before x) xs × IsSorted xs

-- The same, by the tuples that the code compares.
abbrev IsKeySorted : List Web3Event → Type 0
IsKeySorted [] = Unit
IsKeySorted (x ∷ xs) = All (λ y. key_leb x y ≡ true) xs × IsKeySorted xs

pub key_leb-total : (a b : Web3Event) → key_leb a b ≡ false → key_leb b a ≡ true
unfolding key_leb
key_leb-total a b h = ground arith

pub key_leb_trans :
    (a b c : Web3Event) → key_leb a b ≡ true → key_leb b c ≡ true → key_leb a c ≡ true
unfolding key_leb
key_leb_trans a b c h k = ground arith

All-key_leb :
    (a b : Web3Event) (xs : List Web3Event)
    → key_leb a b ≡ true
    → All (λ y. key_leb b y ≡ true) xs
    → All (λ y. key_leb a y ≡ true) xs
All-key_leb a b [] h k = tt
All-key_leb a b (x ∷ xs) h k = (key_leb_trans a b x h k.0, All-key_leb a b xs h k.1)

pub All-insert_event {ℓ} :
    (P : Web3Event → Type ℓ) (x : Web3Event) (xs : List Web3Event)
    → P x
    → All P xs
    → All P (insert_event x xs)
unfolding insert_event
All-insert_event P x [] px h = (px, tt)
All-insert_event P x (y ∷ ys) px h = elim (Bool-cases (key_leb x y)) [
  | inl e ↦ rw e (px, h)
  | inr e ↦ rw e (h.0, All-insert_event P x ys px h.1)
]

pub All-sort_events {ℓ} :
    (P : Web3Event → Type ℓ) (xs : List Web3Event) → All P xs → All P (sort_events xs)
unfolding sort_events
All-sort_events P [] h = tt
All-sort_events P (x ∷ xs) h = All-insert_event P x (sort_events xs) h.0 (All-sort_events P xs h.1)

insert_event-IsKeySorted :
    (x : Web3Event) (xs : List Web3Event) → IsKeySorted xs → IsKeySorted (insert_event x xs)
unfolding insert_event
insert_event-IsKeySorted x [] h = (tt, tt)
insert_event-IsKeySorted x (y ∷ ys) h = elim (Bool-cases (key_leb x y)) [
  | inl e ↦ rw e ((e, All-key_leb x y ys e h.0), h)
  | inr e ↦ rw e (
    All-insert_event (λ z. key_leb y z ≡ true) x ys (key_leb-total x y e) h.0,
    insert_event-IsKeySorted x ys h.1,
  )
]

key_leb-Before : (a b : Web3Event) → key_leb a b ≡ true → Before a b
unfolding key_leb
key_leb-Before a b h = ground arith

pub Before-key_leb : (a b : Web3Event) → Before a b → key_leb a b ≡ true
unfolding key_leb
Before-key_leb a b h = ground arith

All-Before :
    (a : Web3Event) (xs : List Web3Event) → All (λ y. key_leb a y ≡ true) xs → All (Before a) xs
All-Before a [] h = tt
All-Before a (x ∷ xs) h = (key_leb-Before a x h.0, All-Before a xs h.1)

IsKeySorted-IsSorted : (xs : List Web3Event) → IsKeySorted xs → IsSorted xs
IsKeySorted-IsSorted [] h = tt
IsKeySorted-IsSorted (x ∷ xs) h = (All-Before x xs h.0, IsKeySorted-IsSorted xs h.1)

insert_event-perm : (x : Web3Event) (xs : List Web3Event) → Perm (insert_event x xs) (x ∷ xs)
unfolding insert_event
insert_event-perm x [] = Perm.refl (x ∷ [])
insert_event-perm x (y ∷ ys) = elim (Bool-cases (key_leb x y)) [
  | inl e ↦ rw e (Perm.refl (x ∷ y ∷ ys))
  | inr e ↦ rw e (Perm.trans (Perm.cons y (insert_event-perm x ys)) (Perm.swap x y ys))
]

sort_events-IsKeySorted : (xs : List Web3Event) → IsKeySorted (sort_events xs)
unfolding sort_events
sort_events-IsKeySorted [] = tt
sort_events-IsKeySorted (x ∷ xs) =
    insert_event-IsKeySorted x (sort_events xs) (sort_events-IsKeySorted xs)

pub sort_events-IsSorted : (xs : List Web3Event) → IsSorted (sort_events xs)
sort_events-IsSorted xs = IsKeySorted-IsSorted (sort_events xs) (sort_events-IsKeySorted xs)

pub sort_events-perm : (xs : List Web3Event) → Perm (sort_events xs) xs
unfolding sort_events
sort_events-perm [] = Perm.refl []
sort_events-perm (x ∷ xs) =
    Perm.trans (insert_event-perm x (sort_events xs)) (Perm.cons x (sort_events-perm xs))

pub length-insert_event :
    (x : Web3Event) (xs : List Web3Event) → length (insert_event x xs) ≡ length xs + 1
unfolding insert_event
length-insert_event x [] = omega arith
length-insert_event x (y ∷ ys) = ground (arith, length-insert_event x ys)

pub length-sort_events : (xs : List Web3Event) → length (sort_events xs) ≡ length xs
unfolding sort_events
length-sort_events [] = omega arith
length-sort_events (x ∷ xs) =
    omega (arith, length-insert_event x (sort_events xs), length-sort_events xs)
