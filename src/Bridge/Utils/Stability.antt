-- ===== src/Bridge/Utils/Stability.antt =====
-- The order that `sort_events` leaves open: none where the keys differ, and the old order where
-- they agree.
use mathlib.Core.List.{Perm, Permᴰ}
use mathlib.Core.Path.{ap₂, subst, subst₂}
use trustlines_blockchain.Prelude.{
  ◌≡◌, refl, ap, ◌∙◌, Bool, false, ◌&&◌, List, [], ◌∷◌, arith, nat_eqb, All, if◌then◌else◌,
}
use trustlines_blockchain.Bridge.Events.{Web3Event}
use trustlines_blockchain.Bridge.Utils.{key_leb, insert_event, sort_events}
use trustlines_blockchain.Bridge.Utils.Order.{
  key_leb-total, key_leb_trans, Before-key_leb, IsSorted, sort_events-IsSorted, sort_events-perm,
}

-- Two events with the same block number, transaction index and log index.
unfoldable pub same_key : Web3Event → Web3Event → Bool
same_key a b =
    nat_eqb a.block_number b.block_number
    && nat_eqb a.transaction_index b.transaction_index
    && nat_eqb a.log_index b.log_index

same_key-key_leb : (a b : Web3Event) → same_key a b ≡ (key_leb a b && key_leb b a)
unfolding same_key key_leb
same_key-key_leb a b = ground arith

abbrev pub with_key : Web3Event → List Web3Event → List Web3Event
with_key k [] = []
with_key k (x ∷ xs) = let rest = with_key k xs in if same_key k x then x ∷ rest else rest

-- Where `x` steps behind `y`, at most one of the two has the key of `k`.
with_key-insert_event :
    (k x : Web3Event) (xs : List Web3Event) → with_key k (insert_event x xs) ≡ with_key k (x ∷ xs)
unfolding insert_event
with_key-insert_event k x [] = refl
with_key-insert_event k x (y ∷ ys) = ground (
  arith,
  with_key-insert_event k x ys,
  key_leb_trans x k y,
  key_leb_trans y k x,
  same_key-key_leb k x,
  same_key-key_leb k y,
)

pub with_key-sort_events :
    (k : Web3Event) (xs : List Web3Event) → with_key k (sort_events xs) ≡ with_key k xs
unfolding sort_events
with_key-sort_events k [] = refl
with_key-sort_events k (x ∷ xs) =
    with_key-insert_event k x (sort_events xs)
    ∙ ap (λ (r : List Web3Event). if same_key k x then x ∷ r else r) (with_key-sort_events k xs)

insert_event_comm :
    (x y : Web3Event) (xs : List Web3Event)
    → same_key x y ≡ false
    → insert_event x (insert_event y xs) ≡ insert_event y (insert_event x xs)
unfolding insert_event
insert_event_comm x y [] h =
    ground (arith, same_key-key_leb x y, key_leb-total x y, key_leb-total y x)
insert_event_comm x y (z ∷ zs) h = ground (
  arith,
  same_key-key_leb x y,
  key_leb-total x y,
  key_leb-total y x,
  key_leb_trans x y z,
  key_leb_trans y x z,
  key_leb-total x z,
  key_leb-total y z,
  key_leb_trans x z y,
  key_leb_trans y z x,
  insert_event_comm x y zs,
)

abbrev pub DistinctKeys : List Web3Event → Type 0
DistinctKeys [] = Unit
DistinctKeys (x ∷ xs) = All (λ y. same_key x y ≡ false) xs × DistinctKeys xs

All-perm : (P : Web3Event → Type 0) {xs ys : List Web3Event} → Permᴰ xs ys → All P xs → All P ys
All-perm P Permᴰ.nil h = h
All-perm P (Permᴰ.cons e p) h = (subst P e h.0, All-perm P p h.1)
All-perm P (Permᴰ.swap e f) h = (subst P f h.1.0, (subst P e h.0, h.1.1))
All-perm P (Permᴰ.trans p q) h = All-perm P q (All-perm P p h)

same_key_symm : (x y : Web3Event) → same_key x y ≡ false → same_key y x ≡ false
same_key_symm x y h = ground (arith, same_key-key_leb x y, same_key-key_leb y x)

DistinctFrom : Web3Event → List Web3Event → Type 0
DistinctFrom x xs = All (λ y. same_key x y ≡ false) xs

DistinctKeys-perm : {xs ys : List Web3Event} → Permᴰ xs ys → DistinctKeys xs → DistinctKeys ys
unfolding DistinctFrom
DistinctKeys-perm Permᴰ.nil h = h
DistinctKeys-perm (Permᴰ.cons {l₂ = l} e p) h =
    (subst (λ z. DistinctFrom z l) e (All-perm _ p h.0), DistinctKeys-perm p h.1)
DistinctKeys-perm (Permᴰ.swap {a = a} {b = b} {l = l} e f) h =
    subst₂ (λ y x. DistinctKeys (x ∷ y ∷ l)) e f ((same_key_symm a b h.0.0, h.1.0), (h.0.1, h.1.1))
DistinctKeys-perm (Permᴰ.trans p q) h = DistinctKeys-perm q (DistinctKeys-perm p h)

-- Lists with the same events, no two of which agree in their keys, are sorted to the same list.
sort_events_order_free :
    {xs ys : List Web3Event} → Permᴰ xs ys → DistinctKeys xs → sort_events xs ≡ sort_events ys
unfolding sort_events
sort_events_order_free Permᴰ.nil h = refl
sort_events_order_free (Permᴰ.cons e p) h = ap₂ insert_event e (sort_events_order_free p h.1)
sort_events_order_free (Permᴰ.swap {a = a} {b = b} {l = l} e f) h =
    insert_event_comm a b (sort_events l) h.0.0
    ∙ ap₂ (λ y x. insert_event x (insert_event y (sort_events l))) e f
sort_events_order_free (Permᴰ.trans p q) h =
    sort_events_order_free p h ∙ sort_events_order_free q (DistinctKeys-perm p h)

-- A list that is in order stays as it is.
sort_events_of_sorted : (ys : List Web3Event) → IsSorted ys → sort_events ys ≡ ys
unfolding sort_events insert_event
sort_events_of_sorted [] h = refl
sort_events_of_sorted (y ∷ []) h = refl
sort_events_of_sorted (y ∷ z ∷ ys) h =
    ap (insert_event y) (sort_events_of_sorted (z ∷ ys) h.1)
    ∙ ground (arith, Before-key_leb y z h.0.0)

-- A list in which no two events agree in block number, transaction index and log index is sorted to the
-- one list that has the same events in the order of block number, transaction index and log index: the
-- order in which Python goes through a set does not matter.
pub sort_events_unique :
    {xs ys : List Web3Event} → Permᴰ xs ys → DistinctKeys xs → IsSorted ys → sort_events xs ≡ ys
sort_events_unique {ys = ys} p distinct sorted =
    sort_events_order_free p distinct ∙ sort_events_of_sorted ys sorted

-- `sort_events` returns the events that it is given, in the order of block number, transaction
-- index and log index, and leaves events that agree in all three in their old order.
pub sort_events_lem :
    (xs : List Web3Event)
    → IsSorted (sort_events xs)
      × Perm (sort_events xs) xs
      × ((k : Web3Event) → with_key k (sort_events xs) ≡ with_key k xs)
sort_events_lem xs = (sort_events-IsSorted xs, sort_events-perm xs, λ k. with_key-sort_events k xs)
