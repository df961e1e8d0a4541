-- ===== src/Quickstart/Yields.antt =====
-- What holds of the value and the session that an action returns, if it raises nothing. As in
-- `Framed`, a proof is written like the code that it is about.
use trustlines_blockchain.Prelude.{
  ◌≡◌, ap, Bool, true, false, Result, ok, PyError, Action, bind-ok, raise, if◌then◌else◌, arith,
}
use trustlines_blockchain.Quickstart.Session.{Session}
use trustlines_blockchain.Quickstart.Frame.{in_turn}

abbrev pub Yields : {A : Type 0} → (A → Session → Type 0) → Action Session A → Type 0
Yields {A} Q m = (s s' : Session) (a : A) → m s ≡ (ok a, s') → Q a s'

pub record Yielding {A : Type 0} (Q : A → Session → Type 0) : Type 0 where
  pub act : Action Session A
  pub yields : Yields Q act

pub in_turn-Yields :
    {A B : Type 0} {Q : B → Session → Type 0} (m : Action Session A) (k : A → Yielding Q)
    → Yields Q (in_turn m (λ a. (k a).act))
in_turn-Yields m k s s' b h =
    let (a, s1, _, h1) = bind-ok m (λ x. (k x).act) s s' b h in (k a).yields s1 s' b h1

pub raise-Yields : {A : Type 0} (Q : A → Session → Type 0) (e : PyError) → Yields Q (raise e)
raise-Yields {A} Q e s s' a h = absurd (ground (arith, ap (λ (p : Result A × Session). p.0) h))

pub if-Yields :
    {A : Type 0} {Q : A → Session → Type 0} (b : Bool) (m n : Yielding Q)
    → Yields Q (if b then m.act else n.act)
if-Yields true m n = m.yields
if-Yields false m n = n.yields

infixl 5 ◌>>=◌ ◌>>◌
abbrev pub ◌>>=◌ :
    {A B : Type 0} {Q : B → Session → Type 0} → Action Session A → (A → Yielding Q) → Yielding Q
m >>= k = record { act = in_turn m (λ a. (k a).act); yields = in_turn-Yields m k }

abbrev pub ◌>>◌ :
    {A B : Type 0} {Q : B → Session → Type 0} → Action Session A → Yielding Q → Yielding Q
m >> k = m >>= λ _. k

abbrev pub yielding :
    {A : Type 0} {Q : A → Session → Type 0} (m : Action Session A) → Yields Q m → Yielding Q
yielding m h = record { act = m; yields = h }

abbrev pub refused : {A : Type 0} {Q : A → Session → Type 0} → PyError → Yielding Q
refused {Q = Q} e = record { act = raise e; yields = raise-Yields Q e }

abbrev pub either :
    {A : Type 0} {Q : A → Session → Type 0} → Bool → Yielding Q → Yielding Q → Yielding Q
either b m n = record { act = if b then m.act else n.act; yields = if-Yields b m n }
