-- ===== src/Quickstart/Framed.antt =====
-- Actions with the proof that they are within a frame. The combinators are those of actions, so that a
-- proof about a frame is written like the code that it is about.
use trustlines_blockchain.Prelude.{
  String, Bool, List, Result, PyError, Action, pure, raise, raise_if, gets, lift, if◌then◌else◌, ok,
  ◌≡◌,
}
use trustlines_blockchain.Quickstart.Session.{
  Files, Answer, Session, prompt, confirm, asking, on_files,
}
use trustlines_blockchain.Quickstart.Frame.{
  Frame, Within, in_turn, bind-Within, pure-Within, raise-Within, raise_if-Within, gets-Within,
  lift-Within, if-Within, on_files-Within, asking-Within, prompt-Within, confirm-Within,
}

pub record Framed (r : Frame) (A : Type 0) : Type 0 where
  pub act : Action Session A
  pub within : Within r act

abbrev pub framed : (r : Frame) {A : Type 0} (m : Action Session A) → Within r m → Framed r A
framed r m h = record { act = m; within = h }

infixl 5 ◌>>=◌ ◌>>◌
abbrev pub ◌>>=◌ : {r : Frame} {A B : Type 0} → Framed r A → (A → Framed r B) → Framed r B
◌>>=◌ {r} m k =
    framed r (in_turn m.act (λ a. (k a).act))
      (bind-Within r m.act (λ a. (k a).act) m.within (λ a. (k a).within))

abbrev pub ◌>>◌ : {r : Frame} {A B : Type 0} → Framed r A → Framed r B → Framed r B
m >> k = m >>= λ _. k

module _ (r : Frame) where
  abbrev pub done : {A : Type 0} → A → Framed r A
  done a = framed r (pure a) (pure-Within r a)

  abbrev pub raised : {A : Type 0} → PyError → Framed r A
  raised {A} e = framed r (raise e) (raise-Within r A e)

  abbrev pub raised_if : Bool → PyError → Framed r (Unit {0})
  raised_if b e = framed r (raise_if b e) (raise_if-Within r b e)

  abbrev pub reading : {A : Type 0} → (Session → A) → Framed r A
  reading f = framed r (gets f) (gets-Within r f)

  abbrev pub lifted : {A : Type 0} → Result A → Framed r A
  lifted x = framed r (lift x) (lift-Within r x)

  abbrev pub asked : {A : Type 0} → (List Answer → Result A × List Answer) → Framed r A
  asked dialog = framed r (asking dialog) (asking-Within r dialog)

  abbrev pub prompted : Framed r String
  prompted = framed r prompt (prompt-Within r)

  abbrev pub confirmed_or_not : Framed r Bool
  confirmed_or_not = framed r confirm (confirm-Within r)

  abbrev pub changed :
      (change : Files → Result Files)
      → ((f g : Files) → change f ≡ ok g → r.Rel f g)
      → Framed r (Unit {0})
  changed change h = framed r (on_files change) (on_files-Within r change h)

abbrev pub either : {r : Frame} {A : Type 0} → Bool → Framed r A → Framed r A → Framed r A
either {r} b m n =
    framed r (if b then m.act else n.act) (if-Within r b m.act n.act m.within n.within)
