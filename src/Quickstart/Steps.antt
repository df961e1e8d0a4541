-- ===== src/Quickstart/Steps.antt =====
-- The equations of single steps of the quickstart: what a step that went well has done, and what a step
-- does where what it reads is known.
use trustlines_blockchain.Prelude.{
  ◌≡◌, refl, sym, ap, ◌∙◌, String, Bool, true, false, List, [], ◌∷◌, Result, ok, err, abort, Action,
  lift, arith, if◌then◌else◌,
}
use trustlines_blockchain.Quickstart.Session.{
  Files, Answer, typed, confirmed, Session, prompt, asking, on_files,
}

pub on_files-ok :
    (change : Files → Result Files) (s s' : Session)
    → on_files change s ≡ (ok tt, s')
    → (f : Files) × (change s.files ≡ ok f) × (s' ≡ record s { files = f })
unfolding on_files
on_files-ok change s s' h = go (change s.files) refl h
  where
    go :
        (r : Result Files)
        → change s.files ≡ r
        → (elim r as (λ _. Result (Unit {0}) × Session) [
          | err x ↦ (err x, s)
          | ok f ↦ (ok tt, record s { files = f })
        ])
          ≡ (ok tt, s')
        → (f : Files) × (change s.files ≡ ok f) × (s' ≡ record s { files = f })
    go (ok f) e k = (f, e, sym (ap (λ (p : Result (Unit {0}) × Session). p.1) k))
    go (err x) e k = absurd (ground (arith, ap (λ (p : Result (Unit {0}) × Session). p.0) k))

pub on_files-eq :
    (change : Files → Result Files) (f : Files) (s : Session)
    → change s.files ≡ ok f
    → on_files change s ≡ (ok tt, record s { files = f })
unfolding on_files
on_files-eq change f s h = rw (h, on_files)

pub asking-eq :
    {A : Type 0} (dialog : List Answer → Result A × List Answer) (r : Result A) (rest : List Answer)
    (s : Session)
    → dialog s.answers ≡ (r, rest)
    → asking dialog s ≡ (r, record s { answers = rest })
unfolding asking
asking-eq dialog r rest s h = rw (h, asking)

pub prompt-eq :
    (t : String) (rest : List Answer) (s : Session)
    → s.answers ≡ typed t ∷ rest
    → prompt s ≡ (ok t, record s { answers = rest })
unfolding prompt
prompt-eq t rest s h = rw (h, prompt)

pub if_false :
    (b : Bool) (m n : Action Session (Unit {0})) (s : Session) (r : Result (Unit {0}) × Session)
    → b ≡ false
    → n s ≡ r
    → (if b then m else n) s ≡ r
if_false true m n s r h k = absurd (ground (arith, h))
if_false false m n s r h k = k

pub asking-ok :
    {A : Type 0} (dialog : List Answer → Result A × List Answer) (s s' : Session) (a : A)
    → asking dialog s ≡ (ok a, s')
    → (dialog s.answers ≡ (ok a, s'.answers)) × (s'.files ≡ s.files)
unfolding asking
asking-ok {A} dialog s s' a h =
    let answers = ap (λ (p : Result A × Session). p.1.answers) h in
    let answer = ap (λ (p : Result A × Session). p.0) h in
    (λ i. (answer i, answers i), ap (λ (p : Result A × Session). p.1.files) (sym h))

pub prompt-ok :
    (s s' : Session) (t : String)
    → prompt s ≡ (ok t, s')
    → (s.answers ≡ typed t ∷ s'.answers) × (s'.files ≡ s.files)
unfolding prompt
prompt-ok s s' t h = go s.answers refl h
  where
    go :
        (xs : List Answer)
        → s.answers ≡ xs
        → (elim xs as (λ _. Result String × Session) [
          | [] ↦ (err abort, s)
          | a ∷ rest ↦ elim a [
            | typed u ↦ (ok u, record s { answers = rest })
            | confirmed b ↦ (err abort, record s { answers = rest })
          ]
        ])
          ≡ (ok t, s')
        → (s.answers ≡ typed t ∷ s'.answers) × (s'.files ≡ s.files)
    go [] e k = absurd (ground (arith, ap (λ (p : Result String × Session). p.0) k))
    go (typed u ∷ rest) e k =
        let u_t = ap (λ (p : Result String × Session). p.0) k in
        let answers = ap (λ (p : Result String × Session). p.1.answers) k in
        (e ∙ ground (arith, u_t, answers), ap (λ (p : Result String × Session). p.1.files) (sym k))
    go (confirmed b ∷ rest) e k =
        absurd (ground (arith, ap (λ (p : Result String × Session). p.0) k))

pub lift-ok :
    {A : Type 0} (x : Result A) (s s' : Session) (a : A)
    → lift x s ≡ (ok a, s')
    → (x ≡ ok a) × (s' ≡ s)
lift-ok {A} (ok b) s s' a h =
    (ap (λ (p : Result A × Session). p.0) h, sym (ap (λ (p : Result A × Session). p.1) h))
lift-ok {A} (err e) s s' a h = absurd (ground (arith, ap (λ (p : Result A × Session). p.0) h))
