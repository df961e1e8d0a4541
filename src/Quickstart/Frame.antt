-- ===== src/Quickstart/Frame.antt =====
-- What an action of the quickstart does to the files, however it ends: a relation between the files
-- before and after it that is kept by running one action after another.
use trustlines_blockchain.Prelude.{
  ◌≡◌, refl, ◌∙◌, Bool, true, false, List, [], ◌∷◌, Result, ok, err, PyError, Action, ◌>>=◌, pure,
  raise, raise_if, gets, lift, if◌then◌else◌,
}
use trustlines_blockchain.Quickstart.Session.{
  Files, Answer, typed, confirmed, Session, prompt, confirm, asking, on_files,
}

pub record Frame : Type 1 where
  pub Rel : Files → Files → Type 0
  pub same : (f : Files) → Rel f f
  pub after : (f g h : Files) → Rel f g → Rel g h → Rel f h

abbrev pub Within : {A : Type 0} → Frame → Action Session A → Type 0
Within r m = (s : Session) → r.Rel s.files (m s).1.files

-- One action after another, under a name that `Framed` can use beside its own `◌>>=◌`.
abbrev pub in_turn : {A B : Type 0} → Action Session A → (A → Action Session B) → Action Session B
in_turn m k = m >>= k

module _ (r : Frame) where
  bind_step :
      {A B : Type 0} (p : Result A × Session) (k : A → Action Session B) (f : Files)
      → r.Rel f p.1.files
      → ((a : A) → Within r (k a))
      → r.Rel f
          (elim p.0 as (λ _. Result B × Session) [ ok a ↦ k a p.1 | err e ↦ (err e, p.1) ]).1.files
  bind_step (ok a, s) k f first then_k = r.after f s.files (k a s).1.files first (then_k a s)
  bind_step (err e, s) k f first then_k = first

  pub bind-Within :
      {A B : Type 0} (m : Action Session A) (k : A → Action Session B)
      → Within r m
      → ((a : A) → Within r (k a))
      → Within r (m >>= k)
  bind-Within m k first then_k s = bind_step (m s) k s.files (first s) then_k

  pub pure-Within : {A : Type 0} (a : A) → Within r (pure a)
  pure-Within a s = r.same s.files

  pub raise-Within : (A : Type 0) (e : PyError) → Within r (raise {A = A} e)
  raise-Within A e s = r.same s.files

  pub gets-Within : {A : Type 0} (f : Session → A) → Within r (gets f)
  gets-Within f s = r.same s.files

  pub lift-Within : {A : Type 0} (x : Result A) → Within r (lift x)
  lift-Within (ok a) s = r.same s.files
  lift-Within (err e) s = r.same s.files

  pub raise_if-Within : (b : Bool) (e : PyError) → Within r (raise_if b e)
  raise_if-Within true e s = r.same s.files
  raise_if-Within false e s = r.same s.files

  pub if-Within :
      {A : Type 0} (b : Bool) (m n : Action Session A)
      → Within r m
      → Within r n
      → Within r (if b then m else n)
  if-Within true m n h k = h
  if-Within false m n h k = k

  on_step :
      (x : Result Files) (s : Session)
      → ((g : Files) → x ≡ ok g → r.Rel s.files g)
      → r.Rel s.files
          (elim x as (λ _. Result (Unit {0}) × Session) [
            | err e ↦ (err e, s)
            | ok f ↦ (ok tt, record s { files = f })
          ]).1.files
  on_step (ok g) s h = h g refl
  on_step (err e) s h = r.same s.files

  pub on_files-Within :
      (change : Files → Result Files)
      → ((f g : Files) → change f ≡ ok g → r.Rel f g)
      → Within r (on_files change)
  unfolding on_files
  on_files-Within change h s = on_step (change s.files) s (h s.files)

  pub asking-Within :
      {A : Type 0} (dialog : List Answer → Result A × List Answer) → Within r (asking dialog)
  unfolding asking
  asking-Within dialog s = r.same s.files

  prompt_step :
      (xs : List Answer) (s : Session) → r.Rel s.files (prompt (record s { answers = xs })).1.files
  unfolding prompt
  prompt_step [] s = r.same s.files
  prompt_step (typed t ∷ xs) s = r.same s.files
  prompt_step (confirmed b ∷ xs) s = r.same s.files

  pub prompt-Within : Within r prompt
  prompt-Within s = prompt_step s.answers s

  confirm_step :
      (xs : List Answer) (s : Session) → r.Rel s.files (confirm (record s { answers = xs })).1.files
  unfolding confirm
  confirm_step [] s = r.same s.files
  confirm_step (typed t ∷ xs) s = r.same s.files
  confirm_step (confirmed b ∷ xs) s = r.same s.files

  pub confirm-Within : Within r confirm
  confirm-Within s = confirm_step s.answers s

-- The files stay as they are.
abbrev pub unchanged : Frame
unchanged = record { Rel = λ f g. f ≡ g; same = λ f. refl; after = λ f g h p q. p ∙ q }
