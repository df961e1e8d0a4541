-- ===== src/Deploy/Validators.antt =====
-- deploy-tools/validator-set-deploy/src/validator_set_deploy/cli.py: the command `check_validators`.
use trustlines_blockchain.Prelude.{
  ◌≡◌, ◌↔◌, refl, sym, ap, ◌∙◌, String, Bool, true, false, not, ◌&&◌, List, [], ◌∷◌, map, arith,
  if◌then◌else◌,
}
use trustlines_blockchain.Prelude.Classes.{string_eq, ◌==◌}
use trustlines_blockchain.Containers.PySet.{contains}

-- A line on a validator of the contract: with `+` in front where the file lacks it.
pub data Line : Type 0 where
  in_both only_in_contract : (validator : String) → Line

-- What the command prints: the validators of the contract, those that only the file has, and whether
-- the two lists match. The legend is left out.
pub record ValidatorReport : Type 0 where
  pub current : List Line
  pub missing : List String
  pub is_matching : Bool

unfoldable pub list_eqb : List String → List String → Bool
list_eqb [] [] = true
list_eqb [] (y ∷ ys) = false
list_eqb (x ∷ xs) [] = false
list_eqb (x ∷ xs) (y ∷ ys) = x == y && list_eqb xs ys

unfoldable pub current_lines : List String → List String → List Line
current_lines validators_from_file [] = []
current_lines validators_from_file (validator ∷ validators) =
    (if contains validators_from_file validator
      then in_both validator
      else only_in_contract validator)
    ∷ current_lines validators_from_file validators

unfoldable pub missing_lines : List String → List String → List String
missing_lines current_validators [] = []
missing_lines current_validators (validator ∷ validators) =
    if contains current_validators validator
    then missing_lines current_validators validators
    else validator ∷ missing_lines current_validators validators

unfoldable pub check_validators : List String → List String → ValidatorReport
check_validators validators_from_file current_validators = record {
  current = current_lines validators_from_file current_validators;
  missing = missing_lines current_validators validators_from_file;
  is_matching = list_eqb validators_from_file current_validators;
}

list_eqb_iff : (xs ys : List String) → (list_eqb xs ys ≡ true) ↔ (xs ≡ ys)
unfolding list_eqb
list_eqb_iff [] [] = ground arith
list_eqb_iff [] (y ∷ ys) = ground arith
list_eqb_iff (x ∷ xs) [] = ground arith
list_eqb_iff (x ∷ xs) (y ∷ ys) = ground (arith, list_eqb_iff xs ys, string_eq.beq_iff x y)

contains-missing_lines :
    (current file : List String) (a : String)
    → contains (missing_lines current file) a ≡ (contains file a && not (contains current a))
unfolding missing_lines contains
contains-missing_lines current [] a = refl
contains-missing_lines current (x ∷ file) a =
    ground (arith, contains-missing_lines current file a, string_eq.beq_iff x a)

none_missing :
    (current file : List String)
    → ((a : String) → contains file a ≡ true → contains current a ≡ true)
    → missing_lines current file ≡ []
unfolding missing_lines contains
none_missing current [] h = refl
none_missing current (x ∷ file) h =
    let here : contains current x ≡ true = h x (ground (arith, (string_eq.beq_iff x x).1 refl)) in
    rw (missing_lines, here) (none_missing current file (λ a b. h a (ground arith)))

same_lines :
    (current file : List String)
    → ((a : String) → contains current a ≡ true → contains file a ≡ true)
    → current_lines file current ≡ map (λ a. in_both a) current
unfolding current_lines contains
same_lines [] file h = refl
same_lines (x ∷ current) file h =
    let here : contains file x ≡ true = h x (ground (arith, (string_eq.beq_iff x x).1 refl)) in
    rw here (ap (λ l. in_both x ∷ l) (same_lines current file (λ a b. h a (ground arith))))

-- The report says that the lists match exactly if they are the same list; it then marks no validator
-- as extra and none as missing. In any case the missing ones are exactly those in the file and not in
-- the contract.
pub check_validators_lem :
    (file current : List String)
    → let report = check_validators file current in
      ((report.is_matching ≡ true) ↔ (file ≡ current))
      × (report.is_matching ≡ true
          → (report.missing ≡ []) × (report.current ≡ map (λ a. in_both a) current))
      × ((a : String) → contains report.missing a ≡ (contains file a && not (contains current a)))
unfolding check_validators
check_validators_lem file current = (
  list_eqb_iff file current,
  λ h.
      let same = (list_eqb_iff file current).0 h in
      (
        none_missing current file (λ a b. ap (λ l. contains l a) (sym same) ∙ b),
        same_lines current file (λ a b. ap (λ l. contains l a) same ∙ b),
      ),
  λ a. contains-missing_lines current file a,
)
