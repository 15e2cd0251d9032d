-- ===== src/External/Amounts.antt =====
-- How often a resource is held: ledgers up to the order of their entries.
use ccthread.Prelude.{
  ℕ, ◌+◌, ◌≤◌, ◌<◌, ◌≡◌, List, [], ◌∷◌, ◌++◌, arith, true, Bool-cases, inl, inr, if◌then◌else◌,
}
use ccthread.External.Ledger.{Resource, same, remove}

abbrev pub one : Resource → Resource → ℕ
one r x = if same r x then 1 else 0

abbrev pub amount : Resource → List Resource → ℕ
amount r [] = 0
amount r (x ∷ xs) = one r x + amount r xs

pub amount-append :
    (r : Resource) (xs ys : List Resource) → amount r (xs ++ ys) ≡ amount r xs + amount r ys
amount-append r [] ys = omega arith
amount-append r (x ∷ xs) ys = let h = amount-append r xs ys in omega (arith, h)

-- Equal resources occur equally often.
one-same : (s r x : Resource) → same r x ≡ true → one s x ≡ one s r
one-same (i, a) (j, b) (k, c) e = ground arith

-- Taking out a resource that is held.
pub amount-remove :
    (s r : Resource) (xs : List Resource)
    → 0 < amount r xs
    → amount s (remove r xs) + one s r ≡ amount s xs
amount-remove s r [] h = absurd (omega (arith, h))
amount-remove s r (x ∷ xs) h = elim (Bool-cases (same r x)) [
  | inl equal ↦ ground (arith, one-same s r x equal)
  | inr other ↦ ground (arith, amount-remove s r xs (ground arith))
]

abbrev pub remove_all : List Resource → List Resource → List Resource
remove_all [] xs = xs
remove_all (r ∷ rs) xs = remove_all rs (remove r xs)

-- Everything that the first list holds is in the second one.
abbrev pub Within : List Resource → List Resource → Type 0
Within rs xs = (s : Resource) → amount s rs ≤ amount s xs

one_refl : (r : Resource) → one r r ≡ 1
one_refl (k, a) = ground arith

pub amount-remove_all :
    (s : Resource) (rs xs : List Resource)
    → Within rs xs
    → amount s (remove_all rs xs) + amount s rs ≡ amount s xs
amount-remove_all s [] xs h = omega arith
amount-remove_all s (r ∷ rs) xs h =
    let there : 0 < amount r xs = omega (arith, h r, one_refl r) in
    let rest =
      amount-remove_all s rs (remove r xs) (λ t. omega (arith, h t, amount-remove t r xs there)) in
    omega (arith, rest, amount-remove s r xs there)
