-- ===== src/Vault/Sample.antt =====
-- A token program for the tests of dex/src/state.rs, with the balances in a table.
use openbook_dex.Prelude.{
  ℕ, inl, inr, ◌≤◌, ◌-◌, ◌+◌, ◌≡◌, refl, sym, ap, none, some, arith, leb, not, ◌==◌, if◌then◌else◌,
  Bool-cases,
}
use openbook_dex.Types.{Address}
use openbook_dex.Vault.{TokenProgram, TokenLaws}

abbrev pub Table : Type 0
Table = Address → ℕ

abbrev pub moved : Table → Address → Address → ℕ → Table
moved s a b n = λ x. if x == a then s a - n else if x == b then s x + n else s x

abbrev pub tables : TokenProgram Table
tables = record {
  balance = λ s. s;
  transfer = λ s a b n. if leb n (s a) then some (moved s a b n) else none;
  is_short = λ s a b n. not (leb n (s a));
}

moved-cases :
    (s t : Table) (a b x : Address) (n : ℕ)
    → tables.transfer s a b n ≡ some t
    → (n ≤ s a) × (t x ≡ moved s a b n x)
moved-cases s t a b x n e = elim (Bool-cases (leb n (s a))) [
  | inl f ↦
      let r : tables.transfer s a b n ≡ some (moved s a b n) = rw f refl in
      let same : moved s a b n ≡ t = cc in (ground arith, sym (ap (λ t. t x) same))
  | inr f ↦ let r : tables.transfer s a b n ≡ none = rw f refl in absurd (cc)
]

pub tables-TokenLaws : TokenLaws tables
tables-TokenLaws = record {
  sent = λ s t a b n e ne. let m = moved-cases s t a b a n e in ground arith;
  received = λ s t a b n e ne. let m = moved-cases s t a b b n e in ground arith;
  untouched = λ s t a b x n e ne ne'. let m = moved-cases s t a b x n e in ground arith;
}
