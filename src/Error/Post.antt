-- ===== src/Error/Post.antt =====
-- Postconditions of the fallible code that returns the `DexResult` of dex/src/error.rs.
use openbook_dex.Prelude.{ℕ, ◌≡◌, refl, subst, Bool, true, false, Option, none, some, if◌then◌else◌}
use openbook_dex.Error.{
  DexError, DexErrorCode, SourceFileId, DexResult, ok, err, panic, ◌>>=◌, unwrap, check_assert,
  check_or, ok_or,
}

-- What a success satisfies; an error or a panic aborts the transaction and satisfies anything.
pub data Post {ℓ κ} {A : Type ℓ} (P : A → Type κ) : DexResult A → Type (ℓ ⊔ κ) where
  returns : {a : A} → P a → Post P (ok a)
  fails : {e : DexError} → Post P (err e)
  panics : Post P panic

module _ {ℓ κ} {A : Type ℓ} {P : A → Type κ} where
  pub Post-ok : {a : A} {r : DexResult A} → Post P r → r ≡ ok a → P a
  Post-ok (returns h) e = subst P (cc) h
  Post-ok fails e = cc
  Post-ok panics e = cc

  -- The conditional, with the test's value for each branch.
  pub Post-if :
      (b : Bool) {x y : DexResult A}
      → (b ≡ true → Post P x)
      → (b ≡ false → Post P y)
      → Post P (if b then x else y)
  Post-if true f g = f refl
  Post-if false f g = g refl

module _ {ℓ κ κ'} {A : Type ℓ} {P : A → Type κ} {Q : A → Type κ'} where
  pub Post-imp : {m : DexResult A} → Post P m → ((a : A) → P a → Q a) → Post Q m
  Post-imp (returns h) k = returns (k _ h)
  Post-imp fails k = fails
  Post-imp panics k = panics

  pub Post-both : {m : DexResult A} → Post P m → Post Q m → Post (λ a. P a × Q a) m
  Post-both (returns h) q = returns (h, Post-ok q refl)
  Post-both fails q = fails
  Post-both panics q = panics

module _ {ℓ ℓ' κ κ'} {A : Type ℓ} {B : Type ℓ'} {P : A → Type κ} {Q : B → Type κ'} where
  -- The `?` operator.
  pub Post->>= :
      {m : DexResult A} {f : A → DexResult B}
      → Post P m
      → ((a : A) → P a → Post Q (f a))
      → Post Q (m >>= f)
  Post->>= (returns h) k = k _ h
  Post->>= fails k = fails
  Post->>= panics k = panics

module _ {ℓ} {A : Type ℓ} where
  -- A step of which only the equation is needed.
  pub Post-eq : (m : DexResult A) → Post (λ a. m ≡ ok a) m
  Post-eq (ok a) = returns refl
  Post-eq (err e) = fails
  Post-eq panic = panics

  pub Post-unwrap : (o : Option A) → Post (λ a. o ≡ some a) (unwrap o)
  Post-unwrap none = panics
  Post-unwrap (some a) = returns refl

pub check_assert-true :
    (f : SourceFileId) (l : ℕ) (b : Bool) → Post (λ _. b ≡ true) (check_assert f l b)
check_assert-true f l true = returns refl
check_assert-true f l false = fails

pub check_or-true : (b : Bool) (c : DexErrorCode) → Post (λ _. b ≡ true) (check_or b c)
check_or-true true c = returns refl
check_or-true false c = fails

-- A success of a chain, taken apart.
pub >>=-eq-ok {ℓ κ} :
    {A : Type ℓ} {B : Type κ} (start : DexResult A) (next : A → DexResult B) {last : B}
    → (start >>= next) ≡ ok last
    → (x : A) × (start ≡ ok x) × (next x ≡ ok last)
>>=-eq-ok panic next e = absurd (cc)
>>=-eq-ok (err x) next e = absurd (cc)
>>=-eq-ok (ok x) next e = (x, refl, e)

pub check_assert-eq-ok :
    (f : SourceFileId) (l : ℕ) (b : Bool) {u : Unit {0}} → check_assert f l b ≡ ok u → b ≡ true
check_assert-eq-ok f l true e = refl
check_assert-eq-ok f l false e = cc

pub check_or-eq-ok : (b : Bool) (c : DexErrorCode) {u : Unit {0}} → check_or b c ≡ ok u → b ≡ true
check_or-eq-ok true c e = refl
check_or-eq-ok false c e = cc

pub unwrap-eq-ok {ℓ} : {A : Type ℓ} (o : Option A) {a : A} → unwrap o ≡ ok a → o ≡ some a
unwrap-eq-ok none e = cc
unwrap-eq-ok (some b) e = cc

pub ok_or-eq-ok {ℓ} :
    {A : Type ℓ} (o : Option A) (c : DexErrorCode) {a : A} → ok_or o c ≡ ok a → o ≡ some a
ok_or-eq-ok none c e = cc
ok_or-eq-ok (some b) c e = cc
