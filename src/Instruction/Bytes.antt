-- ===== src/Instruction/Bytes.antt =====
-- The `from_le_bytes` and `to_le_bytes` of the machine integers, on bytes as numbers below 256.
use openbook_dex.Prelude.{
  ℕ, zero, suc, ◌+◌, ◌*◌, ◌/◌, ◌%◌, ◌^◌, ◌<◌, ◌≡◌, refl, ap, List, [], ◌∷◌, ◌++◌, arith, length,
  take, drop,
}

unfoldable pub from_le : List ℕ → ℕ
from_le [] = 0
from_le (b ∷ bs) = b + 256 * from_le bs

-- `n` in so many bytes, the lowest first.
unfoldable pub to_le : ℕ → ℕ → List ℕ
to_le zero n = []
to_le (suc w) n = n % 256 ∷ to_le w (n / 256)

pub length-to_le : (w n : ℕ) → length (to_le w n) ≡ w
unfolding to_le
length-to_le zero n = refl
length-to_le (suc w) n = ap suc (length-to_le w (n / 256))

pow256 : (w : ℕ) → 256 ^ suc w ≡ 256 * 256 ^ w
pow256 w = grind arith

pub from_le-to_le : (w n : ℕ) → n < 256 ^ w → from_le (to_le w n) ≡ n
unfolding from_le to_le
from_le-to_le zero n h = omega arith
from_le-to_le (suc w) n h =
    let e = pow256 w in let rest = from_le-to_le w (n / 256) (omega arith) in omega arith

-- Where a number stands at the front, it is what is taken, and the rest is what is left.
pub take-to_le : (w n : ℕ) (rest : List ℕ) → take w (to_le w n ++ rest) ≡ to_le w n
unfolding to_le
take-to_le zero n rest = refl
take-to_le (suc w) n rest = ap (◌∷◌ (n % 256)) (take-to_le w (n / 256) rest)

pub drop-to_le : (w n : ℕ) (rest : List ℕ) → drop w (to_le w n ++ rest) ≡ rest
unfolding to_le
drop-to_le zero n rest = refl
drop-to_le (suc w) n rest = drop-to_le w (n / 256) rest

-- Reading a field off the front: the number and the rest.
pub read : ℕ → List ℕ → ℕ × List ℕ
read w bytes = (from_le (take w bytes), drop w bytes)

pub read-to_le : (w n : ℕ) (rest : List ℕ) → n < 256 ^ w → read w (to_le w n ++ rest) ≡ (n, rest)
unfolding read
read-to_le w n rest h = rw (take-to_le w n rest, drop-to_le w n rest, from_le-to_le w n h) refl
