-- ===== src/Crypto.antt =====
-- common/crypto: CryptoTypes.h, CryptoProvider.h and CryptoUtilities.cpp. The provider's hash and
-- HMAC stand for the crypto library and are parameters; a provider that fails is not modelled.
use mathlib.Core.List.{[]}
use authentication_transmiss.Prelude.{
  inr, sym, inl, Bool-cases, subst, ◌≢◌, ◌⊎◌, false, ◌&&◌, ◌==◌, refl, arith, ==_refl, ◌∷◌, true,
  ◌≡◌, Bool, List, ℕ,
}
pub mod KeyChain
pub mod Chains
mod Examples

pub data CryptoAlgorithm : Type 0 where
  sha256 sm3 sha3_256 : CryptoAlgorithm

pub record CryptoProvider : Type 0 where
  pub algorithm : CryptoAlgorithm
  pub hash : List ℕ → List ℕ
  pub hmac : List ℕ → List ℕ → List ℕ

-- CryptoUtilities::bDigestEquals: `CRYPTO_memcmp(…) == 0` on two arrays of one size.
unfoldable pub digest_equals : List ℕ → List ℕ → Bool
digest_equals [] [] = true
digest_equals (x ∷ xs) (y ∷ ys) = x == y && digest_equals xs ys
digest_equals [] (y ∷ ys) = false
digest_equals (x ∷ xs) [] = false

pub digest_equals_refl : (xs : List ℕ) → digest_equals xs xs ≡ true
unfolding digest_equals
digest_equals_refl [] = refl
digest_equals_refl (x ∷ xs) = rw (==_refl, digest_equals_refl xs)

pub digest_equals→eq : (xs ys : List ℕ) → digest_equals xs ys ≡ true → xs ≡ ys
unfolding digest_equals
digest_equals→eq [] [] e = refl
digest_equals→eq (x ∷ xs) (y ∷ ys) e = ground (arith, digest_equals→eq xs ys)
digest_equals→eq [] (y ∷ ys) e = cc
digest_equals→eq (x ∷ xs) [] e = cc

pub digest_equals→ne : (xs ys : List ℕ) → digest_equals xs ys ≡ false → xs ≢ ys
digest_equals→ne xs ys e eq =
    let t : digest_equals xs xs ≡ false = subst (λ zs. digest_equals xs zs ≡ false) (sym eq) e in
    let u : digest_equals xs xs ≡ true = digest_equals_refl xs in absurd (cc (t, u))

pub digest_equals-cases : (xs ys : List ℕ) → (xs ≡ ys) ⊎ (xs ≢ ys)
digest_equals-cases xs ys = elim (Bool-cases (digest_equals xs ys)) [
  | inl e ↦ inl (digest_equals→eq xs ys e)
  | inr e ↦ inr (digest_equals→ne xs ys e)
]
