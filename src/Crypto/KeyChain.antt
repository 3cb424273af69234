-- ===== src/Crypto/KeyChain.antt =====
-- KeyChain.cpp: the one-way key chain and the check of a disclosed key.
use mathlib.Core.List.{[]}
use Prim.Native.Nat.{zero}
use authentication_transmiss.Crypto.{digest_equals, Bool, ◌∷◌, CryptoProvider}
use authentication_transmiss.Prelude.{
  out_of_range, ok, leb, invalid_argument, ◌||◌, ◌==◌, fail_if, ◌>>◌, ◌-◌, suc, Throws, List,
  length, ℕ,
}

pub record KeyChain : Type 0 where
  pub keys : List (List ℕ)

-- `for (nIndex = n; nIndex > 0; --nIndex) keys[nIndex - 1] = H(keys[nIndex])`: the key just
-- computed, and the keys of the higher indexes behind it.
unfoldable pub chain_loop : (List ℕ → List ℕ) → ℕ → List ℕ → List (List ℕ) → List (List ℕ)
chain_loop hash zero key higher = key ∷ higher
chain_loop hash (suc n) key higher = chain_loop hash n (hash key) (key ∷ higher)

unfoldable pub create : CryptoProvider → List ℕ → ℕ → Throws KeyChain
unfolding chain_loop
create p seed data_interval_count = do
  fail_if (length seed == 0) invalid_argument
  fail_if (data_interval_count == 0) invalid_argument
  ok (record { keys = chain_loop p.hash data_interval_count (p.hash seed) [] })

-- `keys[i]` where the index has been checked.
unfoldable pub key_at : List (List ℕ) → ℕ → List ℕ
key_at [] i = []
key_at (k ∷ ks) zero = k
key_at (k ∷ ks) (suc i) = key_at ks i

unfoldable pub commitment_key : KeyChain → List ℕ
unfolding key_at
commitment_key c = key_at c.keys 0

unfoldable pub data_key : KeyChain → ℕ → Throws (List ℕ)
unfolding key_at
data_key c interval_index = do
  fail_if (interval_index == 0 || leb (length c.keys) interval_index) out_of_range
  ok (key_at c.keys interval_index)

unfoldable pub data_interval_count : KeyChain → ℕ
data_interval_count c = length c.keys - 1

-- `for (nIndex = 0; nIndex < i; ++nIndex) current = H(current)`.
unfoldable pub hash_times : (List ℕ → List ℕ) → ℕ → List ℕ → List ℕ
hash_times hash zero key = key
hash_times hash (suc n) key = hash_times hash n (hash key)

unfoldable pub verify_disclosed_key : CryptoProvider → List ℕ → ℕ → List ℕ → Bool
unfolding hash_times
verify_disclosed_key p disclosed_key index commitment =
    digest_equals (hash_times p.hash index disclosed_key) commitment
