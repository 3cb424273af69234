-- ===== src/Authority/Unique.antt =====
-- What a sequence of issues, accepted or refused, leaves in the sets and hands out.
use authentication_transmiss.Crypto.KeyChain.{commitment_key, create, KeyChain}
use mathlib.Core.List.{[]}
use authentication_transmiss.Tesla.Input.{same_text_refl, same_text}
use authentication_transmiss.Round.Parameters.{RoundParameters}
use authentication_transmiss.Authority.Issue.{
  max_random_attempts, none_issued, issue, chain_seed_size, repeated, fresh, thrown, attempt,
  Attempt, attempt_chain, attempt_seed, attempt_key, issue_loop, settle, remember, has, Issued,
  SenderMaterial, create_material,
}
use authentication_transmiss.Prelude.{
  subst, ==_refl, length, not, if_ind, err, refl, Exception, runtime_error, arith, ap, false, true,
  ok, All, ◌≡◌, ◌||◌, ◌≢◌, Throws, ◌==◌, ◌∷◌, List, Bool,
}
use authentication_transmiss.Crypto.{CryptoProvider, CryptoAlgorithm}
use Prim.Native.Nat.{zero, suc, ℕ}

-- What one round of the loop knows of the values it ends with.
pub record Fresh (provider_of : CryptoAlgorithm → CryptoProvider) (s : Issued) (p : RoundParameters)
    (chain_id : ℕ) (seed : List ℕ) (key : List ℕ) : Type 0 where
  chain_id_new : has ◌==◌ chain_id s.chain_ids ≡ false
  seed_new : has same_text seed s.seeds ≡ false
  key_new : has same_text key s.commitment_keys ≡ false
  pub chain : KeyChain
  pub made : create (provider_of p.algorithm) seed p.data_interval_count ≡ ok chain
  pub ends : commitment_key chain ≡ key

or_false-inv : (a b : Bool) → (a || b) ≡ false → (a ≡ false) × (b ≡ false)
or_false-inv true b e = absurd (cc e)
or_false-inv false b e = (refl, e)

module _ {R : Type 0} (generate : R → ℕ → Throws (List ℕ) × R)
    (provider_of : CryptoAlgorithm → CryptoProvider) where
  AttemptFresh : Issued → RoundParameters → Attempt → Type 0
  AttemptFresh s p repeated = Unit
  AttemptFresh s p (thrown e) = Unit
  AttemptFresh s p (fresh chain_id seed key) = Fresh provider_of s p chain_id seed key

  module _ (s : Issued) (p : RoundParameters) where
    attempt_key-AttemptFresh :
        (chain_id : ℕ) (seed : List ℕ) (t : Throws KeyChain)
        → has ◌==◌ chain_id s.chain_ids ≡ false
        → has same_text seed s.seeds ≡ false
        → create (provider_of p.algorithm) seed p.data_interval_count ≡ t
        → AttemptFresh s p (attempt_key s chain_id seed t)
    unfolding attempt_key AttemptFresh
    attempt_key-AttemptFresh chain_id seed (err e) h1 h2 made = tt
    attempt_key-AttemptFresh chain_id seed (ok chain) h1 h2 made =
        if_ind {A = Attempt} (λ a. AttemptFresh s p a)
          (has same_text (commitment_key chain) s.commitment_keys) _ _ (λ e. tt)
          (λ e. record {
            chain_id_new = h1;
            seed_new = h2;
            key_new = e;
            chain = chain;
            made = made;
            ends = refl;
          })

    attempt_seed-AttemptFresh :
        (chain_id : ℕ) (t : Throws (List ℕ) × R)
        → has ◌==◌ chain_id s.chain_ids ≡ false
        → AttemptFresh s p (attempt_seed generate provider_of s p chain_id t).0
    unfolding attempt_seed AttemptFresh
    attempt_seed-AttemptFresh chain_id (err e, r) h = tt
    attempt_seed-AttemptFresh chain_id (ok seed, r) h =
        if_ind {A = Attempt × R} (λ a. AttemptFresh s p a.0) (not (length seed == chain_seed_size))
          _ _ (λ e. tt)
          (λ e.
            if_ind {A = Attempt × R} (λ a. AttemptFresh s p a.0) (has same_text seed s.seeds) _ _
              (λ f. tt) (λ f. attempt_key-AttemptFresh chain_id seed _ h f refl))

    attempt_chain-AttemptFresh :
        (t : Throws ℕ) (r : R) → AttemptFresh s p (attempt_chain generate provider_of s p t r).0
    unfolding attempt_chain AttemptFresh
    attempt_chain-AttemptFresh (err e) r = tt
    attempt_chain-AttemptFresh (ok chain_id) r =
        if_ind {A = Attempt × R} (λ a. AttemptFresh s p a.0)
          (chain_id == 0 || has ◌==◌ chain_id s.chain_ids) _ _ (λ e. tt)
          (λ e. attempt_seed-AttemptFresh chain_id _ (or_false-inv _ _ e).1)

    attempt-AttemptFresh : (r : R) → AttemptFresh s p (attempt generate provider_of s p r).0
    unfolding attempt
    attempt-AttemptFresh r = attempt_chain-AttemptFresh _ _

  -- How a call ends: with nothing remembered, or with the material of fresh values.
  pub data IssueEnd (s : Issued) (sender_id : List ℕ) (p : RoundParameters)
      : Throws SenderMaterial × (Issued × R) → Type 0 where
    nothing_new : (e : Exception) (r : R) → IssueEnd s sender_id p (err e, (s, r))
    handed_out :
        (chain_id : ℕ) (seed key : List ℕ) (r : R)
        → Fresh provider_of s p chain_id seed key
        → IssueEnd s sender_id p (
          create_material (record {
            sender_id = sender_id;
            chain_id = chain_id;
            chain_seed = seed;
            commitment_key = key;
            round = p;
          }),
          (remember s chain_id seed key, r),
        )

  settle-IssueEnd :
      (s : Issued) (sender_id : List ℕ) (p : RoundParameters)
      (next : R → Throws SenderMaterial × (Issued × R))
      → ((r : R) → IssueEnd s sender_id p (next r))
      → (a : Attempt × R) → AttemptFresh s p a.0
      → IssueEnd s sender_id p (settle generate provider_of s sender_id p next a)
  unfolding settle AttemptFresh
  settle-IssueEnd s sender_id p next h (repeated, r) f = h r
  settle-IssueEnd s sender_id p next h (thrown e, r) f = nothing_new e r
  settle-IssueEnd s sender_id p next h (fresh chain_id seed key, r) f =
      handed_out chain_id seed key r f

  pub issue_loop-IssueEnd :
      (n : ℕ) (s : Issued) (sender_id : List ℕ) (p : RoundParameters) (r : R)
      → IssueEnd s sender_id p (issue_loop generate provider_of n s sender_id p r)
  unfolding issue_loop
  issue_loop-IssueEnd zero s sender_id p r = nothing_new runtime_error r
  issue_loop-IssueEnd (suc n) s sender_id p r =
      settle-IssueEnd s sender_id p _ (issue_loop-IssueEnd n s sender_id p) _
        (attempt-AttemptFresh s p r)

-- Whether two materials share none of what identifies a chain.
pub record Apart (m n : SenderMaterial) : Type 0 where
  chain_ids : m.chain_id ≢ n.chain_id
  seeds : m.chain_seed ≢ n.chain_seed
  keys : m.commitment_key ≢ n.commitment_key

-- Each of the materials is apart from those behind it.
pub AllApart : List SenderMaterial → Type 0
AllApart [] = Unit
AllApart (m ∷ ms) = All (Apart m) ms × AllApart ms

-- A material whose values the sets hold.
pub record Known (s : Issued) (m : SenderMaterial) : Type 0 where
  chain_id : has ◌==◌ m.chain_id s.chain_ids ≡ true
  seed : has same_text m.chain_seed s.seeds ≡ true
  key : has same_text m.commitment_key s.commitment_keys ≡ true

false-ne {ℓ} : {A : Type ℓ} (f : A → Bool) (x y : A) → f x ≡ false → f y ≡ true → x ≢ y
false-ne f x y e h same = absurd (cc (e, h, ap f same))

or_right : (a b : Bool) → b ≡ true → (a || b) ≡ true
or_right true b e = refl
or_right false b e = e

or_left : (a b : Bool) → a ≡ true → (a || b) ≡ true
or_left true b e = refl
or_left false b e = cc

has-cons {ℓ} :
    {A : Type ℓ} (same : A → A → Bool) (k x : A) (xs : List A)
    → has same k xs ≡ true
    → has same k (x ∷ xs) ≡ true
unfolding has
has-cons same k x xs e = or_right _ _ e

has-head {ℓ} :
    {A : Type ℓ} (same : A → A → Bool) (k : A) (xs : List A)
    → same k k ≡ true
    → has same k (k ∷ xs) ≡ true
unfolding has
has-head same k xs e = or_left _ _ e

Known-remember :
    (s : Issued) (chain_id : ℕ) (seed key : List ℕ) (m : SenderMaterial)
    → Known s m
    → Known (remember s chain_id seed key) m
unfolding remember
Known-remember s chain_id seed key m k = record {
  chain_id = has-cons _ _ _ _ k.chain_id;
  seed = has-cons _ _ _ _ k.seed;
  key = has-cons _ _ _ _ k.key;
}

pub create_material-eq : (m m' : SenderMaterial) → create_material m ≡ ok m' → m ≡ m'
unfolding create_material
create_material-eq m m' e = ground arith

Known-new :
    (s : Issued) (m : SenderMaterial)
    → Known (remember s m.chain_id m.chain_seed m.commitment_key) m
unfolding remember
Known-new s m = record {
  chain_id = has-head _ _ _ (==_refl m.chain_id);
  seed = has-head _ _ _ (same_text_refl m.chain_seed);
  key = has-head _ _ _ (same_text_refl m.commitment_key);
}

all-Known :
    (s : Issued) (chain_id : ℕ) (seed key : List ℕ) (ms : List SenderMaterial)
    → All (Known s) ms
    → All (Known (remember s chain_id seed key)) ms
all-Known s chain_id seed key [] a = tt
all-Known s chain_id seed key (m ∷ ms) (k, a) =
    (Known-remember s chain_id seed key m k, all-Known s chain_id seed key ms a)

Fresh-Apart :
    (provider_of : CryptoAlgorithm → CryptoProvider) (s : Issued) (p : RoundParameters)
    (m : SenderMaterial)
    → Fresh provider_of s p m.chain_id m.chain_seed m.commitment_key
    → (ms : List SenderMaterial) → All (Known s) ms
    → All (Apart m) ms
Fresh-Apart provider_of s p m f [] a = tt
Fresh-Apart provider_of s p m f (n ∷ ms) (k, a) = (
  record {
    chain_ids = false-ne (λ x. has ◌==◌ x s.chain_ids) _ _ f.chain_id_new k.chain_id;
    seeds = false-ne (λ x. has same_text x s.seeds) _ _ f.seed_new k.seed;
    keys = false-ne (λ x. has same_text x s.commitment_keys) _ _ f.key_new k.key;
  },
  Fresh-Apart provider_of s p m f ms a,
)

module _ {R : Type 0} (generate : R → ℕ → Throws (List ℕ) × R)
    (provider_of : CryptoAlgorithm → CryptoProvider) where
  -- The sets that calls lead to, whatever the random provider's state at each, and the materials
  -- handed out so far, the last one first.
  pub data Reach : Issued → List SenderMaterial → Type 0 where
    start : Reach none_issued []
    accepted :
        {s s' : Issued} {ms : List SenderMaterial} {m : SenderMaterial} (sender_id : List ℕ)
        (p : RoundParameters) (r r' : R)
        → issue generate provider_of s sender_id p r ≡ (ok m, (s', r'))
        → Reach s ms
        → Reach s' (m ∷ ms)
    refused :
        {s s' : Issued} {ms : List SenderMaterial} {e : Exception} (sender_id : List ℕ)
        (p : RoundParameters) (r r' : R)
        → issue generate provider_of s sender_id p r ≡ (err e, (s', r'))
        → Reach s ms
        → Reach s' ms

  pub Tracked : List SenderMaterial → Throws SenderMaterial × (Issued × R) → Type 0
  Tracked ms (ok m, (s, r)) = All (Known s) (m ∷ ms) × AllApart (m ∷ ms)
  Tracked ms (err e, (s, r)) = All (Known s) ms × AllApart ms

  Tracked-create :
      (s : Issued) (p : RoundParameters) (r : R) (ms : List SenderMaterial) (m : SenderMaterial)
      (t : Throws SenderMaterial)
      → create_material m ≡ t
      → Fresh provider_of s p m.chain_id m.chain_seed m.commitment_key
      → All (Known s) ms
      → AllApart ms
      → Tracked ms (t, (remember s m.chain_id m.chain_seed m.commitment_key, r))
  unfolding Tracked AllApart
  Tracked-create s p r ms m (err e) made f k a = (all-Known s _ _ _ ms k, a)
  Tracked-create s p r ms m (ok m') made f k a =
      let same = create_material-eq m m' made in
      subst
        (λ x.
          All (Known (remember s m.chain_id m.chain_seed m.commitment_key)) (x ∷ ms)
          × AllApart (x ∷ ms))
        same ((Known-new s m, all-Known s _ _ _ ms k), (Fresh-Apart provider_of s p m f ms k, a))

  issue-Tracked :
      (s : Issued) (sender_id : List ℕ) (p : RoundParameters) (ms : List SenderMaterial)
      (x : Throws SenderMaterial × (Issued × R))
      → IssueEnd generate provider_of s sender_id p x
      → All (Known s) ms
      → AllApart ms
      → Tracked ms x
  unfolding Tracked
  issue-Tracked s sender_id p ms _ (nothing_new e r) k a = (k, a)
  issue-Tracked s sender_id p ms _ (handed_out chain_id seed key r f) k a =
      Tracked-create s p r ms _ _ refl f k a

  Reach-Tracked :
      {s : Issued} {ms : List SenderMaterial} → Reach s ms → All (Known s) ms × AllApart ms
  unfolding issue Tracked AllApart
  Reach-Tracked start = (tt, tt)
  Reach-Tracked {ms = m ∷ ms} (accepted {s = s} sender_id p r r' e t) =
      let (k, a) = Reach-Tracked t in
      subst (Tracked ms) e (
        issue-Tracked s sender_id p ms _
          (issue_loop-IssueEnd generate provider_of max_random_attempts s sender_id p r) k a)
  Reach-Tracked {ms = ms} (refused {s = s} sender_id p r r' e t) =
      let (k, a) = Reach-Tracked t in
      subst (Tracked ms) e (
        issue-Tracked s sender_id p ms _
          (issue_loop-IssueEnd generate provider_of max_random_attempts s sender_id p r) k a)

  -- Of the materials that any sequence of calls of an authority hands out, with whatever a random provider gives and with refused calls between, no two share a chain identifier, a seed or a commitment.
  pub Reach-AllApart : {s : Issued} {ms : List SenderMaterial} → Reach s ms → AllApart ms
  Reach-AllApart t = (Reach-Tracked t).1
