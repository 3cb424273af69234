-- ===== src/Metrics/Counting.antt =====
-- What an accumulator has counted, and that the calculator says the same of the counts.
use mathlib.Core.Bool.{false, true}
use authentication_transmiss.Prelude.{
  ◌∙◌, ◌>>=◌, err, fail_if-eq-ok, ok-injective, ap, Throws, refl, subst, sym, if◌then◌else◌, arith,
  Bool, ◌+◌, ok, ◌^◌, ◌%◌, ◌*◌, ◌≡◌,
}
use authentication_transmiss.Metrics.Cost.{
  details_of, sum_create, sum_improved, sum_native, CostSummary, multiply_field_count, CostHeader,
  add_tags, add_disclosed_key, add_improved, add_u64, add_native, empty_accumulator, Accumulator,
}
use authentication_transmiss.Udp.Context.{improved, native, AuthenticationMode}
use Prim.Native.Nat.{ℕ}

-- The numbers of packets, keys, tags and fast group tags.
pub record Counts : Type 0 where
  pub packets : ℕ
  pub keys : ℕ
  pub taus : ℕ
  pub fasts : ℕ

-- The accumulators that calls which return lead to from the empty one, with what has been added.
pub data Reach (mode : AuthenticationMode) : Accumulator → Counts → Type 0 where
  start :
      Reach mode (empty_accumulator mode) (record { packets = 0; keys = 0; taus = 0; fasts = 0 })
  native_packet :
      {a a' : Accumulator} {n : Counts}
      → add_native a.mode a ≡ ok a'
      → Reach mode a n
      → Reach mode a' (record n { packets = n.packets + 1 })
  improved_packet :
      {a a' : Accumulator} {n : Counts} (tau_count : ℕ) (fast : Bool)
      → add_improved a.mode tau_count fast a ≡ (a', ok tt)
      → Reach mode a n
      → Reach mode a' (record n {
        packets = n.packets + 1;
        taus = n.taus + tau_count;
        fasts = if fast then n.fasts + 1 else n.fasts;
      })
  disclosed_key :
      {a : Accumulator} {n : Counts}
      → Reach mode a n
      → Reach mode (add_disclosed_key a) (record n { keys = n.keys + 1 })

-- Each sum is that of 32 bytes for each thing counted, in 64 bits.
record Counted (mode : AuthenticationMode) (a : Accumulator) (n : Counts) : Type 0 where
  same_mode : a.mode ≡ mode
  message : a.message_bytes ≡ n.packets * 32 % 2 ^ 64
  key : a.key_bytes ≡ n.keys * 32 % 2 ^ 64
  mac : mode ≡ native → a.mac_bytes ≡ n.packets * 32 % 2 ^ 64
  tau : a.tau_bytes ≡ n.taus * 32 % 2 ^ 64
  fast : a.fast_group_tag_bytes ≡ n.fasts * 32 % 2 ^ 64

one_more : (x c : ℕ) → x ≡ c * 32 % 2 ^ 64 → add_u64 x 32 ≡ (c + 1) * 32 % 2 ^ 64
one_more x c e = omega arith

more : (x c t : ℕ) → x ≡ c * 32 % 2 ^ 64 → add_u64 x (t * 32) ≡ (c + t) * 32 % 2 ^ 64
more x c t e = omega arith

add_native_inv :
    (m : AuthenticationMode) (a a' : Accumulator)
    → add_native m a ≡ ok a'
    → (m ≡ native)
      × (a' ≡ record a {
        message_bytes = add_u64 a.message_bytes 32;
        mac_bytes = add_u64 a.mac_bytes 32;
      })
unfolding add_native
add_native_inv native a a' e = (refl, ok-injective (add_native native a) e refl)
add_native_inv improved a a' e = absurd (cc e)

multiply_inv : (n x : ℕ) → multiply_field_count n ≡ ok x → x ≡ n * 32
unfolding multiply_field_count
multiply_inv n x e = ok-injective (ok (n * 32)) (fail_if-eq-ok _ _ _ e).1 refl

fast_more :
    (b : Bool) (x c : ℕ)
    → x ≡ c * 32 % 2 ^ 64
    → (if b then add_u64 x 32 else x) ≡ (if b then c + 1 else c) * 32 % 2 ^ 64
fast_more true x c e = one_more x c e
fast_more false x c e = e

-- The accumulator with the tags of a packet added.
tagged : ℕ → Bool → Accumulator → Accumulator
tagged t fast a = record a {
  tau_bytes = add_u64 a.tau_bytes (t * 32);
  fast_group_tag_bytes = if fast then add_u64 a.fast_group_tag_bytes 32 else a.fast_group_tag_bytes;
}

add_tags_inv :
    (t : ℕ) (r : Throws ℕ) (fast : Bool) (a a' : Accumulator)
    → multiply_field_count t ≡ r
    → add_tags r fast a ≡ (a', ok tt)
    → a' ≡ tagged t fast a
unfolding add_tags tagged
add_tags_inv t (err x) fast a a' f e = absurd (cc (ap (λ y. y.1) e))
add_tags_inv t (ok x) fast a a' f e = rw (← multiply_inv t x f) (sym (ap (λ y. y.0) e))

add_improved_inv :
    (m : AuthenticationMode) (t : ℕ) (fast : Bool) (a a' : Accumulator)
    → add_improved m t fast a ≡ (a', ok tt)
    → (m ≡ improved)
      × (a' ≡ tagged t fast (record a { message_bytes = add_u64 a.message_bytes 32 }))
unfolding add_improved
add_improved_inv native t fast a a' e = absurd (cc (ap (λ x. x.1) e))
add_improved_inv improved t fast a a' e = (refl, add_tags_inv t _ fast _ a' refl e)

module _ (mode : AuthenticationMode) where
  native-Counted :
      (a a' : Accumulator) (n : Counts)
      → add_native a.mode a ≡ ok a'
      → Counted mode a n
      → Counted mode a' (record n { packets = n.packets + 1 })
  native-Counted a a' n e c =
      let (m, same) = add_native_inv a.mode a a' e in
      subst (λ x. Counted mode x (record n { packets = n.packets + 1 })) (sym same)
        (record {
          same_mode = c.same_mode;
          message = one_more _ n.packets c.message;
          key = c.key;
          mac = λ i. one_more _ n.packets (c.mac i);
          tau = c.tau;
          fast = c.fast;
        })

  improved-Counted :
      (a a' : Accumulator) (n : Counts) (t : ℕ) (fast : Bool)
      → add_improved a.mode t fast a ≡ (a', ok tt)
      → Counted mode a n
      → Counted mode a' (record n {
        packets = n.packets + 1;
        taus = n.taus + t;
        fasts = if fast then n.fasts + 1 else n.fasts;
      })
  unfolding tagged
  improved-Counted a a' n t fast e c =
      let (m, same) = add_improved_inv a.mode t fast a a' e in
      subst
        (λ x. Counted mode x (record n {
          packets = n.packets + 1;
          taus = n.taus + t;
          fasts = if fast then n.fasts + 1 else n.fasts;
        }))
        (sym same)
        (record {
          same_mode = c.same_mode;
          message = one_more _ n.packets c.message;
          key = c.key;
          mac = λ i. absurd (cc (i, m, c.same_mode));
          tau = more _ n.taus t c.tau;
          fast = fast_more fast _ n.fasts c.fast;
        })

  Reach-Counted : (a : Accumulator) (n : Counts) → Reach mode a n → Counted mode a n
  unfolding add_disclosed_key
  Reach-Counted _ _ start = record {
    same_mode = refl;
    message = refl;
    key = refl;
    mac = λ i. refl;
    tau = refl;
    fast = refl;
  }
  Reach-Counted _ _ (native_packet {a} {a'} {n} e r) = native-Counted a a' n e (Reach-Counted a n r)
  Reach-Counted _ _ (improved_packet {a} {a'} {n} t fast e r) =
      improved-Counted a a' n t fast e (Reach-Counted a n r)
  Reach-Counted _ _ (disclosed_key {a} {n} r) =
      let c = Reach-Counted a n r in
      record {
        same_mode = c.same_mode;
        message = c.message;
        key = one_more _ n.keys c.key;
        mac = c.mac;
        tau = c.tau;
        fast = c.fast;
      }

-- What the calculator says of the counts.
unfoldable pub sum_of : AuthenticationMode → CostHeader → Counts → Throws CostSummary
sum_of native h n = sum_native h n.packets n.keys
sum_of improved h n = sum_improved h n.packets n.keys n.taus n.fasts

fits : (n x y : ℕ) → multiply_field_count n ≡ ok x → y ≡ n * 32 % 2 ^ 64 → y ≡ x
unfolding multiply_field_count
fits n x y e f = ground arith

bind_ok {ℓ κ} :
    {A : Type ℓ} {B : Type κ} (t : Throws A) (f : A → Throws B) (b : B)
    → (t >>= f) ≡ ok b
    → (x : A) × (t ≡ ok x) × (f x ≡ ok b)
bind_ok (ok x) f b e = (x, refl, e)
bind_ok (err x) f b e = absurd (cc e)

module _ (mode : AuthenticationMode) (a : Accumulator) (n : Counts) (h : CostHeader)
    (x : CostSummary) where
  sum_create-native :
      Counted mode a n
      → mode ≡ native
      → sum_native h n.packets n.keys ≡ ok x
      → sum_create a h ≡ ok x
  unfolding sum_create details_of sum_native
  sum_create-native c i e =
      let (message, e1, r1) = bind_ok _ _ x e in
      let (key, e2, r2) = bind_ok _ _ x r1 in
      let (mac, e3, r3) = bind_ok _ _ x r2 in
      rw
        (
          c.same_mode ∙ i,
          fits n.packets message _ e1 c.message,
          fits n.keys key _ e2 c.key,
          fits n.packets mac _ e3 (c.mac i),
        )
        r3

  sum_create-improved :
      Counted mode a n
      → mode ≡ improved
      → sum_improved h n.packets n.keys n.taus n.fasts ≡ ok x
      → sum_create a h ≡ ok x
  unfolding sum_create details_of sum_improved
  sum_create-improved c i e =
      let (message, e1, r1) = bind_ok _ _ x e in
      let (key, e2, r2) = bind_ok _ _ x r1 in
      let (tau, e3, r3) = bind_ok _ _ x r2 in
      let (fast, e4, r4) = bind_ok _ _ x r3 in
      rw
        (
          c.same_mode ∙ i,
          fits n.packets message _ e1 c.message,
          fits n.keys key _ e2 c.key,
          fits n.taus tau _ e3 c.tau,
          fits n.fasts fast _ e4 c.fast,
        )
        r4

-- Where the calculator gives a summary of the counts of packets, keys, tags and fast group tags, an accumulator to which calls that return have added just these gives the same summary.
pub sum_create-sum_of :
    (mode : AuthenticationMode) (a : Accumulator) (n : Counts) (h : CostHeader) (x : CostSummary)
    → Reach mode a n
    → sum_of mode h n ≡ ok x
    → sum_create a h ≡ ok x
unfolding sum_of
sum_create-sum_of native a n h x r e =
    sum_create-native native a n h x (Reach-Counted native a n r) refl e
sum_create-sum_of improved a n h x r e =
    sum_create-improved improved a n h x (Reach-Counted improved a n r) refl e
