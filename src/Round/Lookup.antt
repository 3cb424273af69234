-- ===== src/Round/Lookup.antt =====
-- The contract of the context store: after a list of contexts went in, a lookup is one in that list.
use authentication_transmiss.Tesla.Input.{same_text}
use authentication_transmiss.Round.Context.{ReceiverContext}
use authentication_transmiss.Round.Store.{
  unknown_chain_id, unknown_source_ip, same_key, find_context, empty_store, add_contexts,
  replace_all, ContextStore,
}
use mathlib.Core.List.{Memᴰ}
use authentication_transmiss.Round.Bijection.{
  empty-Represents, add_contexts-Represents, queue→Mem, Mem→queue, queue, Represents,
}
use authentication_transmiss.Prelude.{
  Option-cases, some-injective, ◌∙◌, some, ap, subst, sym, find, Result-cases, [], ◌↔◌, inr, inl,
  ◌⊎◌, err, ok, ◌≡◌, Exception, List, ℕ,
}

replace_all-cases :
    (s : ContextStore) (cs : List ReceiverContext)
    → ((s' : ContextStore) × (add_contexts empty_store cs ≡ ok s')
        × (replace_all s cs ≡ (ok tt, s')))
      ⊎ ((e : Exception) × (replace_all s cs ≡ (err e, s)))
unfolding replace_all
replace_all-cases s cs = elim (Result-cases (add_contexts empty_store cs)) [
  | inl (s', e) ↦ inl (s', e, rw (replace_all, e))
  | inr (f, e) ↦ inr (f, rw (replace_all, e))
]

-- A list of contexts that is refused leaves the store as it was.
pub replace_all_refused :
    (s s' : ContextStore) (cs : List ReceiverContext) (e : Exception)
    → replace_all s cs ≡ (err e, s')
    → s' ≡ s
replace_all_refused s s' cs e r = elim (replace_all-cases s cs) [
  | inl (t, a, same) ↦ absurd (cc (r, same))
  | inr (f, same) ↦ sym (ap (λ x. x.1) r) ∙ ap (λ x. x.1) same
]

module _ (s s' : ContextStore) (cs : List ReceiverContext)
    (replaced : replace_all s cs ≡ (ok tt, s')) where
  represented : Represents s' (queue cs [])
  represented = elim (replace_all-cases s cs) [
    | inl (t, a, same) ↦
        subst (λ x. Represents x (queue cs [])) (sym (ap (λ x. x.1) same) ∙ ap (λ x. x.1) replaced)
          (add_contexts-Represents cs empty_store [] t a empty-Represents)
    | inr (f, same) ↦ absurd (cc (replaced, same))
  ]

  listed : (c : ReceiverContext) → Memᴰ c (queue cs []) → Memᴰ c cs
  listed c m = elim (queue→Mem cs [] c m) [ inl k ↦ k | inr k ↦ elim k [ ] ]

  found_inv :
      (ip : List ℕ) (chain_id : ℕ) (c : ReceiverContext)
      → find_context s' ip chain_id ≡ ok c
      → (sender : List ℕ) × (find same_text ip s'.sender_by_ip ≡ some sender)
        × (find same_key (sender, chain_id) s'.context_by_sender_chain ≡ some c)
  unfolding find_context
  found_inv ip chain_id c e = elim (Option-cases (find same_text ip s'.sender_by_ip)) [
    | inl n ↦
        let r : find_context s' ip chain_id ≡ err unknown_source_ip = rw (find_context, n) in
        absurd (cc (e, r))
    | inr (sender, f) ↦
        elim (Option-cases (find same_key (sender, chain_id) s'.context_by_sender_chain)) [
          | inl n ↦
              let r : find_context s' ip chain_id ≡ err unknown_chain_id =
                rw (find_context, f, n) in
              absurd (cc (e, r))
          | inr (c', g) ↦
              let r : find_context s' ip chain_id ≡ ok c' = rw (find_context, f, g) in
              let same : c' ≡ c = cc (e, r) in (sender, f, g ∙ ap some same)
        ]
  ]

  found→listed :
      (ip : List ℕ) (chain_id : ℕ) (c : ReceiverContext)
      → find_context s' ip chain_id ≡ ok c
      → Memᴰ c cs × (c.sender_ip_address ≡ ip) × (c.chain_id ≡ chain_id)
  found→listed ip chain_id c e =
      let (sender, f, g) = found_inv ip chain_id c e in
      let (c', m', ip', sender') = represented.ip_sound ip sender f in
      let (m, k) = represented.context_sound (sender, chain_id) c g in
      let a : find same_text c'.sender_id s'.ip_by_sender ≡ some c'.sender_ip_address =
        represented.sender_complete c' m' in
      let b : find same_text c.sender_id s'.ip_by_sender ≡ some c.sender_ip_address =
        represented.sender_complete c m in
      let same : c'.sender_id ≡ c.sender_id = sender' ∙ ap (λ x. x.0) k in
      let ips : c.sender_ip_address ≡ c'.sender_ip_address =
        some-injective (sym b ∙ ap (λ x. find same_text x s'.ip_by_sender) (sym same) ∙ a) in
      (listed c m, ips ∙ ip', sym (ap (λ x. x.1) k))

  listed→found :
      (c : ReceiverContext) → Memᴰ c cs → find_context s' c.sender_ip_address c.chain_id ≡ ok c
  unfolding find_context
  listed→found c m =
      let k = Mem→queue cs [] c (inl m) in
      let a = represented.ip_complete c k in
      let b = represented.context_complete c k in rw (find_context, a, b)

  -- After a list of contexts has replaced all others, a lookup by source address and chain finds a context exactly where the list has it, with that address and that chain; no context is found under the address of another sender.
  pub find-replace_all :
      (ip : List ℕ) (chain_id : ℕ) (c : ReceiverContext)
      → (find_context s' ip chain_id ≡ ok c)
        ↔ (Memᴰ c cs × (c.sender_ip_address ≡ ip) × (c.chain_id ≡ chain_id))
  find-replace_all ip chain_id c = (
    found→listed ip chain_id c,
    λ (m, e, e').
        subst (λ x. find_context s' x chain_id ≡ ok c) e
          (subst (λ x. find_context s' c.sender_ip_address x ≡ ok c) e' (listed→found c m)),
  )
