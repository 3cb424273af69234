-- ===== src/Round/Bijection.antt =====
-- What the three maps of the context store hold after `replaceAll`, and what a lookup then finds.
use mathlib.Core.List.Memᴰ.{head, tail}
use mathlib.Core.List.{Memᴰ}
use authentication_transmiss.Round.Context.{ReceiverContext}
use authentication_transmiss.Tesla.Input.{same_text_refl, same_text→eq, same_text}
use authentication_transmiss.Round.Store.{
  add_contexts, empty_store, is_inserted, ContextStore, same_key, conflicts, add_context,
}
use authentication_transmiss.Prelude.{
  emplace_grows, emplace_fits, ◌∙◌, >>=-eq-ok, sym, [], emplace_sound, subst, ◌∷◌, ap, ◌⊎◌, refl,
  inr, ==_refl, arith, none, inl, ==_iff, true, ok, false, some, Option-cases, find, emplace, ◌==◌,
  ◌≡◌, and_inv, Option, List, DecidesEquality, Bool, ℕ,
}

text-DecidesEquality : DecidesEquality same_text
text-DecidesEquality = record { sound = same_text→eq; complete = same_text_refl }

key-DecidesEquality : DecidesEquality same_key
unfolding same_key
key-DecidesEquality = record {
  sound = λ k k' e.
      let (s, c) = and_inv (same_text k.0 k'.0) (k.1 == k'.1) e in
      λ i. (same_text→eq k.0 k'.0 s i, (==_iff k.1 k'.1).0 c i);
  complete = λ k. rw (same_text_refl k.0, ==_refl k.1);
}

-- The maps say of the contexts what they are.
pub record Represents (s : ContextStore) (done : List ReceiverContext) : Type 0 where
  pub ip_sound :
      (ip sender : List ℕ)
      → find same_text ip s.sender_by_ip ≡ some sender
      → (c : ReceiverContext) × Memᴰ c done × (c.sender_ip_address ≡ ip) × (c.sender_id ≡ sender)
  pub ip_complete :
      (c : ReceiverContext)
      → Memᴰ c done
      → find same_text c.sender_ip_address s.sender_by_ip ≡ some c.sender_id
  pub sender_complete :
      (c : ReceiverContext)
      → Memᴰ c done
      → find same_text c.sender_id s.ip_by_sender ≡ some c.sender_ip_address
  pub context_sound :
      (k : List ℕ × ℕ) (c : ReceiverContext)
      → find same_key k s.context_by_sender_chain ≡ some c
      → Memᴰ c done × (k ≡ (c.sender_id, c.chain_id))
  pub context_complete :
      (c : ReceiverContext)
      → Memᴰ c done
      → find same_key (c.sender_id, c.chain_id) s.context_by_sender_chain ≡ some c

fits : (o : Option (List ℕ)) (v : List ℕ) → conflicts o v ≡ false → (o ≡ none) ⊎ (o ≡ some v)
unfolding conflicts
fits none v e = inl refl
fits (some old) v e = inr (ap some (same_text→eq old v (ground arith)))

new_key : (o : Option ReceiverContext) → is_inserted o ≡ true → o ≡ none
unfolding is_inserted
new_key none e = refl
new_key (some old) e = cc

emplace_first {ℓ κ} :
    {K : Type ℓ} {V : Type κ} (same : K → K → Bool) (k : K) (v : V) (m : List (K × V))
    → (emplace same k v m).0 ≡ find same k m
emplace_first same k v m = elim (Option-cases (find same k m)) [
  | inl e ↦ rw (emplace, e)
  | inr (old, e) ↦ rw (emplace, e)
]

add_context_inv :
    (s : ContextStore) (c : ReceiverContext) (s' : ContextStore)
    → add_context s c ≡ ok s'
    → (s' ≡ record {
      sender_by_ip = (emplace same_text c.sender_ip_address c.sender_id s.sender_by_ip).1;
      ip_by_sender = (emplace same_text c.sender_id c.sender_ip_address s.ip_by_sender).1;
      context_by_sender_chain =
          (emplace same_key (c.sender_id, c.chain_id) c s.context_by_sender_chain).1;
    })
      × (conflicts (emplace same_text c.sender_ip_address c.sender_id s.sender_by_ip).0 c.sender_id
          ≡ false)
      × (conflicts
            (emplace same_text c.sender_id c.sender_ip_address s.ip_by_sender).0
            c.sender_ip_address
          ≡ false)
      × (is_inserted (emplace same_key (c.sender_id, c.chain_id) c s.context_by_sender_chain).0
          ≡ true)
unfolding add_context
add_context_inv s c s' e = ground arith

-- A context that is added joins what the maps represent.
module _ (s : ContextStore) (done : List ReceiverContext) (rep : Represents s done)
    (c : ReceiverContext) where
  added : ContextStore
  added = record {
    sender_by_ip = (emplace same_text c.sender_ip_address c.sender_id s.sender_by_ip).1;
    ip_by_sender = (emplace same_text c.sender_id c.sender_ip_address s.ip_by_sender).1;
    context_by_sender_chain =
        (emplace same_key (c.sender_id, c.chain_id) c s.context_by_sender_chain).1;
  }

  module _
      (ip_free : (find same_text c.sender_ip_address s.sender_by_ip ≡ none)
        ⊎ (find same_text c.sender_ip_address s.sender_by_ip ≡ some c.sender_id))
      (sender_free : (find same_text c.sender_id s.ip_by_sender ≡ none)
        ⊎ (find same_text c.sender_id s.ip_by_sender ≡ some c.sender_ip_address))
      (key_free : find same_key (c.sender_id, c.chain_id) s.context_by_sender_chain ≡ none) where
    added_ip :
        (c' : ReceiverContext)
        → Memᴰ c' (c ∷ done)
        → find same_text c'.sender_ip_address added.sender_by_ip ≡ some c'.sender_id
    unfolding added
    added_ip c' (head e) =
        subst (λ x. find same_text x.sender_ip_address added.sender_by_ip ≡ some x.sender_id)
          (sym e)
          (emplace_fits same_text text-DecidesEquality c.sender_ip_address c.sender_id
            s.sender_by_ip ip_free)
    added_ip c' (tail m) =
        emplace_grows same_text text-DecidesEquality c.sender_ip_address c.sender_id s.sender_by_ip
          c'.sender_ip_address c'.sender_id (rep.ip_complete c' m)

    added_sender :
        (c' : ReceiverContext)
        → Memᴰ c' (c ∷ done)
        → find same_text c'.sender_id added.ip_by_sender ≡ some c'.sender_ip_address
    unfolding added
    added_sender c' (head e) =
        subst (λ x. find same_text x.sender_id added.ip_by_sender ≡ some x.sender_ip_address)
          (sym e)
          (emplace_fits same_text text-DecidesEquality c.sender_id c.sender_ip_address
            s.ip_by_sender sender_free)
    added_sender c' (tail m) =
        emplace_grows same_text text-DecidesEquality c.sender_id c.sender_ip_address s.ip_by_sender
          c'.sender_id c'.sender_ip_address (rep.sender_complete c' m)

    added_context :
        (c' : ReceiverContext)
        → Memᴰ c' (c ∷ done)
        → find same_key (c'.sender_id, c'.chain_id) added.context_by_sender_chain ≡ some c'
    unfolding added
    added_context c' (head e) =
        subst (λ x. find same_key (x.sender_id, x.chain_id) added.context_by_sender_chain ≡ some x)
          (sym e)
          (emplace_fits same_key key-DecidesEquality (c.sender_id, c.chain_id) c
            s.context_by_sender_chain (inl key_free))
    added_context c' (tail m) =
        emplace_grows same_key key-DecidesEquality (c.sender_id, c.chain_id) c
          s.context_by_sender_chain (c'.sender_id, c'.chain_id) c' (rep.context_complete c' m)

    added-Represents : Represents added (c ∷ done)
    unfolding added
    added-Represents = record {
      ip_sound = λ ip sender f.
          elim (emplace_sound same_text text-DecidesEquality c.sender_ip_address c.sender_id
            s.sender_by_ip ip sender f) [
              | inl old ↦ let (c', m, e, e') = rep.ip_sound ip sender old in (c', tail m, e, e')
              | inr (e, e') ↦ (c, head refl, sym e, e')
            ];
      ip_complete = added_ip;
      sender_complete = added_sender;
      context_sound = λ k c' f.
          elim (emplace_sound same_key key-DecidesEquality (c.sender_id, c.chain_id) c
            s.context_by_sender_chain k c' f) [
              | inl old ↦ let (m, e) = rep.context_sound k c' old in (tail m, e)
              | inr (e, e') ↦ (head (sym e'), e ∙ ap (λ x. (x.sender_id, x.chain_id)) e')
            ];
      context_complete = added_context;
    }

add_context-Represents :
    (s : ContextStore) (done : List ReceiverContext) (c : ReceiverContext) (s' : ContextStore)
    → add_context s c ≡ ok s'
    → Represents s done
    → Represents s' (c ∷ done)
add_context-Represents s done c s' e rep =
    let (same, ip_ok, sender_ok, new) = add_context_inv s c s' e in
    let ip = emplace_first same_text c.sender_ip_address c.sender_id s.sender_by_ip in
    let sender = emplace_first same_text c.sender_id c.sender_ip_address s.ip_by_sender in
    let key = emplace_first same_key (c.sender_id, c.chain_id) c s.context_by_sender_chain in
    subst (λ x. Represents x (c ∷ done)) (sym same)
      (unfold added in
        added-Represents s done rep c
          (fits _ c.sender_id (subst (λ o. conflicts o c.sender_id ≡ false) ip ip_ok))
          (fits _ c.sender_ip_address
            (subst (λ o. conflicts o c.sender_ip_address ≡ false) sender sender_ok))
          (new_key _ (subst (λ o. is_inserted o ≡ true) key new)))

-- The contexts of a list, from the last to the first, before those already there.
pub queue : List ReceiverContext → List ReceiverContext → List ReceiverContext
queue [] done = done
queue (c ∷ cs) done = queue cs (c ∷ done)

pub add_contexts-Represents :
    (cs : List ReceiverContext) (s : ContextStore) (done : List ReceiverContext) (s' : ContextStore)
    → add_contexts s cs ≡ ok s'
    → Represents s done
    → Represents s' (queue cs done)
unfolding add_contexts queue
add_contexts-Represents [] s done s' e rep = subst (λ x. Represents x done) (ground arith) rep
add_contexts-Represents (c ∷ cs) s done s' e rep =
    let (t, first, rest) = >>=-eq-ok (add_context s c) (λ t. add_contexts t cs) e in
    add_contexts-Represents cs t (c ∷ done) s' rest (add_context-Represents s done c t first rep)

pub queue→Mem :
    (cs done : List ReceiverContext) (c : ReceiverContext)
    → Memᴰ c (queue cs done)
    → Memᴰ c cs ⊎ Memᴰ c done
unfolding queue
queue→Mem [] done c m = inr m
queue→Mem (x ∷ xs) done c m = elim (queue→Mem xs (x ∷ done) c m) [
  | inl k ↦ inl (tail k)
  | inr (head e) ↦ inl (head e)
  | inr (tail k) ↦ inr k
]

pub Mem→queue :
    (cs done : List ReceiverContext) (c : ReceiverContext)
    → Memᴰ c cs ⊎ Memᴰ c done
    → Memᴰ c (queue cs done)
unfolding queue
Mem→queue [] done c (inl m) = elim m [ ]
Mem→queue [] done c (inr m) = m
Mem→queue (x ∷ xs) done c (inl (head e)) = Mem→queue xs (x ∷ done) c (inr (head e))
Mem→queue (x ∷ xs) done c (inl (tail m)) = Mem→queue xs (x ∷ done) c (inl m)
Mem→queue (x ∷ xs) done c (inr m) = Mem→queue xs (x ∷ done) c (inr (tail m))

pub empty-Represents : Represents empty_store []
empty-Represents = record {
  ip_sound = λ ip sender f. absurd (cc f);
  ip_complete = λ c m. elim m [ ];
  sender_complete = λ c m. elim m [ ];
  context_sound = λ k c f. absurd (cc f);
  context_complete = λ c m. elim m [ ];
}
