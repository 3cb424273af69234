-- ===== src/Round/Store.antt =====
-- ReceiverAuthenticationContextStore: three maps, which are filled aside and swapped in when the
-- whole list is without conflict.
use mathlib.Core.Option.{none}
use authentication_transmiss.Tesla.Input.{same_text}
use authentication_transmiss.Round.Context.{ReceiverContext}
use authentication_transmiss.Prelude.{
  invalid_argument, ◌==◌, not, fail_if, some, ◌&&◌, ◌>>=◌, ◌>>◌, find, false, ◌∷◌, true, err, Bool,
  ok, Result, emplace, Option, List, length, [], Throws, ℕ,
}

pub record ContextStore : Type 0 where
  pub sender_by_ip : List (List ℕ × List ℕ)
  pub ip_by_sender : List (List ℕ × List ℕ)
  pub context_by_sender_chain : List ((List ℕ × ℕ) × ReceiverContext)

pub data LookupError : Type 0 where
  unknown_source_ip unknown_chain_id : LookupError

-- Equality of `SenderChainKey`s.
unfoldable pub same_key : List ℕ × ℕ → List ℕ × ℕ → Bool
same_key (sender, chain) (sender', chain') = same_text sender sender' && chain == chain'

abbrev pub empty_store : ContextStore
empty_store = record { sender_by_ip = []; ip_by_sender = []; context_by_sender_chain = [] }

-- `!bInserted && itr->second != value`.
unfoldable pub conflicts : Option (List ℕ) → List ℕ → Bool
conflicts none value = false
conflicts (some old) value = not (same_text old value)

unfoldable pub is_inserted {ℓ} : {A : Type ℓ} → Option A → Bool
is_inserted none = true
is_inserted (some old) = false

-- One round of the loop of `replaceAll`.
unfoldable pub add_context : ContextStore → ReceiverContext → Throws ContextStore
add_context s c = do
  let (old_sender, sender_by_ip) = emplace same_text c.sender_ip_address c.sender_id s.sender_by_ip
  fail_if (conflicts old_sender c.sender_id) invalid_argument
  let (old_ip, ip_by_sender) = emplace same_text c.sender_id c.sender_ip_address s.ip_by_sender
  fail_if (conflicts old_ip c.sender_ip_address) invalid_argument
  let (old_context, contexts) =
      emplace same_key (c.sender_id, c.chain_id) c s.context_by_sender_chain
  fail_if (not (is_inserted old_context)) invalid_argument
  ok (record {
    sender_by_ip = sender_by_ip;
    ip_by_sender = ip_by_sender;
    context_by_sender_chain = contexts;
  })

unfoldable pub add_contexts : ContextStore → List ReceiverContext → Throws ContextStore
add_contexts s [] = ok s
add_contexts s (c ∷ cs) = do s' ← add_context s c; add_contexts s' cs

-- The store after the call, with what the call returns.
unfoldable pub replace_all : ContextStore → List ReceiverContext → Throws (Unit {0}) × ContextStore
replace_all s contexts = elim (add_contexts empty_store contexts) [
  | err e ↦ (err e, s)
  | ok s' ↦ (ok tt, s')
]

unfoldable pub find_context : ContextStore → List ℕ → ℕ → Result LookupError ReceiverContext
find_context s source_ip chain_id = elim (find same_text source_ip s.sender_by_ip) [
  | none ↦ err unknown_source_ip
  | some sender ↦ elim (find same_key (sender, chain_id) s.context_by_sender_chain) [
    | none ↦ err unknown_chain_id
    | some c ↦ ok c
  ]
]

unfoldable pub size : ContextStore → ℕ
size s = length s.context_by_sender_chain
