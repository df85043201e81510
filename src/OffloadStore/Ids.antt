-- ===== src/OffloadStore/Ids.antt =====
-- The intent ids that `_next_intent_id` of turbobus/offload/store.py counts.
pub mod Runs
use Prim.Native.Char.{code}
use text.Mathlib.TextLemmas.{cons-append, append_cancel_left}
use pcie_pool.Common.{
  ℕ, suc, ◌+◌, ◌≤◌, ◌<◌, List, [], ◌∷◌, Option, none, some, Bool, true, false, ◌≡◌, ◌≢◌, refl, sym,
  ap, ◌∙◌, inl, inr, String, str_eq, str_eq_iff, any_by, map, arith, Result, ok, err, Result-cases,
  Bool-cases, ◌>>◌,
}
use pcie_pool.Common.Text.{◌^^◌, show_ℕ, show_ℕ-injective}
use pcie_pool.OffloadStore.{
  Operation, prefetch, evict, TransferRange, TransferIntent, TransferContext, Handle, Block,
  OffloadStore, RuntimeSession, Run,
}
use pcie_pool.OffloadStore.Transfers.{
  operation_name, intent_for, checked_intent, submit_transfer, require_runtime_session_open,
}
use pcie_pool.OffloadStore.Submitted.{checked_intent-same}

abbrev pub id_of : TransferContext → Operation → ℕ → String
id_of c operation n = c.intent_prefix ^^ "-" ^^ operation_name operation ^^ "-" ^^ show_ℕ n

-- The ids of the intents carry falling numbers below a bound.
abbrev pub IsNumbered : TransferContext → ℕ → List TransferIntent → Type 0
IsNumbered c bound [] = Unit
IsNumbered c bound (i ∷ intents) =
    (operation : Operation) × (n : ℕ) × (i.intent_id ≡ id_of c operation n)
    × (n < bound)
    × IsNumbered c n intents

abbrev pub intent_ids : List TransferIntent → List String
intent_ids intents = map (λ (i : TransferIntent). i.intent_id) intents

abbrev pub IsDistinct : List String → Type 0
IsDistinct [] = Unit
IsDistinct (id ∷ ids) = (any_by (λ other. str_eq other id) ids ≡ false) × IsDistinct ids

after_prefix : (c : TransferContext) (o : Operation) (m n : ℕ) → id_of c o m ≡ id_of c o n → m ≡ n
after_prefix c o m n e = show_ℕ-injective m n (
    append_cancel_left "-" _ _ (
      append_cancel_left (operation_name o) _ _
        (append_cancel_left "-" _ _ (append_cancel_left c.intent_prefix _ _ e))))

first_code : String → ℕ
first_code String.[] = 0
first_code (String.◌∷◌ letter rest) = code letter

-- The two operations are told apart by their first letter.
not_alike : (x y : String) → operation_name prefetch ^^ x ≢ operation_name evict ^^ y
unfolding first_code
not_alike x y e = absurd (
    omega (arith, ap first_code (sym (cons-append "p" "refetch" x) ∙ e ∙ cons-append "e" "vict" y)))

-- The number can be read off an id.
id_of-injective :
    (c : TransferContext) (o p : Operation) (m n : ℕ) → id_of c o m ≡ id_of c p n → m ≡ n
id_of-injective c prefetch prefetch m n e = after_prefix c prefetch m n e
id_of-injective c evict evict m n e = after_prefix c evict m n e
id_of-injective c prefetch evict m n e =
    absurd (not_alike _ _ (append_cancel_left "-" _ _ (append_cancel_left c.intent_prefix _ _ e)))
id_of-injective c evict prefetch m n e =
    absurd
      (not_alike _ _ (append_cancel_left "-" _ _ (append_cancel_left c.intent_prefix _ _ (sym e))))

-- An id with a number that is not below the bound does not occur.
not_among :
    (c : TransferContext) (bound : ℕ) (intents : List TransferIntent) (operation : Operation)
    (n : ℕ)
    → IsNumbered c bound intents
    → bound ≤ n
    → any_by (λ other. str_eq other (id_of c operation n)) (intent_ids intents) ≡ false
not_among c bound [] operation n h big = refl
not_among c bound (i ∷ intents) operation n (o, m, e, below, h) big =
    elim (Bool-cases (str_eq i.intent_id (id_of c operation n))) [
      | inl same ↦
          let equal : m ≡ n = id_of-injective c o operation m n (sym e ∙ (str_eq_iff _ _).0 same) in
          absurd (omega (arith, equal))
      | inr other ↦ rw other (not_among c m intents operation n h (omega arith))
    ]

pub IsNumbered-IsDistinct :
    (c : TransferContext) (bound : ℕ) (intents : List TransferIntent)
    → IsNumbered c bound intents
    → IsDistinct (intent_ids intents)
IsNumbered-IsDistinct c bound [] h = tt
IsNumbered-IsDistinct c bound (i ∷ intents) (operation, n, e, below, h) =
    (rw e (not_among c n intents operation n h (omega arith)), IsNumbered-IsDistinct c n intents h)

IsNumbered-raise :
    (c : TransferContext) (bound higher : ℕ) (intents : List TransferIntent)
    → bound ≤ higher
    → IsNumbered c bound intents
    → IsNumbered c higher intents
IsNumbered-raise c bound higher [] more h = tt
IsNumbered-raise c bound higher (i ∷ intents) more (operation, n, e, below, h) =
    (operation, n, e, omega arith, h)

-- The context is the given one, and the ids that were handed out are below the counter.
abbrev pub IsCounted : TransferContext → OffloadStore → Type 0
IsCounted c s =
    (s.transfer_context ≡ c) × IsNumbered s.transfer_context (suc s.intent_counter) s.submitted

submit_transfer-IsCounted :
    (c : TransferContext) (session : RuntimeSession) (blocks : List Block) (operation : Operation)
    (items : List TransferRange) (s : OffloadStore)
    → IsCounted c s
    → IsCounted c (submit_transfer session blocks operation items s).0
unfolding submit_transfer intent_for
submit_transfer-IsCounted c session blocks operation items s h =
    let number = suc s.intent_counter in
    let i = intent_for s.transfer_context number blocks operation items in
    let raised =
      IsNumbered-raise s.transfer_context number (suc number) s.submitted (omega arith) h.1 in
    elim (Result-cases (require_runtime_session_open session >> session.open_session)) [
      | inr (e, closed) ↦ rw (closed, submit_transfer) h
      | inl (_, opened) ↦ elim (Result-cases (checked_intent i)) [
        | inr (e, refused) ↦ rw (opened, submit_transfer, refused) (h.0, raised)
        | inl (intent, made) ↦
            rw (opened, submit_transfer, made)
              (h.0, (operation, number, (checked_intent-same i intent made).1, omega arith, h.1))
      ]
    ]
