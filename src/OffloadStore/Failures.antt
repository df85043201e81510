-- ===== src/OffloadStore/Failures.antt =====
-- How a failed transfer shows in `wait` of turbobus/offload/store.py and turbobus/offload/handles.py.
use pcie_pool.Common.{
  ℕ, List, ◌∷◌, some, true, false, ◌≡◌, refl, String, arith, any_by, ◌==◌, ok, err, runtime_error,
}
use pcie_pool.Common.Dict.{lookup, string_eq}
use pcie_pool.OffloadStore.{TransferReceipt, Handle, Block, OffloadStore, RuntimeSession}
use pcie_pool.OffloadStore.Transfers.{validate_transfer_receipt}
use pcie_pool.OffloadStore.Store.{wait, wait_handle, marked}
use pcie_pool.OffloadStore.Spec.{view}

-- A session that answers the wait for a handle with a receipt that passes all checks.
pub record Answers (session : RuntimeSession) (handle : Handle) (s : OffloadStore)
    (receipt : TransferReceipt) : Type 0 where
  pub opened : session.closed ≡ false
  pub answered : session.wait_transfer_receipt handle.intent.intent_id ≡ ok receipt
  pub accepted : validate_transfer_receipt session receipt handle.intent s.transfer_context ≡ ok tt
  pub bound : session.record_binding receipt ≡ ok tt

known_self : (n : ℕ) (ns : List ℕ) → any_by (λ m. m == n) (n ∷ ns) ≡ true
known_self n ns = ground arith

-- Where the session answers the first wait for a block's handle with the receipt of a failed
-- transfer, `wait` raises its error and leaves the block as it was; but the next `wait` for the block,
-- with nothing in between, returns without asking the session, and marks the block as if the transfer
-- had been carried out.
pub wait-failed_again :
    (session again : RuntimeSession) (name : String) (s : OffloadStore) (b : Block)
    (handle : Handle) (receipt : TransferReceipt)
    → lookup name s.blocks ≡ some b
    → b.last_handle ≡ some handle
    → any_by (λ n. n == handle.number) s.waited ≡ false
    → Answers session handle s receipt
    → receipt.failed ≡ true
    → let t = (wait session name s).0 in
      ((wait session name s).1 ≡ err (runtime_error receipt.error))
      × (view t ≡ view s)
      × (wait again name t ≡ (marked name t, ok tt))
unfolding wait wait_handle
wait-failed_again session again name s b handle receipt here last new answers failed =
    rw raised (refl, refl, returned)
  where
    after : OffloadStore
    after = record s { waited = handle.number ∷ s.waited }

    first : wait_handle session handle s ≡ (after, err (runtime_error receipt.error))
    first =
        rw
          (
            wait_handle, new, answers.opened, answers.answered, answers.accepted, answers.bound,
            failed,
          )
          refl

    raised : wait session name s ≡ (after, err (runtime_error receipt.error))
    raised = rw (here, wait, last, first) refl

    later : wait_handle again handle after ≡ (after, ok tt)
    later = rw (wait_handle, known_self handle.number s.waited) refl

    returned : wait again name after ≡ (marked name after, ok tt)
    returned = rw (here, wait, last, later) refl
