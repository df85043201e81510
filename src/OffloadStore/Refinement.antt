-- ===== src/OffloadStore/Refinement.antt =====
-- Every client of the offload store (turbobus/offload/store.py) sees the abstract map of `Spec`.
use pcie_pool.Common.{List, [], ◌∷◌, Bool}
use pcie_pool.OffloadStore.{OffloadStore}
use pcie_pool.OffloadStore.Store
use pcie_pool.OffloadStore.Spec.{View, Call, run_call, Simulates}

-- Calls one after the other, whether they return or raise: the store, and which of them returned.
unfoldable pub run : List Call → OffloadStore → OffloadStore × List Bool
unfolding run_call
run [] s = (s, [])
run (call ∷ calls) s =
    let (t, done) = run_call call s in let (u, others) = run calls t in (u, done ∷ others)

-- The views that calls lead to, where some of them returned and the others raised.
pub data Trace : List Call → List Bool → View → View → Type 0 where
  ends : (v : View) → Trace [] [] v v
  steps :
      (call : Call) (calls : List Call) (done : Bool) (others : List Bool) (v u w : View)
      → Simulates call v u done
      → Trace calls others u w
      → Trace (call ∷ calls) (done ∷ others) v w
