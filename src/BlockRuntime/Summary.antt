-- ===== src/BlockRuntime/Summary.antt =====
-- `runtime_summary`, `block_cleanup_summary` and `runtime_evidence` of
-- turbobus/daemon/block_runtime.py.
use pcie_pool.Common.{
  ℕ, ◌≡◌, refl, ◌∙◌, List, [], ◌∷◌, ◌++◌, map, Option, none, some, String, arith, if◌then◌else◌,
  any_by, length, length-append, length-map, sum_by, sum_by-one,
}
use pcie_pool.Common.Int.{ℤ}
use pcie_pool.Common.Dict.{Dict, string_eq}
use pcie_pool.Common.Counter.{tally, count_of, count_of-counts, total, total-counts}
use pcie_pool.Common.Order.{sorted}
use pcie_pool.BlockRuntime.{BlockRuntimeRecord}

-- A set of texts as the list of its members; `sorted` forgets the order.
pub set_add : String → List String → List String
set_add s set = if any_by (λ t. string_eq.beq t s) set then set else set ++ s ∷ []

pub set_update : List String → List String → List String
unfolding set_add
set_update [] set = set
set_update (s ∷ ss) set = set_update ss (set_add s set)

pub lease_set : {F : Type 0} → List (BlockRuntimeRecord F) → List String → List String
unfolding set_update
lease_set [] set = set
lease_set (r ∷ rs) set = lease_set rs (set_update r.lease_ids set)

add_ticket : Option String → List String → List String
unfolding set_add
add_ticket none set = set
add_ticket (some t) set = set_add t set

pub ticket_set : {F : Type 0} → List (BlockRuntimeRecord F) → List String → List String
unfolding add_ticket
ticket_set [] set = set
ticket_set (r ∷ rs) set = ticket_set rs (add_ticket r.ticket_id set)

pub record RuntimeSummary : Type 0 where
  pub block_count : ℕ
  pub states : Dict String ℕ
  pub bytes_by_state : Dict String ℕ
  pub bytes_by_path_kind : Dict String ℕ
  pub lease_ids : List String
  pub ticket_ids : List String

module _ {F : Type 0} where
  -- `runtime_summary`: the dicts and sets of its loop do not depend on one another.
  unfoldable pub runtime_summary : List (BlockRuntimeRecord F) → RuntimeSummary
  unfolding tally lease_set ticket_set sorted
  runtime_summary records = record {
    block_count = length records;
    states = tally (λ r. r.state) (λ _. 1) records [];
    bytes_by_state = tally (λ r. r.state) (λ r. r.bytes) records [];
    bytes_by_path_kind = tally (λ r. r.path_kind) (λ r. r.bytes) records [];
    lease_ids = sorted (lease_set records []);
    ticket_ids = sorted (ticket_set records []);
  }

pub record CleanupTarget : Type 0 where
  pub block_id : String
  pub target_kind : String
  pub target_id : String
  pub path_id : String
  pub relay_device : Option ℤ

pub record CleanupSummary : Type 0 where
  pub block_count : ℕ
  pub cleanup_target_count : ℕ
  pub targets : List CleanupTarget

module _ {F : Type 0} where
  pub cleanup_target : BlockRuntimeRecord F → String → CleanupTarget
  cleanup_target r lease_id = record {
    block_id = r.block_id;
    target_kind = "reservation";
    target_id = lease_id;
    path_id = r.path_id;
    relay_device = r.relay_device;
  }

  -- The targets of `block_cleanup_summary`; its counts are the lengths of the lists.
  pub cleanup_targets : List (BlockRuntimeRecord F) → List CleanupTarget
  unfolding cleanup_target
  cleanup_targets [] = []
  cleanup_targets (r ∷ rs) = map (cleanup_target r) r.lease_ids ++ cleanup_targets rs

  unfoldable pub block_cleanup_summary : List (BlockRuntimeRecord F) → CleanupSummary
  unfolding cleanup_targets
  block_cleanup_summary records = record {
    block_count = length records;
    cleanup_target_count = length (cleanup_targets records);
    targets = cleanup_targets records;
  }

module _ {F : Type 0} where
  -- The summary counts every record once under its state, and its bytes once under its state and
  -- once under the kind of its path.
  pub runtime_summary-counts :
      (records : List (BlockRuntimeRecord F)) (s : String)
      → let out = runtime_summary records in
        (total out.states ≡ length records)
        × (count_of s out.states ≡ sum_by (λ r. if string_eq.beq r.state s then 1 else 0) records)
        × (count_of s out.bytes_by_state
            ≡ sum_by (λ r. if string_eq.beq r.state s then r.bytes else 0) records)
        × (count_of s out.bytes_by_path_kind
            ≡ sum_by (λ r. if string_eq.beq r.path_kind s then r.bytes else 0) records)
        × (total out.bytes_by_state ≡ sum_by (λ r. r.bytes) records)
        × (total out.bytes_by_path_kind ≡ sum_by (λ r. r.bytes) records)
  unfolding runtime_summary
  runtime_summary-counts records s = (
    total-counts (λ r. r.state) (λ _. 1) records ∙ sum_by-one records,
    count_of-counts (λ r. r.state) (λ _. 1) records s,
    count_of-counts (λ r. r.state) (λ r. r.bytes) records s,
    count_of-counts (λ r. r.path_kind) (λ r. r.bytes) records s,
    total-counts (λ r. r.state) (λ r. r.bytes) records,
    total-counts (λ r. r.path_kind) (λ r. r.bytes) records,
  )

  -- There is a cleanup target for each lease of each block.
  pub block_cleanup_summary-count :
      (records : List (BlockRuntimeRecord F))
      → (block_cleanup_summary records).cleanup_target_count
        ≡ sum_by (λ r. length r.lease_ids) records
  unfolding block_cleanup_summary cleanup_targets
  block_cleanup_summary-count [] = refl
  block_cleanup_summary-count (r ∷ rs) = omega (
    arith,
    length-append (map (cleanup_target r) r.lease_ids) (cleanup_targets rs),
    length-map (cleanup_target r) r.lease_ids,
    block_cleanup_summary-count rs,
  )
