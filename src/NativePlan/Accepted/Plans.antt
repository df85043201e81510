-- ===== src/NativePlan/Accepted/Plans.antt =====
-- A plan of turbobus/planner_engine.py passes turbobus/native_plan.py: its assignments, then the
-- plan.
use pcie_pool.Common.{
  ℕ, zero, suc, ◌<◌, ◌≡◌, refl, sym, ap, ◌∙◌, List, [], ◌∷◌, ◌++◌, map, Option, none, some, String,
  Bool, true, arith, All, ok, length, sum_by, sum_by-append, length-map, get_elem?, All-map_to,
}
use mathlib.Core.List.{map-append}
use pcie_pool.Common.Int.{ℤ, pos, pos_part, eqb_ℤ_iff, leb_ℤ, ltb_ℤ}
use pcie_pool.Common.Sums.{sum_by-perm}
use pcie_pool.Common.Float.{FloatOps}
use pcie_pool.Planner.{
  TransferMode, PlannerChunk, PlannerPathAssignment, PlannerTransferPlan, Profile,
  PlannerEngineOptions, RelayProfile,
}
use pcie_pool.Planner.Chunks.Tiling.{Tiles-sum}
use pcie_pool.Planner.Paths.{direct_path, relay_path}
use pcie_pool.Planner.Paths.Eligible.{IsEligible, by_direct, by_relay}
use pcie_pool.Planner.Assign.Coverage.{assigned}
use pcie_pool.Planner.Engine.{plan}
use pcie_pool.Planner.Engine.Partition.{plan-partition, plan-chunk_bytes}
use pcie_pool.Planner.Engine.Modes.{plan-IsRouted}
use pcie_pool.NativePlan.{
  NativePath, NativeAssignment, AssignmentPayload, NativeTransferPlan, TransferDirection,
  validate_assignment_totals, mapping,
}
use pcie_pool.NativePlan.Payload.{
  bytes_of, native_path, close_assignment, read_path, read_assignment, read_assignments, close_plan,
  native_transfer_plan, path_dict, assignment_dict, plan_dict,
}
use pcie_pool.NativePlan.Checked.{name_of}
use pcie_pool.NativePlan.Accepted.{
  native_chunk, sent, native_routes, planned_routes, sent-bytes, bytes_of-map, faults, Tiles-faults,
  read_chunks-ok, IsBefore, IsSendable, validate_assignment_path-ok, native_path_kind-ok,
  native_transfer_direction-ok, lower-name_of, lower-kind, at_start, same_way, send_direct,
  send_relay,
}

module _ {F : Type 0} ⦃f : FloatOps F⦄ where
  -- What makes an assignment of the planner acceptable.
  record IsReady (d : TransferDirection) (a : PlannerPathAssignment F) : Type 0 where
    on : a.path.enabled ≡ true
    way : a.path.direction ≡ name_of d
    sendable : IsSendable a.path.kind a.path.relay_device
    filled : 0 < length a.chunks

  validate_assignment_totals-ok :
      (body : AssignmentPayload F) (n m : ℕ)
      → body.bytes ≡ some (pos n)
      → body.chunk_count ≡ some (pos m)
      → validate_assignment_totals body n m ≡ ok tt
  unfolding validate_assignment_totals
  validate_assignment_totals-ok body n m e₁ e₂ =
      rw (e₁, e₂, (eqb_ℤ_iff (pos n) (pos n)).1 refl, (eqb_ℤ_iff (pos m) (pos m)).1 refl) refl

  close_assignment-ok :
      (native : NativePath F) (cs : List PlannerChunk) (body : AssignmentPayload F)
      → 0 < length cs
      → body.bytes ≡ some (pos (sum_by (λ c. c.bytes) cs))
      → body.chunk_count ≡ some (pos (length cs))
      → close_assignment body native (map native_chunk cs)
        ≡ ok (some (record { path = native; chunks = map native_chunk cs }))
  unfolding close_assignment
  close_assignment-ok native [] body h e₁ e₂ = absurd (omega arith)
  close_assignment-ok native (c ∷ cs) body h e₁ e₂ =
      let mapped = map native_chunk (c ∷ cs) in
      let totals =
        validate_assignment_totals-ok body (bytes_of mapped) (length mapped)
          (rw (bytes_of-map (c ∷ cs)) e₁) (rw (length-map native_chunk (c ∷ cs)) e₂) in
      rw totals refl

  read_assignment-ok :
      (a : PlannerPathAssignment F) (d : TransferDirection) (before : Option String)
      → IsReady d a
      → IsBefore d before
      → sum_by faults a.chunks ≡ 0
      → (path : NativePath F) × (read_assignment (mapping (assignment_dict a)) before
          ≡ ok (some (record { path = path; chunks = map native_chunk a.chunks }), name_of d))
        × (path.target_device ≡ a.path.target_device)
        × (path.relay_device ≡ a.path.relay_device)
  unfolding native_path read_assignment read_path assignment_dict path_dict
  read_assignment-ok a d before r b h =
      let (k, is_kind) = native_path_kind-ok a.path.kind a.path.relay_device d r.sendable in
      let native = native_path (path_dict a.path) k d in
      let valid = validate_assignment_path-ok _ _ d before r.sendable b in
      (
        native,
        rw
            (
              r.on,
              r.way,
              lower-name_of d,
              lower-kind _ _ r.sendable,
              valid,
              is_kind,
              native_transfer_direction-ok d,
              read_chunks-ok a.chunks h,
              close_assignment-ok native a.chunks (assignment_dict a) r.filled refl refl,
            )
            refl,
        refl,
        refl,
      )

  read_assignments-ok :
      (as' : List (PlannerPathAssignment F)) (d : TransferDirection) (before : Option String)
      → All (IsReady d) as'
      → IsBefore d before
      → sum_by faults (assigned as') ≡ 0
      → (ns : List (NativeAssignment F)) × (read_assignments
            (map (λ a. mapping (assignment_dict a)) as')
            before
          ≡ ok ns)
        × (sent ns ≡ map native_chunk (assigned as'))
        × (native_routes ns ≡ planned_routes as')
  unfolding read_assignments
  read_assignments-ok [] d before r b h = ([], refl, refl, refl)
  read_assignments-ok (a ∷ as') d before r b h =
      let split = sum_by-append faults a.chunks (assigned as') in
      let (path, here, target, relay) = read_assignment-ok a d before r.0 b (omega arith) in
      let (ns, rest, same, routes) = read_assignments-ok as' d _ r.1 same_way (omega arith) in
      (
        record { path = path; chunks = map native_chunk a.chunks } ∷ ns,
        rw (here, rest) refl,
        ap (λ cs. map native_chunk a.chunks ++ cs) same
            ∙ sym (map-append native_chunk a.chunks (assigned as')),
        rw (target, relay, routes) refl,
      )

  -- The relays of a profile have device numbers, which are not negative.
  abbrev pub AreDevices : Profile F → Type 0
  AreDevices profile = All (λ r. leb_ℤ (pos 0) r.relay_device ≡ true) profile.relays

  device_at :
      (rs : List (RelayProfile F)) (i : ℕ) (r : RelayProfile F)
      → All (λ r. leb_ℤ (pos 0) r.relay_device ≡ true) rs
      → get_elem? rs i ≡ some r
      → leb_ℤ (pos 0) r.relay_device ≡ true
  device_at [] i r h e = absurd (ground arith)
  device_at (x ∷ rs) zero r h e = let same : x ≡ r = ground arith in rw same at h.0
  device_at (x ∷ rs) (suc i) r h e = device_at rs i r h.1 e

  routed-IsReady :
      (options : PlannerEngineOptions F) (profile : Profile F) (mode : TransferMode)
      (d : TransferDirection) (a : PlannerPathAssignment F)
      → AreDevices profile
      → IsEligible options profile mode (name_of d) a.path
      → 0 < length a.chunks
      → IsReady d a
  unfolding direct_path relay_path
  routed-IsReady options profile mode d a devices (by_direct _ _ e) h = record {
    on = ap (λ p. p.enabled) e;
    way = ap (λ p. p.direction) e;
    sendable = rw e send_direct;
    filled = h;
  }
  routed-IsReady options profile mode d a devices (by_relay i r _ at_i _ e) h = record {
    on = ap (λ p. p.enabled) e;
    way = ap (λ p. p.direction) e;
    sendable = rw e (send_relay r.relay_device (device_at profile.relays i r devices at_i));
    filled = h;
  }

  routed-All :
      (options : PlannerEngineOptions F) (profile : Profile F) (mode : TransferMode)
      (d : TransferDirection) (as' : List (PlannerPathAssignment F))
      → AreDevices profile
      → All (λ a. IsEligible options profile mode (name_of d) a.path × (0 < length a.chunks)) as'
      → All (IsReady d) as'
  routed-All options profile mode d as' devices =
      All-map_to _ (IsReady d) (λ a h. routed-IsReady options profile mode d a devices h.0 h.1) as'

  close_plan-ok :
      (total size : ℕ) (ns : List (NativeAssignment F))
      → sum_by (λ a. bytes_of a.chunks) ns ≡ total
      → close_plan (pos total) (pos size) ns
        ≡ ok (record { total_bytes = total; chunk_bytes = size; assignments = ns })
  unfolding close_plan
  close_plan-ok total size [] e = ground arith
  close_plan-ok total size (a ∷ ns) e = ground arith

  plan_dict-ok :
      (p : PlannerTransferPlan F) (ns : List (NativeAssignment F))
      → 0 < p.chunk_bytes
      → read_assignments (map (λ a. mapping (assignment_dict a)) p.assignments) none ≡ ok ns
      → sum_by (λ a. bytes_of a.chunks) ns ≡ p.total_bytes
      → native_transfer_plan (plan_dict p)
        ≡ ok (record { total_bytes = p.total_bytes; chunk_bytes = p.chunk_bytes; assignments = ns })
  unfolding native_transfer_plan plan_dict
  plan_dict-ok p ns h read sum =
      let positive : leb_ℤ (pos p.chunk_bytes) (pos 0) ≡ Bool.false = ground arith in
      let natural : ltb_ℤ (pos p.total_bytes) (pos 0) ≡ Bool.false = ground arith in
      rw (natural, positive, read) (close_plan-ok p.total_bytes p.chunk_bytes ns sum)

  -- A plan of `plan` for a known direction, on a profile whose relays have device numbers, is
  -- accepted by the native side. The executor gets the same assignments in the same order, each with
  -- the target and the relay of its path and the offsets and sizes of its chunks; the bytes of all
  -- chunks are those of the transfer.
  pub native_transfer_plan-plan :
      (options : PlannerEngineOptions F) (total_bytes chunk_bytes : ℤ) (profile : Profile F)
      (mode : TransferMode) (d : TransferDirection) (p : PlannerTransferPlan F)
      → AreDevices profile
      → plan options total_bytes chunk_bytes profile mode (name_of d) ≡ ok p
      → (n : NativeTransferPlan F) × (native_transfer_plan (plan_dict p) ≡ ok n)
        × (native_routes n.assignments ≡ planned_routes p.assignments)
        × (bytes_of (sent n.assignments) ≡ pos_part total_bytes)
  native_transfer_plan-plan options t c profile mode d p devices e =
      let (cs, tiles, perm, total) = plan-partition options t c profile mode (name_of d) p e in
      let sound =
        sum_by-perm faults (assigned p.assignments) cs perm
        ∙ Tiles-faults (pos_part c) 0 0 _ cs tiles in
      let ready =
        routed-All options profile _ d p.assignments devices
          (plan-IsRouted options t c profile mode (name_of d) p e) in
      let (ns, read, same, routes) =
        read_assignments-ok p.assignments d none ready at_start sound in
      let bytes : bytes_of (sent ns) ≡ pos_part t =
        ap bytes_of same
        ∙ bytes_of-map (assigned p.assignments)
        ∙ sum_by-perm (λ c. c.bytes) (assigned p.assignments) cs perm
        ∙ Tiles-sum _ _ _ _ cs tiles in
      let size = plan-chunk_bytes options t c profile mode (name_of d) p e in
      (_, plan_dict-ok p ns size read (sent-bytes ns ∙ bytes ∙ sym total), routes, bytes)
