-- ===== src/NativePlan/Checked/Rounds.antt =====
-- What turbobus/native_plan.py lets through: the loop over the assignments.
use pcie_pool.Common.{
  ◌<◌, ◌≡◌, refl, inl, inr, List, [], ◌∷◌, Option, none, some, String, str_eq, str_eq_iff, true,
  Bool-cases, arith, All, ok, length, sum_by, raise_if, bind-ok, not, value_error, err, ◌∙◌,
}
use pcie_pool.Common.Int.{ℤ, pos, pos_part, ltb_ℤ, leb_ℤ, negsuc}
use pcie_pool.Common.Float.{FloatOps}
use pcie_pool.Common.Text.{lower}
use pcie_pool.NativePlan.{
  Entry, not_mapping, mapping, PathPayload, AssignmentPayload, PlanPayload, TransferDirection, h2d,
  d2h, NativeChunk, NativePath, NativeAssignment, NativeTransferPlan, get_or,
  validate_assignment_path, native_path_kind, native_transfer_direction, validate_assignment_totals,
  default_chunk_bytes,
}
use pcie_pool.NativePlan.Payload.{
  bytes_of, keep, read_chunks, native_path, close_assignment, read_path, read_assignment,
  read_assignments, close_plan, native_transfer_plan,
}
use pcie_pool.NativePlan.Checked.{
  name_of, can_run, validate-same, validate-direction, path-can_run, IsExecutable,
  read_chunks-carry, read_chunks-carry, read_chunks-carry,
}

-- What one round of the loop over the assignments leaves behind.
record IsRound {F : Type 0} (before : Option String) (out : Option (NativeAssignment F) × String)
    : Type 0 where
  d : TransferDirection
  settles : out.1 ≡ name_of d
  agrees : (b : String) → before ≡ some b → b ≡ name_of d
  executable : All (IsExecutable d) (keep out.0 [])

same_direction : (d d' : TransferDirection) → name_of d ≡ name_of d' → d ≡ d'
unfolding str_eq
same_direction h2d h2d e = refl
same_direction h2d d2h e =
    let t : str_eq "h2d" "d2h" ≡ true = (str_eq_iff "h2d" "d2h").1 e in absurd (ground arith)
same_direction d2h h2d e =
    let t : str_eq "d2h" "h2d" ≡ true = (str_eq_iff "d2h" "h2d").1 e in absurd (ground arith)
same_direction d2h d2h e = refl

module _ {F : Type 0} ⦃f : FloatOps F⦄ where
  close_assignment-IsExecutable :
      (a : AssignmentPayload F) (path : NativePath F) (cs : List NativeChunk)
      (d : TransferDirection) (out : Option (NativeAssignment F))
      → path.direction ≡ d
      → can_run d path.kind path.relay_device ≡ true
      → All (λ c. 0 < c.bytes) cs
      → close_assignment a path cs ≡ ok out
      → All (IsExecutable d) (keep out [])
  unfolding close_assignment
  close_assignment-IsExecutable a path [] d out e₁ e₂ h e =
      let same : out ≡ none = ground arith in rw same tt
  close_assignment-IsExecutable a path (c ∷ cs) d out e₁ e₂ h e =
      let (_, _, e₃) =
        bind-ok (validate_assignment_totals a (bytes_of (c ∷ cs)) (length (c ∷ cs))) _ out e in
      let same : out ≡ some (record { path = path; chunks = c ∷ cs }) = ground arith in
      rw same
        (record { one_direction = e₁; path_fits = e₂; carries = omega arith; chunks_carry = h }, tt)

  read_path-IsRound :
      (a : AssignmentPayload F) (p : PathPayload F) (before : Option String)
      (out : Option (NativeAssignment F) × String)
      → read_path a p before ≡ ok out
      → IsRound before out
  unfolding read_path
  read_path-IsRound a p before out e =
      let direction = lower (get_or p.direction "h2d") in
      let kind = lower (get_or p.kind "") in
      let (_, _, e₀) =
        bind-ok
          (raise_if (not (get_or p.enabled true))
            (value_error "transfer plan contains a disabled path"))
          _ out e in
      let (settled, v, e₁) =
        bind-ok (validate_assignment_path kind direction (get_or p.relay_device (negsuc 0)) before)
          _ out e₀ in
      let (k, is_kind, e₂) = bind-ok (native_path_kind kind direction) _ out e₁ in
      let (d, dir, e₃) = bind-ok (native_transfer_direction direction) _ out e₂ in
      let (cs, chunks, e₄) = bind-ok (read_chunks (get_or a.chunks [])) _ out e₃ in
      let (closed, close, e₅) = bind-ok (close_assignment a (native_path p k d) cs) _ out e₄ in
      let (named, fits) = path-can_run kind direction _ before settled k d v is_kind dir in
      let same : out ≡ (closed, settled) = ground arith in
      let executable =
        close_assignment-IsExecutable a (native_path p k d) cs d closed refl fits
          (read_chunks-carry (get_or a.chunks []) cs chunks) close in
      rw same (record {
        d = d;
        settles = validate-direction kind direction _ before settled v ∙ named;
        agrees = λ b at_b. validate-same kind direction _ b settled (rw at_b at v) ∙ named;
        executable = executable;
      })

  read_assignment-IsRound :
      (e : Entry (AssignmentPayload F)) (before : Option String)
      (out : Option (NativeAssignment F) × String)
      → read_assignment e before ≡ ok out
      → IsRound before out
  unfolding read_assignment
  read_assignment-IsRound not_mapping before out e = absurd (ground arith)
  read_assignment-IsRound (mapping a) before out e = go a.path e
    where
      go :
          (path : Entry (PathPayload F))
          → (elim path [
            | not_mapping ↦ err (value_error "transfer plan assignment path must be an object")
            | mapping p ↦ read_path a p before
          ])
            ≡ ok out
          → IsRound before out
      go not_mapping e = absurd (ground arith)
      go (mapping p) e = read_path-IsRound a p before out e

  join-All :
      (d : TransferDirection) (a : Option (NativeAssignment F)) (rest : List (NativeAssignment F))
      → All (IsExecutable d) (keep a [])
      → All (IsExecutable d) rest
      → All (IsExecutable d) (keep a rest)
  join-All d none rest h k = k
  join-All d (some a) rest h k = (h.0, k)

  -- After a first assignment the rest goes in its direction.
  read_rest-All :
      (es : List (Entry (AssignmentPayload F))) (d : TransferDirection)
      (ns : List (NativeAssignment F))
      → read_assignments es (some (name_of d)) ≡ ok ns
      → All (IsExecutable d) ns
  unfolding read_assignments
  read_rest-All [] d ns e = let same : ns ≡ [] = ground arith in rw same tt
  read_rest-All (x ∷ es) d ns e =
      let (out, e₁, e₂) = bind-ok (read_assignment x (some (name_of d))) _ ns e in
      let (rest, e₃, e₄) = bind-ok (read_assignments es (some out.1)) _ ns e₂ in
      let r = read_assignment-IsRound x (some (name_of d)) out e₁ in
      let to : d ≡ r.d = same_direction d r.d (r.agrees (name_of d) refl) in
      let same : ns ≡ keep out.0 rest = ground arith in
      rw (same, to)
        (join-All r.d out.0 rest r.executable (read_rest-All es r.d rest (rw r.settles at e₃)))

  read_assignments-All :
      (es : List (Entry (AssignmentPayload F))) (ns : List (NativeAssignment F))
      → read_assignments es none ≡ ok ns
      → (d : TransferDirection) × All (IsExecutable d) ns
  unfolding read_assignments
  read_assignments-All [] ns e = let same : ns ≡ [] = ground arith in (h2d, rw same tt)
  read_assignments-All (x ∷ es) ns e =
      let (out, e₁, e₂) = bind-ok (read_assignment x none) _ ns e in
      let (rest, e₃, e₄) = bind-ok (read_assignments es (some out.1)) _ ns e₂ in
      let r = read_assignment-IsRound x none out e₁ in
      let same : ns ≡ keep out.0 rest = ground arith in
      (
        r.d,
        rw same
            (join-All r.d out.0 rest r.executable (read_rest-All es r.d rest (rw r.settles at e₃))),
      )

  close_plan-totals :
      (total_bytes chunk_bytes : ℤ) (ns : List (NativeAssignment F)) (n : NativeTransferPlan F)
      → close_plan total_bytes chunk_bytes ns ≡ ok n
      → (n.assignments ≡ ns)
        × (n.chunk_bytes ≡ pos_part chunk_bytes)
        × (sum_by (λ a. bytes_of a.chunks) ns ≡ n.total_bytes)
  unfolding close_plan
  close_plan-totals t c [] n e = (ground arith, ground arith, ground arith)
  close_plan-totals t c (a ∷ ns) n e = (ground arith, ground arith, ground arith)

  -- Whatever dictionary it is given, a plan that goes to the native executor has a positive chunk
  -- size; its assignments run in one direction, on paths of a kind of that direction that name a
  -- relay just where the kind has one; every assignment has a chunk and every chunk a byte; and the
  -- bytes of all chunks add up to the plan's total.
  pub native_transfer_plan-IsExecutable :
      (payload : PlanPayload F) (n : NativeTransferPlan F)
      → native_transfer_plan payload ≡ ok n
      → (0 < n.chunk_bytes)
        × ((d : TransferDirection) × All (IsExecutable d) n.assignments)
        × (sum_by (λ a. bytes_of a.chunks) n.assignments ≡ n.total_bytes)
  unfolding native_transfer_plan
  native_transfer_plan-IsExecutable payload n e =
      let total = get_or payload.total_bytes (pos 0) in
      let chunk = get_or payload.chunk_bytes (pos default_chunk_bytes) in
      let (_, _, e₁) =
        bind-ok
          (raise_if (ltb_ℤ total (pos 0))
            (value_error "transfer plan total_bytes must be non-negative"))
          _ n e in
      let (_, positive, e₂) =
        bind-ok
          (raise_if (leb_ℤ chunk (pos 0))
            (value_error "transfer plan chunk_bytes must be positive"))
          _ n e₁ in
      let (ns, read, e₃) = bind-ok (read_assignments (get_or payload.assignments []) none) _ n e₂ in
      let (same, size, total_is) = close_plan-totals total chunk ns n e₃ in
      let (d, all) = read_assignments-All _ ns read in
      (
        elim (Bool-cases (leb_ℤ chunk (pos 0))) [
          | inl bad ↦ absurd (ground arith)
          | inr good ↦ ground arith
        ],
        (d, rw same all),
        rw same total_is,
      )
