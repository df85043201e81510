-- ===== src/NativePlan/Checked.antt =====
-- What turbobus/native_plan.py lets through to the native executor.
pub mod Rounds
use pcie_pool.Common.{
  ◌<◌, ◌≡◌, sym, inl, inr, List, [], ◌∷◌, Option, some, String, str_eq, str_eq_iff, Bool, true,
  ◌||◌, Bool-cases, arith, All, ok, length, bind-ok,
}
use pcie_pool.Common.Int.{ℤ, pos, ltb_ℤ, leb_ℤ}
use pcie_pool.NativePlan.{
  Entry, not_mapping, mapping, ChunkPayload, PathKind, direct_h2d, relay_h2d_then_p2p, direct_d2h,
  relay_p2p_then_d2h, TransferDirection, h2d, d2h, NativeChunk, NativeAssignment, get_or,
  validate_assignment_path, native_path_kind, native_transfer_direction,
}
use pcie_pool.NativePlan.Payload.{read_chunk, read_chunks}

-- The name of a direction in the dictionaries.
abbrev pub name_of : TransferDirection → String
name_of h2d = "h2d"
name_of d2h = "d2h"

-- A path that the executor can run in a direction: its kind is one of that direction, and it names
-- a relay just where its kind has one.
abbrev pub can_run : TransferDirection → PathKind → ℤ → Bool
can_run h2d direct_h2d relay = ltb_ℤ relay (pos 0)
can_run h2d relay_h2d_then_p2p relay = leb_ℤ (pos 0) relay
can_run d2h direct_d2h relay = ltb_ℤ relay (pos 0)
can_run d2h relay_p2p_then_d2h relay = leb_ℤ (pos 0) relay
can_run _ _ relay = Bool.false

validate-same :
    (kind direction : String) (relay : ℤ) (b settled : String)
    → validate_assignment_path kind direction relay (some b) ≡ ok settled
    → b ≡ direction
unfolding validate_assignment_path
validate-same kind direction relay b settled v = elim (Bool-cases (str_eq direction b)) [
  | inl same ↦ sym ((str_eq_iff direction b).0 same)
  | inr other ↦ elim (Bool-cases (str_eq direction "h2d" || str_eq direction "d2h")) [
    | inl known ↦ absurd (ground arith)
    | inr unknown ↦ absurd (ground arith)
  ]
]

validate-direction :
    (kind direction : String) (relay : ℤ) (before : Option String) (settled : String)
    → validate_assignment_path kind direction relay before ≡ ok settled
    → settled ≡ direction
unfolding validate_assignment_path
validate-direction kind direction relay before settled v = ground arith

-- Both readings of the texts of a path agree with the checks.
pub path-can_run :
    (kind direction : String) (relay : ℤ) (before : Option String) (settled : String) (k : PathKind)
    (d : TransferDirection)
    → validate_assignment_path kind direction relay before ≡ ok settled
    → native_path_kind kind direction ≡ ok k
    → native_transfer_direction direction ≡ ok d
    → (direction ≡ name_of d) × (can_run d k relay ≡ true)
unfolding validate_assignment_path native_path_kind native_transfer_direction
path-can_run kind direction relay before settled k d v e₁ e₂ =
    elim (Bool-cases (str_eq direction "h2d")) [
      | inl up ↦ elim (Bool-cases (str_eq kind "direct")) [
        | inl direct ↦ (ground (arith, str_eq_iff direction "h2d"), ground arith)
        | inr other ↦ (ground (arith, str_eq_iff direction "h2d"), ground arith)
      ]
      | inr not_up ↦ elim (Bool-cases (str_eq kind "direct")) [
        | inl direct ↦ (ground (arith, str_eq_iff direction "d2h"), ground arith)
        | inr other ↦ (ground (arith, str_eq_iff direction "d2h"), ground arith)
      ]
    ]

-- What the executor can rely on in an assignment of a plan with a direction.
pub record IsExecutable {F : Type 0} (d : TransferDirection) (a : NativeAssignment F) : Type 0 where
  pub one_direction : a.path.direction ≡ d
  pub path_fits : can_run d a.path.kind a.path.relay_device ≡ true
  pub carries : 0 < length a.chunks
  pub chunks_carry : All (λ c. 0 < c.bytes) a.chunks

read_chunk-carries :
    (x : ChunkPayload) (c : NativeChunk) → read_chunk (mapping x) ≡ ok c → 0 < c.bytes
unfolding read_chunk
read_chunk-carries x c e = elim (Bool-cases (leb_ℤ (get_or x.bytes (pos 0)) (pos 0))) [
  | inl nothing ↦ absurd (ground arith)
  | inr something ↦ ground arith
]

pub read_chunks-carry :
    (es : List (Entry ChunkPayload)) (cs : List NativeChunk)
    → read_chunks es ≡ ok cs
    → All (λ c. 0 < c.bytes) cs
unfolding read_chunks read_chunk
read_chunks-carry [] cs e = let same : cs ≡ [] = ground arith in rw same tt
read_chunks-carry (not_mapping ∷ es) cs e = absurd (ground arith)
read_chunks-carry (mapping x ∷ es) cs e =
    let (c, e₁, e₂) = bind-ok (read_chunk (mapping x)) _ cs e in
    let (rest, e₃, e₄) = bind-ok (read_chunks es) _ cs e₂ in
    let positive : 0 < c.bytes = read_chunk-carries x c e₁ in
    let same : cs ≡ c ∷ rest = ground arith in rw same (positive, read_chunks-carry es rest e₃)
