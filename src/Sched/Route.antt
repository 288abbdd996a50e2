-- ===== src/Sched/Route.antt =====
-- Where src/components/sk_sched.c sends an event. A read through a null pointer counts as a failed
-- assertion.
use skull.Prelude.{
  ℕ, zero, suc, ◌%◌, Bool, true, false, Option, none, some, List, [], ◌∷◌, length, ltb, ◌==◌,
  if◌then◌else◌,
}
use skull.Prelude.Checked.{Checked, ok, assert_failed, out_of_fuel, ◌>>=◌, ◌>>◌, sk_assert}
use skull.Prelude.Index.{get_elem?}
use skull.Sched.{Io, Bridge, Sched}

abbrev pub is_dst : ℕ → Option ℕ → Bool
is_dst id none = false
is_dst id (some dst) = id == dst

abbrev pub with_dst : Option ℕ → ℕ → Option ℕ
with_dst none dst = some dst
with_dst (some d) dst = some d

module _ {B : Type 0} where
  abbrev pub io_mq : Bool → Io B → B
  io_mq true io = io.input
  io_mq false io = io.output

  abbrev pub put_mq : Bool → B → Io B → Io B
  put_mq true mq io = record io { input = mq }
  put_mq false mq io = record io { output = mq }

  abbrev pub set_io : ℕ → Io B → Sched B → Sched B
  set_io pri io s = record s { io_tbl = λ p. if p == pri then io else s.io_tbl p }

  -- `_find_affinity_bridge`, from an index on.
  unfoldable pub find_affinity_bridge : List (Bridge B) → ℕ → ℕ → Option ℕ
  find_affinity_bridge [] target idx = none
  find_affinity_bridge (b ∷ bs) target idx =
      let rest = find_affinity_bridge bs target (suc idx) in
      if b.dst == target then some idx else rest

  -- The loop of `_find_bridge_roundrobin`: what it found, and `last_delivery_idx`.
  unfoldable pub roundrobin_loop : ℕ → List (Bridge B) → ℕ → ℕ → Checked (Option ℕ × ℕ)
  roundrobin_loop zero bridges end idx = out_of_fuel
  roundrobin_loop (suc fuel) bridges end idx =
      let next = suc idx % length bridges in
      let rest = roundrobin_loop fuel bridges end next in
      elim (get_elem? bridges idx) [
        | none ↦ assert_failed
        | some b ↦
            if b.routable then ok (some idx, idx) else if next == end then ok (none, next) else rest
      ]

  -- `_find_bridge_roundrobin`
  unfoldable pub find_bridge_roundrobin : List (Bridge B) → ℕ → Checked (Option ℕ × ℕ)
  find_bridge_roundrobin bridges last = do
    (found, idx) ← roundrobin_loop (length bridges) bridges last last
    elim found [
      | none ↦ ok (none, idx)
      | some i ↦ do sk_assert (ltb i (length bridges)); ok (some i, suc i % length bridges)
    ]

  -- `_deliver_one_io` finds a bridge for an event, and its destination.
  unfoldable pub route : Sched B → Option ℕ → Checked (ℕ × ℕ)
  route s none = do
    (found, last) ← find_bridge_roundrobin s.bridge_tbl s.last_delivery_idx
    elim found [ none ↦ assert_failed | some i ↦ ok (i, last) ]
  route s (some dst) = elim (find_affinity_bridge s.bridge_tbl dst 0) [
    | some i ↦ ok (i, s.last_delivery_idx)
    | none ↦ do
      (found, last) ← find_bridge_roundrobin s.bridge_tbl s.last_delivery_idx
      elim found [ none ↦ assert_failed | some i ↦ ok (i, last) ]
  ]
