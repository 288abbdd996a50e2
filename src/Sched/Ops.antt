-- ===== src/Sched/Ops.antt =====
-- Sending, routing and receiving events, src/components/sk_sched.c over src/common/sk_io.c. The
-- buffers are those of flibs. A read through a null pointer counts as a failed assertion.
use skull.Prelude.{
  ℕ, zero, suc, ◌+◌, ◌-◌, ◌*◌, ◌/◌, ◌%◌, ◌^◌, Bool, not, Option, none, some, List, [], ◌∷◌, ◌++◌,
  length, ltb, leb, ◌==◌, if◌then◌else◌,
}
use skull.Prelude.Checked.{Checked, ok, assert_failed, ◌>>=◌, ◌>>◌, sk_assert}
use skull.Prelude.Index.{get_elem?, set}
use skull.Fmbuf.{Fmbuf}
use skull.Pto.{Proto, Hdr, sk_pto_tbl, sk_pto_pack}
use skull.Sched.{Event, Io, Sched}
use skull.Sched.Route.{is_dst, with_dst, route, io_mq, put_mq, set_io}

abbrev pub sk_event_sz : ℕ
sk_event_sz = 56

abbrev pub max_routing_hop : ℕ
max_routing_hop = 255

abbrev pub max_io_bridge : ℕ
max_io_bridge = 48

abbrev pub get_pto : ℕ → Checked Proto
get_pto id = elim (get_elem? sk_pto_tbl id) [ none ↦ assert_failed | some pto ↦ ok pto ]

-- What `_emit_event` packs for a protocol.
abbrev pub pack_data : Proto → ℕ → List (List ℕ) → Checked (Option Hdr)
pack_data pto pto_id args =
    if pto.argc == 0 then ok none else (do hdr ← sk_pto_pack pto_id args; ok (some hdr))

-- The loop of `_get_new_size`, where `used` and `more` are counted in bytes.
abbrev pub grow : ℕ → ℕ → ℕ → ℕ → ℕ
grow zero new_sz used more = 0
grow (suc fuel) zero used more = 0
grow (suc fuel) (suc n) used more =
    let doubled = suc n * 2 % 2 ^ 64 in
    let rest = grow fuel doubled used more in
    if leb more ((doubled + 2 ^ 64 - used) % 2 ^ 64) then doubled else rest

module _ {B : Type 0} (fm : Fmbuf B Event) where
  -- `_get_new_size`
  unfoldable pub get_new_size : B → ℕ → Checked ℕ
  get_new_size mq nevents =
      let count = fm.size mq / sk_event_sz in
      let new_cnt = if count == 0 then 1 else count in
      let new_sz =
        grow 66 (new_cnt * sk_event_sz) (fm.used mq / sk_event_sz * sk_event_sz)
          (nevents * sk_event_sz) in
      sk_assert (not (new_sz == 0)) >> ok new_sz

  -- `sk_io_push` of one event to a buffer.
  unfoldable pub sk_io_push : B → Event → Checked B
  sk_io_push mq event = elim (fm.push mq event sk_event_sz) [
    | some mq' ↦ ok mq'
    | none ↦ do
      new_sz ← get_new_size mq 1
      elim (fm.push (fm.realloc mq new_sz) event sk_event_sz) [
        | some mq' ↦ ok mq'
        | none ↦ assert_failed
      ]
  ]

  -- `sk_io_pull` of one event, none where there is none.
  unfoldable pub sk_io_pull : B → Checked (Option (Event × B))
  sk_io_pull mq =
      if fm.used mq / sk_event_sz == 0
      then ok none
      else elim (fm.pop mq sk_event_sz) [ none ↦ assert_failed | some got ↦ ok (some got) ]

  -- `sk_io_push` to the input where `side` is true, and to the output where it is not.
  abbrev pub push_io : Bool → Io B → Event → Checked (Io B)
  push_io side io event = do mq ← sk_io_push (io_mq side io) event; ok (put_mq side mq io)

  -- `sk_sched_send` with `_emit_event`.
  unfoldable pub sk_sched_send :
      Sched B → Option ℕ → ℕ → Option ℕ → ℕ → ℕ → List (List ℕ) → Checked (Sched B)
  sk_sched_send s dst entity txn flags pto_id args = do
    pto ← get_pto pto_id
    data_ ← pack_data pto pto_id args
    io ← push_io (is_dst s.id dst) (s.io_tbl pto.pri) (record {
      src = s.id;
      dst = dst;
      pto_id = pto_id;
      hop = 0;
      flags = flags % 2 ^ 24;
      entity = entity;
      txn = txn;
      data_ = data_;
    })
    sk_assert (ltb 0 (fm.used (io_mq (is_dst s.id dst) io) / sk_event_sz))
    ok (set_io pto.pri io s)

  -- A round of `_deliver_one_io` with the event that it pulled, and the index of the bridge.
  unfoldable pub deliver_event : Sched B → Event → Checked (ℕ × Sched B)
  deliver_event s event = do
    sk_assert (not (event.hop == max_routing_hop))
    (i, last) ← route s event.dst
    elim (get_elem? s.bridge_tbl i) [
      | none ↦ assert_failed
      | some b ↦ do
        sk_assert (not ((fm.size b.mq - fm.used b.mq) / sk_event_sz == 0))
        elim (fm.push b.mq
            (record event { dst = with_dst event.dst b.dst; hop = suc event.hop % 2 ^ 8 })
            sk_event_sz) [
              | none ↦ assert_failed
              | some mq ↦ ok (
                i,
                record s {
                  bridge_tbl = set s.bridge_tbl i (record b { mq = mq });
                  last_delivery_idx = last;
                },
              )
            ]
    ]

  -- `_copy_event` on an event that it popped.
  unfoldable pub copy_one : Sched B → Event → Checked (Sched B)
  copy_one s event = do
    pto ← get_pto event.pto_id
    io ← push_io (is_dst s.id event.dst) (s.io_tbl pto.pri) event
    ok (set_io pto.pri io s)

  -- `_copy_event` on the events of a bridge, in the order in which they were popped.
  unfoldable pub copy_event : Sched B → List Event → Checked (Sched B)
  copy_event s [] = ok s
  copy_event s (event ∷ events) = do s' ← copy_one s event; copy_event s' events

  -- `sk_sched_setup_bridge`, none where there are as many bridges as possible.
  unfoldable pub sk_sched_setup_bridge : Sched B → ℕ → Bool → B → Option (Sched B)
  sk_sched_setup_bridge s dst routable mq =
      if length s.bridge_tbl == max_io_bridge
      then none
      else some (record s {
        bridge_tbl = s.bridge_tbl ++ record { dst = dst; routable = routable; mq = mq } ∷ [];
      })
