-- ===== src/Sched/Laws.antt =====
-- What src/components/sk_sched.c does with an event: sending, delivering to a bridge, copying from it.
use skull.Prelude.{
  ℕ, suc, ◌+◌, ◌-◌, ◌*◌, ◌/◌, ◌%◌, ◌^◌, ◌≤◌, ◌<◌, ◌≡◌, ◌≢◌, refl, ap, sym, ◌∙◌, inl, inr,
  Bool-cases, Bool, true, false, Option, none, some, List, [], ◌∷◌, ◌++◌, length, length-append,
  All, ltb, ◌==◌, arith,
}
use skull.Prelude.Checked.{Checked, ok, assert_failed, ◌>>=◌}
use skull.Prelude.Index.{get_elem?, set}
use skull.Fmbuf.{Fmbuf}
use skull.Pto.{Proto, Hdr, sk_pto_tbl, sk_pto_check}
use skull.Pto.Laws.{IsArg, packed, sk_pto_pack_lem, sk_pto_check-sk_pto_pack}
use skull.Sched.{Event, Io, Bridge, Sched}
use skull.Sched.Route.{is_dst, route, io_mq, put_mq, set_io, find_affinity_bridge}
use skull.Sched.Ops.{push_io, get_pto, pack_data, sk_sched_send, deliver_event}
use skull.Sched.Buffers.{IsBuffer, IsPushed, sk_io_push_lem}

-- The check of a message, where a null pointer stands for none.
abbrev pub check_data : ℕ → Option Hdr → Checked Bool
check_data id none = ok true
check_data id (some hdr) = sk_pto_check id hdr

module _ {B : Type 0} where
  pub io_mq-put_mq : (side : Bool) (mq : B) (io : Io B) → io_mq side (put_mq side mq io) ≡ mq
  io_mq-put_mq true mq io = refl
  io_mq-put_mq false mq io = refl

  -- A scheduler with a bridge in the middle.
  find_affinity_bridge-middle :
      (before after : List (Bridge B)) (b : Bridge B) (idx : ℕ)
      → All (λ c. c.dst ≢ b.dst) before
      → find_affinity_bridge (before ++ b ∷ after) b.dst idx ≡ some (idx + length before)
  unfolding find_affinity_bridge
  find_affinity_bridge-middle [] after b idx h = ground arith
  find_affinity_bridge-middle (c ∷ before) after b idx (h, hs) =
      grind (arith, h, find_affinity_bridge-middle before after b (suc idx) hs)

  get_elem?-middle :
      (before after : List (Bridge B)) (b : Bridge B)
      → get_elem? (before ++ b ∷ after) (length before) ≡ some b
  get_elem?-middle [] after b = refl
  get_elem?-middle (c ∷ before) after b = get_elem?-middle before after b

  set-middle :
      (before after : List (Bridge B)) (b c : Bridge B)
      → set (before ++ b ∷ after) (length before) c ≡ before ++ c ∷ after
  set-middle [] after b c = refl
  set-middle (d ∷ before) after b c = ap (λ bs. d ∷ bs) (set-middle before after b c)

pack_data_lem :
    (id : ℕ) (p : Proto) (args : List (List ℕ))
    → get_elem? sk_pto_tbl id ≡ some p
    → length args ≡ p.argc
    → All IsArg args
    → (data_ : Option Hdr) × (pack_data p id args ≡ ok data_) × (check_data id data_ ≡ ok true)
pack_data_lem id p args e n h = elim (Bool-cases (p.argc == 0)) [
  | inl no_args ↦ (none, grind (arith, no_args), refl)
  | inr some_args ↦
      let packs = sk_pto_pack_lem id p args e n h in
      (
        some (packed id p args),
        grind (arith, some_args, packs),
        ap (λ m. m >>= sk_pto_check id) (sym packs) ∙ sk_pto_check-sk_pto_pack id p args e n h,
      )
]

pub get_pto_lem : (id : ℕ) (p : Proto) → get_elem? sk_pto_tbl id ≡ some p → get_pto id ≡ ok p
get_pto_lem id p e =
    ap (λ x. elim x as (λ o. Checked Proto) [ none ↦ assert_failed | some pto ↦ ok pto ]) e

module _ {B : Type 0} (fm : Fmbuf B Event) where
  pub push_io_lem :
      (side : Bool) (io : Io B) (event : Event)
      → IsBuffer fm (io_mq side io)
      → 56 * length (fm.contents (io_mq side io)) < 2 ^ 60
      → (mq : B) × (push_io fm side io event ≡ ok (put_mq side mq io))
        × IsPushed fm event (io_mq side io) mq
  push_io_lem side io event g bound =
      let (mq, pushes, pushed) = sk_io_push_lem fm (io_mq side io) event g bound in
      (mq, ap (λ m. m >>= λ mq. ok (put_mq side mq io)) pushes, pushed)

  -- An event that is sent stands last in a buffer of the priority of its protocol: in the input
  -- where the scheduler sends to itself, and in the output where not. No other buffer changes, and
  -- the message in the event passes the check.
  pub sk_sched_send_lem :
      (s : Sched B) (dst : Option ℕ) (entity : ℕ) (txn : Option ℕ) (flags id : ℕ) (p : Proto)
      (args : List (List ℕ))
      → get_elem? sk_pto_tbl id ≡ some p
      → length args ≡ p.argc
      → All IsArg args
      → IsBuffer fm (io_mq (is_dst s.id dst) (s.io_tbl p.pri))
      → 56 * length (fm.contents (io_mq (is_dst s.id dst) (s.io_tbl p.pri))) < 2 ^ 60
      → (event : Event) × (mq : B) × (sk_sched_send fm s dst entity txn flags id args
          ≡ ok (set_io p.pri (put_mq (is_dst s.id dst) mq (s.io_tbl p.pri)) s))
        × (fm.contents mq ≡ fm.contents (io_mq (is_dst s.id dst) (s.io_tbl p.pri)) ++ event ∷ [])
        × (event.dst ≡ dst)
        × (event.src ≡ s.id)
        × (event.pto_id ≡ id)
        × (event.hop ≡ 0)
        × (check_data id event.data_ ≡ ok true)
  unfolding sk_sched_send
  sk_sched_send_lem s dst entity txn flags id p args e n h g bound =
      let side = is_dst s.id dst in
      let io = s.io_tbl p.pri in
      let (data_, packs, checks) = pack_data_lem id p args e n h in
      let event : Event = record {
        src = s.id;
        dst = dst;
        pto_id = id;
        hop = 0;
        flags = flags % 2 ^ 24;
        entity = entity;
        txn = txn;
        data_ = data_;
      } in
      let (mq, pushes, pushed) = push_io_lem side io event g bound in
      let known = get_pto_lem id p e in
      let used : ltb 0 (fm.used (io_mq side (put_mq side mq io)) / 56) ≡ true = ground (
        arith,
        ap fm.used (io_mq-put_mq side mq io),
        pushed.buffer.whole,
        ap length pushed.last,
        length-append (fm.contents (io_mq side io)) (event ∷ []),
      ) in
      (
        event,
        mq,
        grind (arith, known, packs, pushes, used),
        pushed.last,
        refl,
        refl,
        refl,
        refl,
        checks,
      )

  -- An event for a scheduler that bridges lead to is put last into the first of them, one hop
  -- further. No other bridge changes, and the round robin stays where it was.
  pub deliver_event_lem :
      (s : Sched B) (event : Event) (before after : List (Bridge B)) (b : Bridge B)
      → event.dst ≡ some b.dst
      → event.hop < 255
      → s.bridge_tbl ≡ before ++ b ∷ after
      → All (λ c. c.dst ≢ b.dst) before
      → fm.used b.mq + 56 ≤ fm.size b.mq
      → (mq : B) × (deliver_event fm s event
          ≡ ok (length before, record s { bridge_tbl = before ++ record b { mq = mq } ∷ after }))
        × (fm.contents mq ≡ fm.contents b.mq ++ record event { hop = suc event.hop } ∷ [])
  unfolding deliver_event route
  deliver_event_lem s event before after b to hops split others room =
      let (mq, pushes, last, _, _) =
        fm.push-fits b.mq (record event { hop = suc event.hop }) 56 room in
      let hop_left : (event.hop == 255) ≡ false = grind (arith, hops) in
      let found : find_affinity_bridge s.bridge_tbl b.dst 0 ≡ some (length before) =
        ap (λ bs. find_affinity_bridge bs b.dst 0) split
        ∙ find_affinity_bridge-middle before after b 0 others
        ∙ ap some (omega arith) in
      let got : get_elem? s.bridge_tbl (length before) ≡ some b =
        ap (λ bs. get_elem? bs (length before)) split ∙ get_elem?-middle before after b in
      let written : set s.bridge_tbl (length before) (record b { mq = mq })
          ≡ before ++ record b { mq = mq } ∷ after =
        ap (λ bs. set bs (length before) (record b { mq = mq })) split
        ∙ set-middle before after b (record b { mq = mq }) in
      let slots : ((fm.size b.mq - fm.used b.mq) / 56 == 0) ≡ false = ground (arith, room) in
      let hop : suc event.hop % 2 ^ 8 ≡ suc event.hop = omega (arith, hops) in
      (mq, grind (arith, to, hop_left, found, got, slots, hop, pushes, written), last)
