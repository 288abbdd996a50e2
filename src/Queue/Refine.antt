-- ===== src/Queue/Refine.antt =====
-- The functions of sk_queue.c do to the buffers what `View` says of the elements.
mod Push
mod Pull
mod OldestFirst
mod ReadsFirst
use Prim.Native.Nat.{min}
use native.Mathlib.Decide.{dec_le}
use skull.Prelude.{
  ℕ, zero, suc, ◌+◌, ◌-◌, ◌*◌, ◌<◌, ◌≡◌, refl, subst, inl, inr, Bool, true, false, Option, none,
  some, List, [], ◌∷◌, ◌++◌, length, All, span_upto, Bool-cases, ◌==◌, ltb, if◌then◌else◌, arith,
  lt→ltb,
}
use skull.Prelude.Checked.{ok}
use skull.Fmbuf.{Fmbuf}
use skull.Queue.{
  State, idle, lock, read, write, Elem, ElemType, elem_read, elem_write, elem_exclusive, is_read,
  Buffers, exclusive_mq, rw_pr_mqs, rw_pw_mq, SkQueue, Writes, accepts, buffer_push, buffer_pull,
  sizeof_elem_base,
}
use skull.Queue.Buffer.{
  IsLimit, Holds, length-le-max, buffer_push-room, buffer_push-limit, Holds-pop, used-lt,
}
use skull.Queue.Pulling.{place, pulled, buffer_pull_lem}
use skull.Queue.View.{
  is_read_elem, push_list, push_view, pull_oldest, pull_reads_first, pull_view, written, IsPullable,
  fits_mode, view_buffers, view, ValidBuffers, IsValid,
}
use skull.Queue.Ops.{sk_queue_push, sk_queue_pull, pull_buffers}
use skull.Queue.Refine.Pull.{
  Pulls, written-place, span_upto-All_rest, pull_reads, pull_one, pull_exclusive_from,
  pull_rw_pw_read, pull_rw_pr_read,
}
pub use skull.Queue.Refine.Push.{All-push_list}
use skull.Queue.Refine.Push.{push_buffers_refines}
use skull.Queue.Refine.OldestFirst.{pull_rw_pw_idle}
use skull.Queue.Refine.ReadsFirst.{pull_rw_pr_idle}

module _ {B T : Type 0} (fm : Fmbuf B (Elem T)) (q : SkQueue B)
    (l : IsLimit q.elem_sz q.max_slots) where
  pull_buffers_refines :
      (st : State) (bs : Buffers B) (n : ℕ)
      → IsPullable bs st
      → ValidBuffers fm q.elem_sz q.max_slots bs
      → Pulls fm q l st (suc n) bs
  unfolding Pulls pull_buffers pull_view
  pull_buffers_refines st (exclusive_mq mq) n p v =
      pull_exclusive_from fm q l st mq (fm.contents mq) (suc n) refl v
  pull_buffers_refines idle (rw_pr_mqs rmq wmq) n p v =
      pull_rw_pr_idle fm q l _ _ rmq wmq n refl refl v
  pull_buffers_refines read (rw_pr_mqs rmq wmq) n p v = pull_rw_pr_read fm q l rmq wmq (suc n) v
  pull_buffers_refines write (rw_pr_mqs rmq wmq) n p v =
      (rw_pr_mqs rmq wmq, [], refl, refl, refl, v)
  pull_buffers_refines idle (rw_pw_mq mq) n p v = pull_rw_pw_idle fm q l _ mq n refl v
  pull_buffers_refines read (rw_pw_mq mq) n p v = pull_rw_pw_read fm q l mq (suc n) v
  pull_buffers_refines write (rw_pw_mq mq) n p v = (rw_pw_mq mq, [], refl, refl, refl, v)
  pull_buffers_refines lock (rw_pr_mqs rmq wmq) n p v = absurd (p.0 refl)
  pull_buffers_refines lock (rw_pw_mq mq) n p v = absurd (p.0 refl)
  pull_buffers_refines State.init (rw_pr_mqs rmq wmq) n p v = absurd (p.1 refl)
  pull_buffers_refines State.init (rw_pw_mq mq) n p v = absurd (p.1 refl)
  pull_buffers_refines State.destroy (rw_pr_mqs rmq wmq) n p v = absurd (p.2 refl)
  pull_buffers_refines State.destroy (rw_pw_mq mq) n p v = absurd (p.2 refl)

module _ {B T : Type 0} (fm : Fmbuf B (Elem T)) where
  -- A push to a valid queue of an element that its mode takes fails no assertion. It appends the
  -- element, or refuses it exactly if the list that it goes to has `max_slots` elements, and keeps
  -- the queue valid and in its state.
  pub push_refines :
      (q : SkQueue B) (e : Elem T)
      → IsValid fm q
      → fits_mode q.data_ e ≡ true
      → (q' : SkQueue B) × (sk_queue_push fm q e ≡ ok (q', (push_view q.max_slots (view fm q) e).1))
        × (view fm q' ≡ (push_view q.max_slots (view fm q) e).0)
        × IsValid fm q'
        × (q'.state ≡ q.state)
  push_refines q e v fits =
      let (bs, pushed, c, v') = push_buffers_refines fm q v.limit q.data_ e v.buffers fits in
      (record q { data_ = bs }, pushed, c, record { limit = v.limit; buffers = v' }, refl)

  -- A pull from a valid queue in a state that allows it fails no assertion. It writes what `View`
  -- says, of at most `max_slots` elements, leaves the rest, and keeps the queue valid and in its
  -- state.
  pub pull_refines :
      (q : SkQueue B) (n : ℕ)
      → IsValid fm q
      → IsPullable q.data_ q.state
      → 0 < n
      → (q' : SkQueue B) × (ws : Writes T) × (sk_queue_pull fm q n ≡ ok (q', ws))
        × (written ws ≡ (pull_view q.state (min n q.max_slots) (view fm q)).0)
        × (view fm q' ≡ (pull_view q.state (min n q.max_slots) (view fm q)).1)
        × IsValid fm q'
        × (q'.state ≡ q.state)
  unfolding sk_queue_pull Pulls
  pull_refines q n v p pos =
      let least = min n q.max_slots in
      let (bs, ws, got, w, c, v') = capped in
      let cap : (if ltb q.max_slots n then q.max_slots else n) ≡ least = ground arith in
      (
        record q { data_ = bs },
        ws,
        rw (lt→ltb 0 n pos, cap) got,
        w,
        c,
        record { limit = v.limit; buffers = v' },
        refl,
      )
    where
      capped : Pulls fm q v.limit q.state (min n q.max_slots) q.data_
      capped =
          subst (λ m. Pulls fm q v.limit q.state m q.data_) (omega (arith, v.limit.some_slot))
            (pull_buffers_refines fm q v.limit q.state q.data_ (min n q.max_slots - 1) p v.buffers)
