-- ===== src/Queue/Create.antt =====
-- `sk_queue_create` and `sk_queue_setstate`.
use native.Mathlib.Nat.{mod-eq_of_lt, mul-div_cancel}
use skull.Prelude.{
  ℕ, ◌*◌, ◌/◌, ◌%◌, ◌^◌, ◌≤◌, ◌<◌, ◌≡◌, ◌≢◌, refl, ◌⊎◌, true, none, some, [], ◌==◌, ==_iff, arith,
}
use skull.Prelude.Checked.{ok}
use skull.Fmbuf.{Fmbuf}
use skull.Queue.{Mode, State, idle, lock, Elem, Buffers, exclusive_mq, rw_pr_mqs, rw_pw_mq, SkQueue}
use skull.Queue.Buffer.{IsLimit, Holds}
use skull.Queue.View.{view_buffers, view, ValidBuffers, IsValid}
use skull.Queue.Ops.{sk_queue_create, create_buffers, sk_queue_setstate}
use skull.Queue.Together.{all_elems, IsReadWrite}

unfoldable pub mode_of : {B : Type 0} → Buffers B → Mode
mode_of (exclusive_mq mq) = Mode.exclusive
mode_of (rw_pr_mqs rmq wmq) = Mode.rw_pr
mode_of (rw_pw_mq mq) = Mode.rw_pw

module _ {B T : Type 0} (fm : Fmbuf B (Elem T)) where
  created : (sz max n : ℕ) → n ≤ max * sz → Holds fm sz max (fm.create n)
  created sz max n h =
      let (s, u, c) = fm.create_lem n in
      record { whole = rw (u, c) (omega arith); within = omega (arith, s, h) }

  create_buffers_lem :
      (mode : Mode) (sz init max : ℕ)
      → IsLimit sz max
      → init ≤ max
      → ValidBuffers fm sz max (create_buffers fm mode sz init)
        × (all_elems (view_buffers fm (create_buffers fm mode sz init)) ≡ [])
        × (mode_of (create_buffers fm mode sz init) ≡ mode)
  unfolding create_buffers mode_of
  create_buffers_lem mode sz init max l h = by_mode mode
    where
      within : sz * init ≤ max * sz
      within = grind (arith, h)

      one : sz * 1 ≤ max * sz
      one = grind (arith, l.some_slot)

      empty : (n : ℕ) → fm.contents (fm.create n) ≡ []
      empty n = (fm.create_lem n).2

      by_mode :
          (m : Mode)
          → ValidBuffers fm sz max (create_buffers fm m sz init)
            × (all_elems (view_buffers fm (create_buffers fm m sz init)) ≡ [])
            × (mode_of (create_buffers fm m sz init) ≡ m)
      by_mode Mode.exclusive =
          ((created sz max (sz * init) within, rw (empty (sz * init)) tt), empty (sz * init), refl)
      by_mode Mode.rw_pr = (
        (
          created sz max (sz * init) within,
          created sz max (sz * 1) one,
          rw (empty (sz * init)) tt,
          rw (empty (sz * 1)) tt,
        ),
        rw (empty (sz * init), empty (sz * 1)) refl,
        refl,
      )
      by_mode Mode.rw_pw =
          ((created sz max (sz * init) within, rw (empty (sz * init)) tt), empty (sz * init), refl)

  -- Within the limits a queue of the mode asked for is created: valid, idle and empty.
  pub sk_queue_create_lem :
      (mode : Mode) (sz init max : ℕ)
      → IsLimit sz max
      → init ≤ max
      → (q : SkQueue B) × (sk_queue_create fm mode sz init max ≡ ok (some q))
        × IsValid fm q
        × (q.state ≡ idle)
        × (all_elems (view fm q) ≡ [])
        × (mode_of q.data_ ≡ mode)
        × (q.max_slots ≡ max)
  unfolding sk_queue_create
  sk_queue_create_lem mode sz init max l h =
      let (v, e, m) = create_buffers_lem mode sz init max l h in
      (
        record {
          state = idle;
          elem_sz = sz;
          max_slots = max;
          data_ = create_buffers fm mode sz init;
        },
        ground (arith, l.some_slot, divides),
        record { limit = l; buffers = v },
        refl,
        e,
        m,
        refl,
      )
    where
      divides : (sz * max % 2 ^ 64 / max == sz) ≡ true
      divides = (==_iff (sz * max % 2 ^ 64 / max) sz).1 (
          rw (mod-eq_of_lt {n = sz * max} {m = 2 ^ 64} (omega (arith, l.no_wrap)))
            (mul-div_cancel sz l.some_slot))

  -- Limits that make no sense give `NULL`.
  pub sk_queue_create-none :
      (mode : Mode) (sz init max : ℕ)
      → (max ≡ 0) ⊎ (max < init)
      → sk_queue_create fm mode sz init max ≡ ok none
  unfolding sk_queue_create
  sk_queue_create-none mode sz init max h = ground arith

-- A read-write queue may be put in any state but the one for exclusive use.
pub setstate_read_write :
    {B : Type 0} (q : SkQueue B) (st : State)
    → IsReadWrite q.data_
    → st ≢ lock
    → sk_queue_setstate q st ≡ ok (record q { state = st })
unfolding sk_queue_setstate
setstate_read_write {B} q st k ne = by_mode q.data_ st k ne
  where
    by_mode :
        (bs : Buffers B) (x : State)
        → IsReadWrite bs
        → x ≢ lock
        → sk_queue_setstate (record q { data_ = bs }) x ≡ ok (record q { data_ = bs; state = x })
    by_mode (exclusive_mq mq) x k ne = absurd k
    by_mode (rw_pr_mqs rmq wmq) lock k ne = absurd (ne refl)
    by_mode (rw_pr_mqs rmq wmq) x k ne = refl
    by_mode (rw_pw_mq mq) lock k ne = absurd (ne refl)
    by_mode (rw_pw_mq mq) x k ne = refl
