-- ===== src/Queue/Tests.antt =====
-- Runs of sk_queue.c, and its theorems at small queues.
use skull.Prelude.{ℕ, ◌+◌, ◌*◌, ◌<◌, ◌≡◌, refl, false, List, [], ◌∷◌, ◌++◌, arith}
use skull.Prelude.Checked.{ok}
use skull.Fmbuf.{Fmbuf}
use skull.Fmbuf.Model.{Buf, list_fmbuf}
use skull.Queue.{
  idle, elem_read, elem_write, Elem, rw_pw_mq, SkQueue, Writes, buffer_push, buffer_pull,
  get_new_size, double_size,
}
use skull.Queue.Buffer.{IsLimit}
use skull.Queue.View.{push_view, pull_view, written, view, IsValid}
use skull.Queue.Ops.{sk_queue_push, sk_queue_pull}
use skull.Queue.Refine.{push_refines, pull_refines}
use skull.Queue.Laws.{pull_exclusion, reading, pull_overruns}
use skull.Queue.Together.{all_elems, RunsTogether}

abbrev fm : Fmbuf (Buf (Elem ℕ)) (Elem ℕ)
fm = list_fmbuf

abbrev r : ℕ → Elem ℕ
r n = record { type = elem_read; body = n }

abbrev w : ℕ → Elem ℕ
w n = record { type = elem_write; body = n }

abbrev buf : List (Elem ℕ) → ℕ → ℕ → Buf (Elem ℕ)
buf es n left = record { fill = 8 * n; left = left; elems = es }

-- Two reads and a write in a queue of at most four elements of eight bytes.
abbrev three : Buf (Elem ℕ)
three = buf (r 1 ∷ r 2 ∷ w 3 ∷ []) 3 0

abbrev mixed : SkQueue (Buf (Elem ℕ))
mixed = record { state = idle; elem_sz = 8; max_slots = 4; data_ = rw_pw_mq three }

abbrev limit : IsLimit 8 4
limit = record { some_size = omega arith; some_slot = omega arith; no_wrap = omega arith }

mixed-IsValid : IsValid fm mixed
mixed-IsValid = record {
  limit = limit;
  buffers = (record { whole = refl; within = omega arith }, (refl, (refl, (refl, tt))));
}

-- The buffer is full at three elements and grows by doubling, capped at four.
push_grows :
    sk_queue_push fm mixed (r 4)
    ≡ ok (record mixed { data_ = rw_pw_mq (buf (r 1 ∷ r 2 ∷ w 3 ∷ r 4 ∷ []) 4 0) }, false)
unfolding sk_queue_push buffer_push get_new_size double_size
push_grows = refl

pull_two :
    sk_queue_pull fm mixed 4
    ≡ ok (record mixed { data_ = rw_pw_mq (buf (w 3 ∷ []) 1 16) }, (0, r 1) ∷ (32, r 2) ∷ [])
unfolding sk_queue_pull buffer_pull
pull_two = refl

push_refines_example :
    (q' : SkQueue (Buf (Elem ℕ))) × (sk_queue_push fm mixed (r 4)
      ≡ ok (q', (push_view 4 (view fm mixed) (r 4)).1))
    × (view fm q' ≡ (push_view 4 (view fm mixed) (r 4)).0)
    × IsValid fm q'
    × (q'.state ≡ idle)
push_refines_example = push_refines fm mixed (r 4) mixed-IsValid refl

pull_refines_example :
    (q' : SkQueue (Buf (Elem ℕ))) × (ws : Writes ℕ) × (sk_queue_pull fm mixed 3 ≡ ok (q', ws))
    × (written ws ≡ (pull_view idle 3 (view fm mixed)).0)
    × (view fm q' ≡ (pull_view idle 3 (view fm mixed)).1)
    × IsValid fm q'
    × (q'.state ≡ idle)
pull_refines_example =
    pull_refines fm mixed 3 mixed-IsValid (λ e. cc, λ e. cc, λ e. cc) (omega arith)

pull_exclusion_example :
    (q' : SkQueue (Buf (Elem ℕ))) × (ws : Writes ℕ) × (sk_queue_pull fm mixed 3 ≡ ok (q', ws))
    × RunsTogether idle (written ws)
    × (written ws ++ all_elems (view fm q') ≡ r 1 ∷ r 2 ∷ w 3 ∷ [])
pull_exclusion_example =
    pull_exclusion fm mixed 3 mixed-IsValid tt (λ e. cc, λ e. cc, λ e. cc) (omega arith)

pull_overruns_example :
    (mq' : Buf (Elem ℕ)) × (sk_queue_pull fm (reading three 8 4) 2
      ≡ ok (reading mq' 8 4, (0, r 1) ∷ (32, r 2) ∷ []))
    × (16 < 32 + 8)
pull_overruns_example =
    pull_overruns fm three 8 4 (r 1) (r 2) (w 3 ∷ [])
      (record { limit = limit; buffers = mixed-IsValid.buffers }) refl refl refl (omega arith)
