-- ===== src/Queue/View.antt =====
-- What a queue promises: the elements that it holds, oldest first, and what a push and a pull do
-- to them, with no buffers.
use skull.Prelude.{
  ℕ, ◌≡◌, ◌≢◌, Bool, true, false, ◌||◌, List, [], ◌∷◌, ◌++◌, map, length, All, span_upto, ◌==◌,
  if◌then◌else◌,
}
use skull.Fmbuf.{Fmbuf}
use skull.Queue.{
  State, idle, lock, read, Elem, is_read, is_write, is_exclusive, Buffers, exclusive_mq, rw_pr_mqs,
  rw_pw_mq, SkQueue, Writes,
}
use skull.Queue.Buffer.{IsLimit, Holds}

pub data View (T : Type 0) : Type 0 where
  exclusive_view : List (Elem T) → View T
  rw_pr_view : (reads writes : List (Elem T)) → View T
  rw_pw_view : List (Elem T) → View T

module _ {T : Type 0} where
  abbrev pub is_read_elem : Elem T → Bool
  is_read_elem e = is_read e.type

  abbrev pub is_write_elem : Elem T → Bool
  is_write_elem e = is_write e.type

  -- A list of at most `max_slots`, and whether it was full.
  unfoldable pub push_list : ℕ → List (Elem T) → Elem T → List (Elem T) × Bool
  push_list max_slots es e = if length es == max_slots then (es, true) else (es ++ e ∷ [], false)

  -- A queue that prefers reads keeps them apart; each list has the limit to itself.
  unfoldable pub push_view : ℕ → View T → Elem T → View T × Bool
  unfolding push_list
  push_view max_slots (exclusive_view es) e =
      let r = push_list max_slots es e in (exclusive_view r.0, r.1)
  push_view max_slots (rw_pr_view reads writes) e =
      let r = push_list max_slots reads e in
      let w = push_list max_slots writes e in
      if is_read_elem e then (rw_pr_view r.0 writes, r.1) else (rw_pr_view reads w.0, w.1)
  push_view max_slots (rw_pw_view es) e = let r = push_list max_slots es e in (rw_pw_view r.0, r.1)

  -- One write, or the reads before the first write, at most `n` of them.
  unfoldable pub pull_oldest : ℕ → List (Elem T) → List (Elem T) × List (Elem T)
  pull_oldest n [] = ([], [])
  pull_oldest n (e ∷ es) =
      if is_write_elem e then (e ∷ [], es) else span_upto is_read_elem n (e ∷ es)

  -- Reads if there are any, else one write.
  unfoldable pub pull_reads_first :
      ℕ → (reads writes : List (Elem T)) → List (Elem T) × List (Elem T) × List (Elem T)
  pull_reads_first n [] [] = ([], [], [])
  pull_reads_first n [] (w ∷ ws) = (w ∷ [], [], ws)
  pull_reads_first n (r ∷ rs) ws = let p = span_upto is_read_elem n (r ∷ rs) in (p.0, p.1, ws)

  pull_exclusive_view : State → List (Elem T) → List (Elem T) × View T
  pull_exclusive_view lock es = ([], exclusive_view es)
  pull_exclusive_view _ [] = ([], exclusive_view [])
  pull_exclusive_view _ (e ∷ es) = (e ∷ [], exclusive_view es)

  pull_rw_pr_view : State → ℕ → (reads writes : List (Elem T)) → List (Elem T) × View T
  pull_rw_pr_view idle n rs ws = let p = pull_reads_first n rs ws in (p.0, rw_pr_view p.1 p.2)
  pull_rw_pr_view read n rs ws = let p = span_upto is_read_elem n rs in (p.0, rw_pr_view p.1 ws)
  pull_rw_pr_view _ n rs ws = ([], rw_pr_view rs ws)

  pull_rw_pw_view : State → ℕ → List (Elem T) → List (Elem T) × View T
  pull_rw_pw_view idle n es = let p = pull_oldest n es in (p.0, rw_pw_view p.1)
  pull_rw_pw_view read n es = let p = span_upto is_read_elem n es in (p.0, rw_pw_view p.1)
  pull_rw_pw_view _ n es = ([], rw_pw_view es)

  unfoldable pub pull_view : State → ℕ → View T → List (Elem T) × View T
  unfolding pull_exclusive_view pull_rw_pr_view pull_rw_pw_view
  pull_view state n (exclusive_view es) = pull_exclusive_view state es
  pull_view state n (rw_pr_view rs ws) = pull_rw_pr_view state n rs ws
  pull_view state n (rw_pw_view es) = pull_rw_pw_view state n es

  -- What a write into the caller's array holds, without its place.
  abbrev pub written : Writes T → List (Elem T)
  written = map (λ w. w.1)

-- The states in which a pull does not fail its assertion.
abbrev pub IsPullable : {B : Type 0} → Buffers B → State → Type 0
IsPullable (exclusive_mq mq) state = Unit
IsPullable (rw_pr_mqs rmq wmq) state =
    (state ≢ lock) × (state ≢ State.init) × (state ≢ State.destroy)
IsPullable (rw_pw_mq mq) state = (state ≢ lock) × (state ≢ State.init) × (state ≢ State.destroy)

-- The elements that a queue of the mode takes.
abbrev pub fits_mode : {B T : Type 0} → Buffers B → Elem T → Bool
fits_mode (exclusive_mq mq) e = is_exclusive e.type
fits_mode (rw_pr_mqs rmq wmq) e = is_read e.type || is_write e.type
fits_mode (rw_pw_mq mq) e = is_read e.type || is_write e.type

module _ {B T : Type 0} (fm : Fmbuf B (Elem T)) where
  abbrev pub view_buffers : Buffers B → View T
  view_buffers (exclusive_mq mq) = exclusive_view (fm.contents mq)
  view_buffers (rw_pr_mqs rmq wmq) = rw_pr_view (fm.contents rmq) (fm.contents wmq)
  view_buffers (rw_pw_mq mq) = rw_pw_view (fm.contents mq)

  abbrev pub view : SkQueue B → View T
  view q = view_buffers q.data_

  -- Each buffer holds whole elements of the kinds that belong there.
  abbrev pub ValidBuffers : ℕ → ℕ → Buffers B → Type 0
  ValidBuffers sz max (exclusive_mq mq) =
      Holds fm sz max mq × All (λ (e : Elem T). is_exclusive e.type ≡ true) (fm.contents mq)
  ValidBuffers sz max (rw_pr_mqs rmq wmq) =
      Holds fm sz max rmq
      × Holds fm sz max wmq
      × All (λ (e : Elem T). is_read e.type ≡ true) (fm.contents rmq)
      × All (λ (e : Elem T). is_write e.type ≡ true) (fm.contents wmq)
  ValidBuffers sz max (rw_pw_mq mq) =
      Holds fm sz max mq
      × All (λ (e : Elem T). (is_read e.type || is_write e.type) ≡ true) (fm.contents mq)

  pub record IsValid (q : SkQueue B) : Type 0 where
    pub limit : IsLimit q.elem_sz q.max_slots
    pub buffers : ValidBuffers q.elem_sz q.max_slots q.data_
