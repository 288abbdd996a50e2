-- ===== src/Service/Data.antt =====
-- The data of a service, src/common/sk_service_data.c, and who may have it, src/components/sk_service.c.
use skull.Prelude.{ℕ, ◌≡◌, ◌≢◌, refl, sym, ◌∙◌, ◌↔◌, [], ◌∷◌, All, subst, true, Option, none, some}
use skull.Prelude.Checked.{Checked, ok, assert_failed, ◌>>=◌}
use skull.Fmbuf.{Fmbuf}
use skull.Queue.{
  Mode, State, idle, read, write, lock, ElemType, elem_exclusive, elem_read, elem_write, Elem,
  is_read, is_write, SkQueue,
}
use skull.Queue.Buffer.{IsLimit}
use skull.Queue.Ops.{sk_queue_create}
use skull.Service.{Task, Service}
use skull.Service.Inv.{Runs}
use skull.Service.System.{System, Reach}
use skull.Service.Running.{running}
use skull.Service.Exclusion.{start, reach}

-- `sk_srv_data_t`, where `data_` is a pointer, none for a null pointer.
pub record SrvData : Type 0 where
  pub mode : ℕ
  pub data_ : Option ℕ

unfoldable pub sk_srv_data_create : ℕ → SrvData
sk_srv_data_create mode = record { mode = mode; data_ = none }

abbrev pub sk_srv_data_get : SrvData → Option ℕ
sk_srv_data_get d = d.data_

abbrev pub sk_srv_data_set : SrvData → Option ℕ → SrvData
sk_srv_data_set d data_ = record d { data_ = data_ }

-- The switch of `sk_service_data` and of `sk_service_data_set`.
abbrev pub may_write : {A : Type 0} → State → A → Checked A
may_write State.init a = ok a
may_write State.destroy a = ok a
may_write write a = ok a
may_write idle a = assert_failed
may_write read a = assert_failed
may_write lock a = assert_failed

-- `sk_service_data`
unfoldable pub sk_service_data : {B : Type 0} → Service B → SrvData → Checked (Option ℕ)
sk_service_data s d = may_write s.pending_tasks.state (sk_srv_data_get d)

-- `sk_service_data_const`
unfoldable pub sk_service_data_const : {B : Type 0} → Service B → SrvData → Checked (Option ℕ)
sk_service_data_const s d = ok (sk_srv_data_get d)

-- `sk_service_data_set`
unfoldable pub sk_service_data_set : {B : Type 0} → Service B → SrvData → Option ℕ → Checked SrvData
sk_service_data_set s d data_ = may_write s.pending_tasks.state (sk_srv_data_set d data_)

apart : (t : ElemType) → is_read t ≡ true → is_write t ≡ true → ⊥
apart elem_exclusive r w = cc
apart elem_read r w = cc
apart elem_write r w = cc

empty-cons : (t : Elem Task) → [] ≡ t ∷ [] → ⊥
empty-cons t e = cc

module _ (bio_cnt : ℕ) {B : Type 0} (fm : Fmbuf B (Elem Task)) (mode : Mode) (sz max : ℕ)
    (q : SkQueue B) (y : System B) (l : IsLimit sz max) (ne : mode ≢ Mode.exclusive)
    (made : sk_queue_create fm mode sz 0 max ≡ ok (some q))
    (r : Reach bio_cnt fm (start bio_cnt fm q) y) where
  -- In every state that a service with a read-write queue reaches from its start, setting its data
  -- and reading it mutably gives back what was set where one task runs and it is a write, and only
  -- there; elsewhere it fails an assertion.
  pub sk_service_data_exclusive :
      (d : SrvData) (data_ : Option ℕ)
      → ((sk_service_data_set y.svc d data_ >>= sk_service_data y.svc) ≡ ok data_)
        ↔ ((w : Elem Task) × (running y.flight ≡ w ∷ []) × (is_write w.type ≡ true))
  unfolding sk_service_data sk_service_data_set
  sk_service_data_exclusive d data_ =
      by_state y.svc.pending_tasks.state ((reach bio_cnt fm mode sz max q y l ne made r).inv.runs)
    where
      by_state :
          (st : State)
          → Runs st (running y.flight)
          → ((may_write st (sk_srv_data_set d data_) >>= λ d. may_write st (sk_srv_data_get d))
              ≡ ok data_)
            ↔ ((w : Elem Task) × (running y.flight ≡ w ∷ []) × (is_write w.type ≡ true))
      by_state idle h = (λ e. cc, λ (w, one, _). absurd (empty-cons w (sym h ∙ one)))
      by_state read h = (
        λ e. cc,
        λ (w, one, writes). absurd (
            apart w.type (subst (All (λ (t : Elem Task). is_read t.type ≡ true)) one h.0).0 writes),
      )
      by_state write h = (λ e. h, λ w. refl)
      by_state lock h = absurd h
      by_state State.init h = absurd h
      by_state State.destroy h = absurd h
