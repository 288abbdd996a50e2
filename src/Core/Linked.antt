-- ===== src/Core/Linked.antt =====
-- One more engine is linked both ways, where the master has room for a bridge.
use skull.Prelude.{
  ℕ, zero, suc, ◌*◌, ◌≤◌, ◌<◌, ◌≡◌, ◌≢◌, refl, sym, ap, ◌∙◌, Bool, List, [], ◌∷◌, ◌++◌, map, length,
  length-append, arith,
}
use mathlib.Core.List.{map-append}
use native.Mathlib.Decide.{ℕ_discrete}
use skull.Fmbuf.{Fmbuf}
use skull.Config.{ok, assert_failed, ◌>>=◌}
use skull.Sched.{Event, Bridge, Sched}
use skull.Core.Engines.{master, Scheds, update, routable, sk_engine_link, setup_worker, setup_bio}
use skull.Sched.Ops.{sk_event_sz, max_io_bridge}

-- The numbers from 1 to n.
abbrev pub upto : ℕ → List ℕ
upto zero = []
upto (suc n) = upto n ++ suc n ∷ []

length-upto : (n : ℕ) → length (upto n) ≡ n
length-upto zero = refl
length-upto (suc n) = omega (arith, length-append (upto n) (suc n ∷ []), length-upto n)

-- Where bridges lead, and whether the round robin may take them.
abbrev pub links : {B : Type 0} → List (Bridge B) → List (ℕ × Bool)
links [] = []
links (b ∷ bs) = (b.dst, b.routable) ∷ links bs

links-append : {B : Type 0} (cs bs : List (Bridge B)) → links (cs ++ bs) ≡ links cs ++ links bs
links-append [] bs = refl
links-append (c ∷ cs) bs = ap (λ ls. (c.dst, c.routable) ∷ ls) (links-append cs bs)

length-links : {B : Type 0} (bs : List (Bridge B)) → length (links bs) ≡ length bs
length-links [] = refl
length-links (b ∷ bs) = ap suc (length-links bs)

length-map : {A C : Type 0} (f : A → C) (xs : List A) → length (map f xs) ≡ length xs
length-map f [] = refl
length-map f (x ∷ xs) = ap suc (length-map f xs)

abbrev pub to : (threads : ℕ) → ℕ → ℕ × Bool
to threads e = (e, routable threads e)

-- The first n engines behind the master have a bridge to it, and it has one to each, in order.
pub record IsLinked {B : Type 0} (threads n : ℕ) (b : Scheds B) : Type 0 where
  pub from_master : links (b master).bridge_tbl ≡ map (to threads) (upto n)
  pub to_master : (e : ℕ) → 0 < e → e ≤ n → links (b e).bridge_tbl ≡ to threads master ∷ []
  pub unlinked : (e : ℕ) → n < e → (b e).bridge_tbl ≡ []

module _ {B : Type 0} (b : Scheds B) (src e : ℕ) (s : Sched B) where
  update_self : src ≡ e → update b src s e ≡ s
  update_self h = ground (arith, h)

  update_ne : e ≢ src → update b src s e ≡ b e
  update_ne h = ground (arith, h)

module _ {B : Type 0} (fm : Fmbuf B Event) (threads : ℕ) where
  abbrev linked : ℕ → Sched B → Sched B
  linked dst s = record s {
    bridge_tbl =
        s.bridge_tbl
        ++ record {
          dst = dst;
          routable = routable threads dst;
          mq = fm.create (sk_event_sz * 65535);
        }
          ∷ [];
  }

  link-ok :
      (src dst : ℕ) (b : Scheds B)
      → length (b src).bridge_tbl < max_io_bridge
      → sk_engine_link fm threads src dst b ≡ ok (update b src (linked dst (b src)))
  unfolding sk_engine_link
  link-ok src dst b h = ground (arith, h)

  link-full :
      (src dst : ℕ) (b : Scheds B)
      → length (b src).bridge_tbl ≡ max_io_bridge
      → sk_engine_link fm threads src dst b ≡ assert_failed
  unfolding sk_engine_link
  link-full src dst b h = ground (arith, h)

  length-master : (n : ℕ) (b : Scheds B) → IsLinked threads n b → length (b master).bridge_tbl ≡ n
  length-master n b l =
      sym (length-links (b master).bridge_tbl)
      ∙ ap length l.from_master
      ∙ length-map (to threads) (upto n)
      ∙ length-upto n

  -- One more engine is linked both ways.
  extend :
      (n : ℕ) (b b' : Scheds B)
      → IsLinked threads n b
      → (b' master).bridge_tbl ≡ (linked (suc n) (b master)).bridge_tbl
      → (b' (suc n)).bridge_tbl ≡ (linked master (b (suc n))).bridge_tbl
      → ((e : ℕ) → e ≢ master → e ≢ suc n → (b' e).bridge_tbl ≡ (b e).bridge_tbl)
      → IsLinked threads (suc n) b'
  extend n b b' l at_master at_engine elsewhere = record {
    from_master =
        ap links at_master
        ∙ links-append (b master).bridge_tbl _
        ∙ ap (λ ls. ls ++ to threads (suc n) ∷ []) l.from_master
        ∙ sym (map-append (to threads) (upto n) (suc n ∷ []));
    to_master = λ e pos le. elim (ℕ_discrete e (suc n)) [
      | yes same ↦
          ap (λ i. links (b' i).bridge_tbl) same
          ∙ ap links (
              at_engine
              ∙ ap
                  (λ bs.
                    bs
                    ++ record {
                      dst = master;
                      routable = routable threads master;
                      mq = fm.create (sk_event_sz * 65535);
                    }
                      ∷ [])
                  (l.unlinked (suc n) (omega arith)))
      | no other ↦
          ap links (elsewhere e (λ h. absurd (omega (arith, h, pos))) other)
          ∙ l.to_master e pos (omega (arith, le, other))
    ];
    unlinked = λ e lt.
        elsewhere e (λ h. absurd (omega (arith, h, lt))) (λ h. absurd (omega (arith, h, lt)))
        ∙ l.unlinked e (omega (arith, lt));
  }

  pub setup_worker-IsLinked :
      (n : ℕ) (b : Scheds B)
      → n < max_io_bridge
      → IsLinked threads n b
      → (b' : Scheds B) × (setup_worker fm threads (suc n) b ≡ ok b') × IsLinked threads (suc n) b'
  unfolding setup_worker
  setup_worker-IsLinked n b small l =
      let b₁ = update b master (linked (suc n) (b master)) in
      let b₂ = update b₁ (suc n) (linked master (b₁ (suc n))) in
      let apart : suc n ≢ master = λ h. absurd (omega (arith, h)) in
      let kept = update_ne b master (suc n) (linked (suc n) (b master)) apart in
      let tbl = ap (λ s. length s.bridge_tbl) kept ∙ ap length (l.unlinked (suc n) (omega arith)) in
      let at_master =
        update_ne b₁ (suc n) master (linked master (b₁ (suc n))) (λ h. apart (sym h))
        ∙ update_self b master master (linked (suc n) (b master)) refl in
      let at_engine =
        update_self b₁ (suc n) (suc n) (linked master (b₁ (suc n))) refl
        ∙ ap (linked master) kept in
      (
        b₂,
        ap (λ m. m >>= sk_engine_link fm threads (suc n) master)
              (link-ok master (suc n) b (omega (arith, length-master n b l, small)))
            ∙ link-ok (suc n) master b₁ (omega (arith, tbl)),
        extend n b b₂ l (ap (λ s. s.bridge_tbl) at_master) (ap (λ s. s.bridge_tbl) at_engine)
            (λ e h k.
              ap (λ s. s.bridge_tbl)
                (update_ne b₁ (suc n) e (linked master (b₁ (suc n))) k
                  ∙ update_ne b master e (linked (suc n) (b master)) h)),
      )

  pub setup_bio-IsLinked :
      (n : ℕ) (b : Scheds B)
      → n < max_io_bridge
      → IsLinked threads n b
      → (b' : Scheds B) × (setup_bio fm threads (suc n) b ≡ ok b') × IsLinked threads (suc n) b'
  unfolding setup_bio
  setup_bio-IsLinked n b small l =
      let b₁ = update b (suc n) (linked master (b (suc n))) in
      let b₂ = update b₁ master (linked (suc n) (b₁ master)) in
      let free : length (b (suc n)).bridge_tbl < max_io_bridge =
        omega (arith, ap length (l.unlinked (suc n) (omega arith))) in
      let apart : master ≢ suc n = λ h. absurd (omega (arith, h)) in
      let kept = update_ne b (suc n) master (linked master (b (suc n))) apart in
      let at_master =
        update_self b₁ master master (linked (suc n) (b₁ master)) refl ∙ ap (linked (suc n)) kept in
      let at_engine =
        update_ne b₁ master (suc n) (linked (suc n) (b₁ master)) (λ h. apart (sym h))
        ∙ update_self b (suc n) (suc n) (linked master (b (suc n))) refl in
      (
        b₂,
        ap (λ m. m >>= sk_engine_link fm threads master (suc n)) (link-ok (suc n) master b free)
            ∙ link-ok master (suc n) b₁
                (omega (arith, ap (λ s. length s.bridge_tbl) kept, length-master n b l, small)),
        extend n b b₂ l (ap (λ s. s.bridge_tbl) at_master) (ap (λ s. s.bridge_tbl) at_engine)
            (λ e h k.
              ap (λ s. s.bridge_tbl)
                (update_ne b₁ master e (linked (suc n) (b₁ master)) h
                  ∙ update_ne b (suc n) e (linked master (b (suc n))) k)),
      )

  -- With the table of the master full, the next engine fails the assertion.
  pub setup_worker-full :
      (n : ℕ) (b : Scheds B)
      → n ≡ max_io_bridge
      → IsLinked threads n b
      → setup_worker fm threads (suc n) b ≡ assert_failed
  unfolding setup_worker
  setup_worker-full n b full l =
      ap (λ m. m >>= sk_engine_link fm threads (suc n) master)
        (link-full master (suc n) b (length-master n b l ∙ full))

  pub setup_bio-full :
      (n : ℕ) (b : Scheds B)
      → n ≡ max_io_bridge
      → IsLinked threads n b
      → setup_bio fm threads (suc n) b ≡ assert_failed
  unfolding setup_bio
  setup_bio-full n b full l =
      let b₁ = update b (suc n) (linked master (b (suc n))) in
      let free : length (b (suc n)).bridge_tbl < max_io_bridge =
        omega (arith, ap length (l.unlinked (suc n) (omega arith))) in
      let kept =
        update_ne b (suc n) master (linked master (b (suc n))) (λ h. absurd (omega (arith, h))) in
      ap (λ m. m >>= sk_engine_link fm threads master (suc n)) (link-ok (suc n) master b free)
      ∙ link-full master (suc n) b₁
          (ap (λ s. length s.bridge_tbl) kept ∙ length-master n b l ∙ full)
