-- ===== src/Pto/Tests.antt =====
-- Messages that src/pto/sk_pto.c packs, checks and reads.
use skull.Prelude.{ℕ, ◌≡◌, ◌≢◌, refl, false, some, List, [], ◌∷◌, ◌++◌, arith}
use skull.Prelude.Checked.{ok, ◌>>=◌}
use skull.Pto.{Proto, sk_pto_pack, sk_pto_check, sk_pto_arg, char_value}
use skull.Pto.Laws.{sk_pto_arg-sk_pto_pack, sk_pto_check-byte}

abbrev task_done : Proto
task_done = record { id = 5; pri = 6; argc = 3; salt = 15 }

abbrev args : List (List ℕ)
args =
    (1 ∷ 0 ∷ 0 ∷ 0 ∷ 0 ∷ 0 ∷ 0 ∷ 0 ∷ [])
    ∷ (200 ∷ 2 ∷ 0 ∷ 0 ∷ 0 ∷ 0 ∷ 0 ∷ 255 ∷ [])
    ∷ (0 ∷ 7 ∷ 0 ∷ 0 ∷ 9 ∷ 0 ∷ 0 ∷ 0 ∷ [])
    ∷ []

sk_pto_arg-sk_pto_pack_example :
    (sk_pto_pack 5 args >>= λ hdr. sk_pto_arg 5 hdr 1)
    ≡ ok (some (200 ∷ 2 ∷ 0 ∷ 0 ∷ 0 ∷ 0 ∷ 0 ∷ 255 ∷ []))
sk_pto_arg-sk_pto_pack_example =
    sk_pto_arg-sk_pto_pack 5 task_done args 1 _ refl refl (refl, (refl, (refl, tt))) refl

abbrev before : List ℕ
before = 1 ∷ 0 ∷ 0 ∷ 0 ∷ 0 ∷ 0 ∷ 0 ∷ 0 ∷ []

abbrev after : List ℕ
after = 2 ∷ 0 ∷ 0 ∷ 0 ∷ 0 ∷ 0 ∷ 255 ∷ 0 ∷ 7 ∷ 0 ∷ 0 ∷ 9 ∷ 0 ∷ 0 ∷ 0 ∷ []

other : char_value 200 ≢ char_value 0
unfolding char_value
other e = cc

sk_pto_check-byte_example :
    (sk_pto_pack 5 args >>= λ hdr.
    sk_pto_check 5
      (record { id = hdr.id; argc = hdr.argc; chk = hdr.chk; body = before ++ 0 ∷ after }))
    ≡ ok false
sk_pto_check-byte_example =
    sk_pto_check-byte 5 task_done args before after 200 0 refl refl (refl, (refl, (refl, tt))) refl
      (omega arith) (omega arith) other
