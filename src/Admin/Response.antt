-- ===== src/Admin/Response.antt =====
-- The lines of counters in the answer.
use skull.Prelude.{
  ℕ, ◌+◌, ◌≤◌, ◌<◌, ◌≡◌, refl, sym, ap, ◌∙◌, true, false, Bool-cases, leb, leb→le, inl, inr, List,
  [], ◌∷◌, ◌++◌, ltb, append_assoc, append-nil, length, All, arith,
}
use skull.Fmbuf.{Fmbuf}
use skull.Config.{Bytes, ok, undefined}
use skull.Admin.Answer.{printed, append_line, mon_cb, transport_mon_snapshot}

lt→leb : (m n : ℕ) → m < n → leb n m ≡ false
lt→leb m n h = ground arith

module _ {B : Type 0} (fm : Fmbuf B Bytes) where
  mon_cb-contents :
      (b : B) (line : Bytes)
      → length line < 256
      → (b' : B) × (mon_cb fm b line ≡ ok (b', true))
        × (fm.contents b' ≡ fm.contents b ++ line ∷ [])
  unfolding mon_cb
  mon_cb-contents b line h =
      let sz = length line in
      let whole : ltb sz 256 ≡ true = ground (arith, h) in
      let in_array : leb sz 256 ≡ true = ground (arith, h) in
      elim (Bool-cases (leb (fm.used b + sz) (fm.size b))) [
        | inl fits ↦
            let (b1, e, c, u, s) = fm.push-fits b line sz (leb→le _ _ fits) in
            (b1, ground (arith, whole, e, in_array), c)
        | inr full ↦
            let larger = fm.size b + 1024 in
            let kept = fm.realloc_lem b larger (omega (arith, fm.used-le-size b)) in
            let room : fm.used (fm.realloc b larger) + sz ≤ fm.size (fm.realloc b larger) =
              omega (arith, h, kept.1, kept.2, fm.used-le-size b) in
            let (b1, e, c, u, s) = fm.push-fits (fm.realloc b larger) line sz room in
            let no_room = fm.push-full b line sz (ground (arith, full)) in
            (b1, ground (arith, whole, no_room, e, in_array), c ∙ ap (λ es. es ++ line ∷ []) kept.0)
      ]

  -- Every line of less than 256 bytes that a snapshot has is in the answer, in order, behind what was
  -- there, whatever room the answer had.
  pub transport_mon_snapshot-contents :
      (b : B) (lines : List Bytes)
      → All (λ line. length line < 256) lines
      → (b' : B) × (transport_mon_snapshot fm b lines ≡ ok b')
        × (fm.contents b' ≡ fm.contents b ++ lines)
  unfolding transport_mon_snapshot
  transport_mon_snapshot-contents b [] h = (b, refl, sym (append-nil (fm.contents b)))
  transport_mon_snapshot-contents b (line ∷ lines) h =
      let (b1, e1, c1) = mon_cb-contents b line h.0 in
      let (b2, e2, c2) = transport_mon_snapshot-contents b1 lines h.1 in
      (b2, rw e1 e2, c2 ∙ rw c1 (append_assoc (fm.contents b) (line ∷ []) lines))

  -- For a line of more than 1024 bytes the push reads behind the array, unless there is no room.
  append_line-undefined :
      (b : B) (line : Bytes)
      → 1024 < length line
      → fm.used b + length line ≤ fm.size b
      → append_line fm b line ≡ undefined
  unfolding append_line
  append_line-undefined b line long room =
      let (b1, e, c, u, s) = fm.push-fits b (printed 1024 line) (length line) room in
      let beyond : leb (length line) 1024 ≡ false = lt→leb 1024 (length line) long in
      ground (e, beyond, arith)
