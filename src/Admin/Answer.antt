-- ===== src/Admin/Answer.antt =====
-- What the commands of src/components/sk_admin.c answer: its lines, and the counters of the entities
-- that the status shows.
use skull.Prelude.{
  ℕ, ◌+◌, ◌-◌, Bool, true, false, not, ◌&&◌, Option, none, some, List, [], ◌∷◌, ◌++◌, length, ltb,
  leb, ◌==◌, if◌then◌else◌,
}
use skull.Prelude.Int.{pos, ◌+ℤ◌}
use skull.Prelude.Index.{take}
use skull.Fmbuf.{Fmbuf}
use skull.EntityMgr.{Stat}
use skull.Config.{Bytes, Loaded, ok, undefined, ◌>>=◌}

-- What an array of `n` bytes holds of a line that is printed into it, up to the line's length where
-- that is at most `n`.
unfoldable pub printed : ℕ → Bytes → Bytes
printed n line = if ltb (length line) n then line else take (n - 1) line ++ 0 ∷ []

module _ {B : Type 0} (fm : Fmbuf B Bytes) where
  -- `line` is what the format gives; as many bytes as it has are pushed, from an array of 1024.
  unfoldable pub append_line : B → Bytes → Loaded B
  unfolding printed
  append_line b line = elim (fm.push b (printed 1024 line) (length line)) [
    | none ↦ ok b
    | some b' ↦ if leb (length line) 1024 then ok b' else undefined
  ]

  -- `_mon_cb` for a line printed into an array of 256 bytes, and whether it is pushed.
  unfoldable pub mon_cb : B → Bytes → Loaded (B × Bool)
  unfolding printed
  mon_cb b line =
      let push_line : B → Option B = λ b1. fm.push b1 (printed 256 line) (length line) in
      let pushed : B → Loaded (B × Bool) =
        λ b1. if leb (length line) 256 then ok (b1, true) else undefined in
      elim (push_line b) [
        | some b1 ↦ pushed b1
        | none ↦
            let larger = fm.realloc b (fm.size b + 1024) in
            elim (push_line larger) [ some b2 ↦ pushed b2 | none ↦ ok (larger, false) ]
      ]

  -- `_transport_mon_snapshot`, over the lines of a snapshot
  unfoldable pub transport_mon_snapshot : B → List Bytes → Loaded B
  unfolding mon_cb
  transport_mon_snapshot b [] = ok b
  transport_mon_snapshot b (line ∷ lines) = do r ← mon_cb b line; transport_mon_snapshot r.0 lines

-- The types whose counters are added: not 1, `entity_std`, nor 11, `entity_ep_timer`.
unfoldable pub is_merged : ℕ → Bool
is_merged type = not (type == 1) && not (type == 11) && ltb type 13

unfoldable pub merge_one_stat : Stat → Stat → Stat
unfolding is_merged ◌+ℤ◌
merge_one_stat target stat = record {
  total = target.total +ℤ stat.total;
  inactive = target.inactive +ℤ stat.inactive;
  of_type = λ type.
      if is_merged type then target.of_type type +ℤ stat.of_type type else target.of_type type;
}

-- Of an engine the counters of its managers: its own and the two of its endpoint pool.
pub record EngineStat : Type 0 where
  pub entity_mgr : Stat
  pub ep_tcp : Stat
  pub ep_udp : Stat

unfoldable pub merge_stat : Stat → EngineStat → Stat
unfolding merge_one_stat
merge_stat target engine =
    merge_one_stat (merge_one_stat (merge_one_stat target engine.entity_mgr) engine.ep_tcp)
      engine.ep_udp

unfoldable pub merge_engines : Stat → List EngineStat → Stat
unfolding merge_stat
merge_engines target [] = target
merge_engines target (e ∷ es) = merge_engines (merge_stat target e) es

-- `stat`, as `_status_entity` prints it
unfoldable pub status_entity : EngineStat → (workers bio : List EngineStat) → Stat
unfolding merge_engines merge_stat
status_entity master workers bio =
    let none_yet : Stat = record { total = pos 0; inactive = pos 0; of_type = λ type. pos 0 } in
    merge_engines (merge_engines (merge_stat none_yet master) workers) bio
