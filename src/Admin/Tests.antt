-- ===== src/Admin/Tests.antt =====
-- Commands as they come in, and the theorems at some of them.
use skull.Prelude.{ℕ, ◌<◌, ◌≡◌, ◌≢◌, ◌⊎◌, refl, true, false, none, some, List, [], ◌∷◌, ◌++◌, arith}
use skull.Prelude.Int.{pos}
use skull.Fmbuf.{Fmbuf}
use skull.Fmbuf.Model.{Buf, list_fmbuf}
use skull.EntityMgr.{Stat}
use skull.Config.{Bytes, codes, ok}
use skull.Config.Values.{has_char}
use skull.Admin.{
  AdminData, Call, process_memory_info, sk_mem_trace, append_response, admin_unpack, admin_run,
  byte_at_end, process_subcommand,
}
use skull.Admin.Answer.{EngineStat, status_entity, transport_mon_snapshot}
use skull.Admin.Unpack.{join, line_end, admin_unpack-join}
use skull.Admin.Run.{admin_run-admin_unpack}
use skull.Admin.Response.{transport_mon_snapshot-contents}
use skull.Admin.Entities.{of_type, sum_engines, status_entity_lem}

abbrev fm : Fmbuf (Buf Bytes) Bytes
fm = list_fmbuf

trace_level :
    process_subcommand (codes "trace=5")
    ≡ ok (sk_mem_trace (pos 5) ∷ process_memory_info false ∷ [])
unfolding process_subcommand
trace_level = refl

trace_negative :
    process_subcommand (codes "trace=-5")
    ≡ ok (
        append_response (codes "Error: Invalid tracing level\n\n") ∷ process_memory_info false ∷ [])
unfolding process_subcommand
trace_negative = refl

admin_unpack-join_example :
    admin_unpack fm (join (codes "memory") (codes "trace=2" ∷ []) ++ line_end true)
    ≡ ok (
      16,
      some (record {
        ignore = false;
        argc = 2;
        command = codes "memory" ∷ codes "trace=2" ∷ [];
        response = fm.create 8192;
      }),
    )
unfolding has_char
admin_unpack-join_example =
    admin_unpack-join fm true (codes "memory") (codes "trace=2" ∷ []) (refl, (refl, tt))
      (omega arith) (ground arith) (omega arith) (omega arith) tt

abbrev two_bytes : Bytes
two_bytes = 0 ∷ 10 ∷ []

admin_run-admin_unpack_example :
    ((byte_at_end 1 two_bytes 10 ≡ false) × (admin_unpack fm two_bytes ≡ ok (0, none)))
    ⊎ ((byte_at_end 1 two_bytes 10 ≡ true)
        × ((d : AdminData (Buf Bytes)) × (calls : List Call) × (admin_unpack fm two_bytes
              ≡ ok (2, some d))
            × (admin_run d ≡ ok calls)))
admin_run-admin_unpack_example = admin_run-admin_unpack fm 0 (10 ∷ [])

transport_mon_snapshot-contents_example :
    (b' : Buf Bytes) × (transport_mon_snapshot fm
        (fm.create 3)
        (codes "a 1.0\n" ∷ codes "b 2.0\n" ∷ [])
      ≡ ok b')
    × (b'.elems ≡ codes "a 1.0\n" ∷ codes "b 2.0\n" ∷ [])
transport_mon_snapshot-contents_example =
    transport_mon_snapshot-contents fm (fm.create 3) (codes "a 1.0\n" ∷ codes "b 2.0\n" ∷ [])
      (omega arith)

abbrev one_each : Stat
one_each = record { total = pos 13; inactive = pos 1; of_type = λ type. pos 1 }

abbrev engine : EngineStat
engine = record { entity_mgr = one_each; ep_tcp = one_each; ep_udp = one_each }

status_entity_lem_example :
    let shown = status_entity engine (engine ∷ []) [] in
    let engines = engine ∷ engine ∷ [] in
    (shown.total ≡ sum_engines (λ s. s.total) engines)
    × (shown.inactive ≡ sum_engines (λ s. s.inactive) engines)
    × ((type : ℕ)
        → type < 13
        → type ≢ 1
        → type ≢ 11
        → shown.of_type type ≡ sum_engines (of_type type) engines)
    × (shown.of_type 1 ≡ pos 0)
    × (shown.of_type 11 ≡ pos 0)
status_entity_lem_example = status_entity_lem engine (engine ∷ []) []

status_two : (status_entity engine (engine ∷ []) []).total ≡ pos 78
unfolding status_entity
status_two = refl
