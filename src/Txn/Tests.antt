-- ===== src/Txn/Tests.antt =====
-- A log and an output that grow.
use skull.Prelude.{◌≡◌, refl, List, [], ◌∷◌, ◌++◌, map, arith}
use skull.Prelude.Checked.{ok}
use skull.Prelude.Index.{take}
use skull.Fmbuf.{Fmbuf}
use skull.Fmbuf.Model.{Buf, list_fmbuf}
use skull.Txn.Mbuf.{Bytes, SkMbuf, mbuf_new_size}
use skull.Txn.Log.{log_all, log_all-contents}
use skull.Txn.Output.{flat, append_all, append_all-contents}

abbrev fm : Fmbuf (Buf Bytes) Bytes
fm = list_fmbuf

-- A buffer of 4 bytes that is to have 8 at most.
abbrev small : SkMbuf (Buf Bytes)
small = record { buf = fm.create 4; max_sz = 8 }

mbuf_new_size_20 : mbuf_new_size 66 3 17 8 1 4 ≡ ok 32
unfolding mbuf_new_size
mbuf_new_size_20 = refl

abbrev lines : List Bytes
lines = (1 ∷ 2 ∷ 3 ∷ []) ∷ (4 ∷ 5 ∷ 6 ∷ 7 ∷ 8 ∷ 9 ∷ []) ∷ []

log_all-contents_example :
    (m' : SkMbuf (Buf Bytes)) × (log_all fm small lines ≡ ok m')
    × (fm.contents m'.buf ≡ map (take 2047) lines ++ (0 ∷ []) ∷ [])
log_all-contents_example = log_all-contents fm small lines (omega arith) (omega arith)

append_all-contents_example :
    (b : Buf Bytes) × (append_all fm (fm.create 2) lines ≡ ok b)
    × (flat fm (fm.contents b) ≡ flat fm lines)
append_all-contents_example = append_all-contents fm (fm.create 2) lines (omega arith)
