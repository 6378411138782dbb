-- ===== src/Tests/Transfers.antt =====
-- The transfer loops at concrete inputs.
use ext.Base.{ℕ, ◌+◌, ◌≡◌, refl, [], ◌∷◌, arith, length, ◌<◌}
use ext.Os.{ok, failed, hung, write, ◌>>=◌}
use ext.Os.Ends.{Ends}
use ext.Utils.{read_while, write_while}
use ext.Utils.Read.{read_while_hangs}
use ext.Utils.Partial.{Wrote, write_while_lem}
use ext.Utils.Write.{write_while-Ends}
use ext.Tests.Hosts.{steady, steady-IsSteady, flaky, empty_file}

write_while-steady :
    write_while (1 ∷ 2 ∷ 3 ∷ 4 ∷ 5 ∷ 6 ∷ 7 ∷ []) steady (record { file = empty_file; calls = 0 })
    ≡ (
      ok 7,
      record { file = record { bytes = 1 ∷ 2 ∷ 3 ∷ 4 ∷ 5 ∷ 6 ∷ 7 ∷ []; pos = 7 }; calls = 2 },
    )
unfolding write_while write ◌>>=◌ ext.Base.Image.write_at
write_while-steady = refl

write_while-flaky :
    write_while (1 ∷ 2 ∷ 3 ∷ []) flaky (record { file = empty_file; calls = 0 })
    ≡ (failed, record { file = record { bytes = 1 ∷ 2 ∷ []; pos = 2 }; calls = 2 })
unfolding write_while write ◌>>=◌ ext.Base.Image.write_at
write_while-flaky = refl

write_while-Ends_example :
    Ends steady
      (write_while (1 ∷ 2 ∷ 3 ∷ []))
      empty_file
      3
      (record { bytes = 1 ∷ 2 ∷ 3 ∷ []; pos = 3 })
unfolding ext.Base.Image.write_at
write_while-Ends_example =
    write_while-Ends steady-IsSteady (1 ∷ 2 ∷ 3 ∷ []) empty_file (omega arith)

write_while_lem_example :
    Wrote
      (1 ∷ 2 ∷ 3 ∷ [])
      0
      empty_file
      (write_while (1 ∷ 2 ∷ 3 ∷ []) flaky (record { file = empty_file; calls = 0 }))
write_while_lem_example = write_while_lem flaky (1 ∷ 2 ∷ 3 ∷ []) empty_file 0

read_while_hangs_example : (read_while 14 steady (record { file = empty_file; calls = 0 })).0 ≡ hung
read_while_hangs_example =
    read_while_hangs steady (λ t. (4, refl)) 14 empty_file 0 (omega arith) (omega arith)
