-- ===== src/Tests/Hosts.antt =====
-- Hosts for the tests: one that moves at most five bytes a call, and one that fails its second call.
use ext.Base.{ℕ, zero, suc, ◌^◌, refl, arith, []}
use ext.Os.{Host, Reply, error, moves, IsSteady, File}

abbrev pub steady : Host
steady = record { reply = λ t. moves 4; rounds = 2 ^ 18 }

pub steady-IsSteady : IsSteady steady
steady-IsSteady = record { moving = λ t. (4, refl); enough = omega arith }

abbrev second_fails : ℕ → Reply
second_fails zero = moves 1
second_fails (suc zero) = error
second_fails _ = moves 1

abbrev pub flaky : Host
flaky = record { reply = second_fails; rounds = 100 }

abbrev pub empty_file : File
empty_file = record { bytes = []; pos = 0 }
