-- ===== src/Transfer/Tests.antt =====
-- A transfer that is slower than its timeout, with a timer that comes back too early once.
use cpp_torrent.Base.{◌/◌, ◌≡◌, ◌⊎◌, refl, inl, inr, true, none, some, [], ◌∷◌, arith}
use cpp_torrent.Transfer.{Operation, Ended, timed_out, watchdog, send_data, send_data_with_timeout}
use cpp_torrent.Transfer.Deadline.{Own, Late, send_data_with_timeout-ends}

abbrev slow : Operation
slow = record { ends_at = some 400; code = none; bytes = 90; moved = λ now. now / 5 }

too_slow :
    send_data_with_timeout slow true 100 200 (250 ∷ 301 ∷ []) (some 0)
    ≡ some (record { at = 301; error = some timed_out; bytes_sent = some 60 })
unfolding send_data_with_timeout watchdog
too_slow = refl

in_time :
    send_data_with_timeout slow true 100 400 (250 ∷ 501 ∷ []) (some 0)
    ≡ some (record { at = 400; error = none; bytes_sent = some 90 })
unfolding send_data_with_timeout watchdog send_data
in_time = refl

send_data_with_timeout-ends_example :
    (r : Ended) × (send_data_with_timeout slow true 100 200 (250 ∷ 301 ∷ []) (some 0) ≡ some r)
    × (Own slow (some 0) r ⊎ Late slow 300 (some 0) r)
send_data_with_timeout-ends_example =
    send_data_with_timeout-ends slow true 100 200 301 (250 ∷ 301 ∷ []) (some 0) (inr (inl refl))
      (omega arith)
