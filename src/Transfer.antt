-- ===== src/Transfer.antt =====
-- src/Utils.hpp and src/Utils.cpp: transfers under a deadline. The four transfers, over TCP and UDP, sent and received,
-- differ only in the asio operation that they wait for; what that operation and the timer do is an
-- input. Times are milliseconds. Of two coroutines that are joined by `||`, the first that ends gives the
-- result, and the other one is cancelled and ends with it.
pub mod Deadline
mod Tests
use cpp_torrent.Base.{
  ℕ, ◌+◌, Bool, true, false, ◌&&◌, ◌||◌, Option, none, some, List, [], ◌∷◌, ltb, ◌==◌,
  if◌then◌else◌,
}

-- `std::error_code`: that of the watchdog, and all others.
pub data ErrorCode : Type 0 where
  timed_out : ErrorCode
  other : ℕ → ErrorCode

-- An asio operation: when it ends if nobody cancels it, with which code and how many bytes; and how many bytes
-- it has moved when it is cancelled.
pub record Operation : Type 0 where
  pub ends_at : Option ℕ
  pub code : Option ErrorCode
  pub bytes : ℕ
  pub moved : ℕ → ℕ

-- The end of a transfer: its time, an error if there is one, and the caller's variable for the bytes.
pub record Ended : Type 0 where
  pub at : ℕ
  pub error : Option ErrorCode
  pub bytes_sent : Option ℕ

-- `bytes_sent->get() = n`, if the caller gave a variable.
abbrev pub store : ℕ → Option ℕ → Option ℕ
store n none = none
store n (some old) = some n

-- The loop of `watchdog`, from the time `now` on; each wait of the timer comes back at the next of the times
-- `wakes`. `none` if they do not suffice.
unfoldable pub watchdog : ℕ → ℕ → List ℕ → Option ℕ
watchdog deadline now [] = if ltb now deadline then none else some now
watchdog deadline now (wake ∷ wakes) =
    let rest = watchdog deadline wake wakes in if ltb now deadline then rest else some now

unfoldable pub send_data : Operation → ℕ → Option ℕ → Ended
send_data op now bytes_sent = record {
  at = now;
  error = op.code;
  bytes_sent = store op.bytes bytes_sent;
}

-- The transfer that the watchdog cancels, and its error.
abbrev cancelled : Operation → ℕ → Option ℕ → Ended
cancelled op now bytes_sent = record {
  at = now;
  error = some timed_out;
  bytes_sent = store (op.moved now) bytes_sent;
}

-- `send_data(...) || watchdog(deadline)`; `tie` says which one is first if both end at a time.
race : Operation → Bool → Option ℕ → Option ℕ → Option ℕ → Option Ended
unfolding send_data
race op tie bytes_sent none none = none
race op tie bytes_sent none (some w) = some (cancelled op w bytes_sent)
race op tie bytes_sent (some a) none = some (send_data op a bytes_sent)
race op tie bytes_sent (some a) (some w) =
    if ltb a w || (a == w && tie)
    then some (send_data op a bytes_sent)
    else some (cancelled op w bytes_sent)

-- `none` while neither has ended.
unfoldable pub send_data_with_timeout : Operation → Bool → ℕ → ℕ → List ℕ → Option ℕ → Option Ended
unfolding race watchdog
send_data_with_timeout op tie now timeout wakes bytes_sent =
    race op tie bytes_sent op.ends_at (watchdog (now + timeout) now wakes)
