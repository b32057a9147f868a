-- ===== src/SingleRequest/Clock.antt =====
-- `Choke` and `TimeOutCheck` of SingleRequest.cpp: when a peer has kept us waiting for too long.
use benliud.Common.{ℕ, ◌+◌, ◌-◌, ◌%◌, ◌^◌, Bool, true, false, ltb, ◌==◌, if◌then◌else◌}
use benliud.SingleRequest.{SingleRequest}

-- The results of `TimeOutCheck`: 0, -1, -2, -3 and -4.
pub data TimeOut : Type 0 where
  fine choked_too_often choked_too_long no_answer stalled : TimeOut

-- `GetTickCount() - tick > base`, on `unsigned int`
abbrev pub over : ℕ → ℕ → ℕ → Bool
over base now tick = ltb base ((now + 2 ^ 32 - tick) % 2 ^ 32)

-- `TimeOutCheck`
unfoldable pub time_out_check : SingleRequest → ℕ → ℕ → TimeOut
time_out_check r base now =
    if r.choke % 2 == 0
    then if ltb 10 r.choke
      then choked_too_often
      else if over base now r.choke_tick
      then choked_too_long
      else fine
    else if r.last_request == 0
    then fine
    else if r.last_data == 0
    then (if over base now r.last_request then no_answer else fine)
    else if over base now r.last_data
    then stalled
    else fine

-- `Choke`: the counter is even while the peer chokes us.
unfoldable pub choke_notice : SingleRequest → Bool → ℕ → SingleRequest
choke_notice r true now = record r {
  choke = if (r.choke + 1) % 2 == 0 then r.choke + 1 else r.choke + 2;
  choke_tick = now;
  last_data = 0;
}
choke_notice r false now = record r {
  choke = if (r.choke + 1) % 2 == 0 then r.choke + 2 else r.choke + 1;
  last_request = now;
}
