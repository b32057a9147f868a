-- ===== src/SingleRequest/Timing.antt =====
-- `Choke` and `TimeOutCheck` of SingleRequest.cpp: whom the clock is held against.
use benliud.Common.{
  ℕ, ◌+◌, ◌-◌, ◌%◌, ◌^◌, ◌≤◌, ◌<◌, ◌≡◌, ◌↔◌, Bool, true, false, arith, some, if◌then◌else◌,
}
use benliud.SingleRequest.{SingleRequest, init, reset}
use benliud.SingleRequest.Clock.{choke_notice, time_out_check, fine, choked_too_often, no_answer}

-- The counter is even after a choke and odd after an unchoke, it never falls, and grows by two at
-- most.
choke_notice-parity :
    (r : SingleRequest) (choked : Bool) (now : ℕ)
    → ((choke_notice r choked now).choke % 2 ≡ (if choked then 0 else 1))
      × (r.choke < (choke_notice r choked now).choke)
      × ((choke_notice r choked now).choke ≤ r.choke + 2)
unfolding choke_notice
choke_notice-parity r true now = ground arith
choke_notice-parity r false now = ground arith

-- After `Choke(true)` at one tick, `TimeOutCheck` at a later tick complains exactly when the
-- counter has passed ten or the peer has choked for longer than the limit.
time_out_check-choked :
    (r : SingleRequest) (base then' now : ℕ)
    → then' ≤ now
    → now < 2 ^ 32
    → (time_out_check (choke_notice r true then') base now ≡ fine)
      ↔ (((choke_notice r true then').choke ≤ 10) × (now - then' ≤ base))
unfolding time_out_check choke_notice
time_out_check-choked r base then' now h k = ground arith

-- After `Choke(false)` at a tick other than 0, if no data has come, `TimeOutCheck` reports a
-- missing answer exactly when more than the limit has passed since then.
time_out_check-unchoked :
    (r : SingleRequest) (base then' now : ℕ)
    → r.last_data ≡ 0
    → 0 < then'
    → then' ≤ now
    → now < 2 ^ 32
    → (time_out_check (choke_notice r false then') base now ≡ no_answer) ↔ (base < now - then')
unfolding time_out_check choke_notice
time_out_check-unchoked r base then' now d h k l = ground arith

-- The counter outlives the task: a request that is choked for too many times stays so after
-- `Reset` and `Init` for another piece, whatever the clock says.
pub time_out_check-next_task :
    (r : SingleRequest) (index n base now : ℕ)
    → r.choke % 2 ≡ 0
    → 10 < r.choke
    → time_out_check (init (reset r) (some index) n) base now ≡ choked_too_often
unfolding time_out_check init reset
time_out_check-next_task r index n base now e h = ground arith
