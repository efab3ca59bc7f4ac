-- ===== src/WarmUp/Tests.antt =====
-- The warm-up between two stations that have started on other memory.
use echo_protocol.Base.{ℕ, zero, suc, ◌≡◌, arith, List, replicate, length-replicate}
use echo_protocol.Ring.Refine.{contents}
use echo_protocol.Callback.Toy.{toy}
use echo_protocol.Tunnel.Tests.{os, sys}
use echo_protocol.Setup.{at_start, sender_of, station_of}
use echo_protocol.Setup.Ready.{emptied}
use echo_protocol.Setup.Tests.{block, stale, tun0, booted, booted_sys, starts}
use echo_protocol.Link.Tests.{world, same_second-IsTimely}
use echo_protocol.WarmUp.{dummy_ip, warm_up}
use echo_protocol.WarmUp.Heard.{listen, IsPaced, AllPaced, warm_up_arrives}

abbrev same_second : List ℕ
same_second = replicate 288 100

same_second-IsPaced : IsPaced same_second
same_second-IsPaced =
    (length-replicate {A = ℕ} 288 100, (100, omega arith, same_second-IsTimely 288))

runs-AllPaced : (n : ℕ) → AllPaced (replicate n same_second)
runs-AllPaced zero = tt
runs-AllPaced (suc n) = (same_second-IsPaced, runs-AllPaced n)

warm_up_arrives_example :
    (listen world
      (replicate 8 same_second)
      (contents (warm_up (sender_of at_start booted (emptied block))).tx_rb)
      (station_of at_start booted (emptied block))).written
    ≡ replicate 8 dummy_ip
warm_up_arrives_example =
    warm_up_arrives toy os os block block block block tun0 tun0 tun0 tun0 stale stale booted booted
      sys booted_sys sys booted_sys world (replicate 8 same_second) starts starts
      (length-replicate 8 same_second) (runs-AllPaced 8)
