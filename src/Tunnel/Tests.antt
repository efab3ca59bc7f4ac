-- ===== src/Tunnel/Tests.antt =====
-- A system whose request for the MTU fails.
use echo_protocol.Base.{List, [], ◌∷◌, Option, none, some}
use echo_protocol.Tunnel.{
  Ifreq, SysCall, open_call, socket_call, ioctl_call, close_call, tunsetiff, siocsifaddr,
  siocsifnetmask, siocsifmtu, siocgifflags, siocsifflags, Request, Os, Sys,
}

abbrev answer : Request → Ifreq → Option Ifreq
answer siocsifmtu ifr = none
answer tunsetiff ifr = some ifr
answer siocsifaddr ifr = some ifr
answer siocsifnetmask ifr = some ifr
answer siocgifflags ifr = some ifr
answer siocsifflags ifr = some ifr

abbrev answered : List SysCall → Option Ifreq
answered [] = none
answered (open_call ∷ cs) = none
answered (socket_call ∷ cs) = none
answered (ioctl_call fd request ifr ∷ cs) = answer request ifr
answered (close_call fd ∷ cs) = none

abbrev pub os : Os
os = record {
  open_dev = λ calls. some 5;
  socket = λ calls. some 6;
  ioctl = answered;
  inet_pton = λ text. some 167772161;
  af_inet = 2;
  iff_up = 1;
  iff_running = 64;
}

abbrev pub sys : Sys
sys = record { open_fds = 0 ∷ 1 ∷ 2 ∷ []; calls = [] }
