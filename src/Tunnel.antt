-- ===== src/Tunnel.antt =====
-- The tunnel device: `tun_alloc`, `tun_set_ip`, `tun_set_mtu` and `tun_set_up` of src/tun_tap.c, and their
-- calls in src/echo_protocol.c and src/main.c. The system is an argument: what a call gives may
-- depend on all the calls before it. A negative result is `none`. The members of the union in
-- `struct ifreq` are fields of their own, of which each function uses those of one member.
pub mod Closed
pub mod Tests
use echo_protocol.Base.{
  ℕ, ◌==◌, Bool, true, false, if◌then◌else◌, bit_or, List, [], ◌∷◌, ◌++◌, take, replicate, Option,
  none, some,
}

-- `struct ifreq`
pub record Ifreq : Type 0 where
  pub ifr_name : List ℕ
  pub ifr_flags : ℕ
  pub sa_family : ℕ
  pub sin_addr : ℕ
  pub ifr_mtu : ℕ

pub data Request : Type 0 where
  tunsetiff : Request
  siocsifaddr : Request
  siocsifnetmask : Request
  siocsifmtu : Request
  siocgifflags : Request
  siocsifflags : Request

-- The system calls, in their order.
pub data SysCall : Type 0 where
  open_call : SysCall
  socket_call : SysCall
  ioctl_call : ℕ → Request → Ifreq → SysCall
  close_call : ℕ → SysCall

pub record Os : Type 0 where
  pub open_dev : List SysCall → Option ℕ
  pub socket : List SysCall → Option ℕ
  pub ioctl : List SysCall → Option Ifreq
  pub inet_pton : List ℕ → Option ℕ
  pub af_inet : ℕ
  pub iff_up : ℕ
  pub iff_running : ℕ

-- What the process has open, and the calls, the last one first.
pub record Sys : Type 0 where
  pub open_fds : List ℕ
  pub calls : List SysCall

abbrev pub Result : Type 0 → Type 0
Result A = Option A × Sys

abbrev pub called : SysCall → Sys → Sys
called c s = record s { calls = c ∷ s.calls }

abbrev pub without : ℕ → List ℕ → List ℕ
without fd [] = []
without fd (f ∷ fds) = let rest = without fd fds in if f == fd then fds else f ∷ rest

abbrev pub close_fd : ℕ → Sys → Sys
close_fd fd s = record (called (close_call fd) s) { open_fds = without fd s.open_fds }

-- A descriptor that the system gave, or -1 and the return.
abbrev pub with_fd : {A : Type 0} → Option ℕ → Sys → (ℕ → Sys → Result A) → Result A
with_fd none s go = (none, s)
with_fd (some fd) s go = go fd (record s { open_fds = fd ∷ s.open_fds })

-- `close(fd)` and the return of the error, where the request fails.
abbrev pub after_request :
    {A : Type 0} → ℕ → Option Ifreq → Sys → (Ifreq → Sys → Result A) → Result A
after_request fd none s go = (none, close_fd fd s)
after_request fd (some ifr) s go = go ifr s

-- `strncpy` to the 16 bytes of the name, after `memset`.
abbrev pub strncpy : List ℕ → List ℕ
strncpy dev = take 16 (dev ++ replicate 16 0)

-- The bytes up to the first 0, which the system puts behind a name.
abbrev pub c_string : List ℕ → List ℕ
c_string [] = []
c_string (c ∷ cs) = let rest = c_string cs in if c == 0 then [] else c ∷ rest

abbrev pub named : List ℕ → Ifreq
named dev = record {
  ifr_name = strncpy dev;
  ifr_flags = 0;
  sa_family = 0;
  sin_addr = 0;
  ifr_mtu = 0;
}

-- `inet_pton`, whose result is not tested: the address stays where it fails.
abbrev pub address : Option ℕ → ℕ → ℕ
address none old = old
address (some new) old = new

-- "255.255.255.0"
abbrev pub netmask : List ℕ
netmask = 50 ∷ 53 ∷ 53 ∷ 46 ∷ 50 ∷ 53 ∷ 53 ∷ 46 ∷ 50 ∷ 53 ∷ 53 ∷ 46 ∷ 48 ∷ []

module _ (os : Os) where
  abbrev pub control_socket : Sys → (ℕ → Sys → Result ℕ) → Result ℕ
  control_socket s go = with_fd (os.socket s.calls) (called socket_call s) go

  abbrev pub ioctl : {A : Type 0} → ℕ → Request → Ifreq → Sys → (Ifreq → Sys → Result A) → Result A
  ioctl fd request ifr s go =
      let s' = called (ioctl_call fd request ifr) s in after_request fd (os.ioctl s'.calls) s' go

  -- The descriptor, and the name that the system has chosen; `dev` is not NULL.
  unfoldable pub tun_alloc : List ℕ → ℕ → Sys → Result (ℕ × List ℕ)
  tun_alloc dev flags s = with_fd (os.open_dev s.calls) (called open_call s) (λ fd s1.
      ioctl fd tunsetiff (record (named dev) { ifr_flags = flags }) s1
        (λ ifr s2. (some (fd, c_string ifr.ifr_name), s2)))

  unfoldable pub tun_set_ip : List ℕ → List ℕ → Sys → Result ℕ
  tun_set_ip dev ip s = control_socket s (λ fd s1.
      ioctl fd siocsifaddr
        (record (named dev) { sa_family = os.af_inet; sin_addr = address (os.inet_pton ip) 0 }) s1
        (λ ifr s2.
          ioctl fd siocsifnetmask
            (record ifr { sin_addr = address (os.inet_pton netmask) ifr.sin_addr }) s2
            (λ ifr' s3. (some 0, close_fd fd s3))))

  unfoldable pub tun_set_mtu : List ℕ → ℕ → Sys → Result ℕ
  tun_set_mtu dev mtu s = control_socket s (λ fd s1.
      ioctl fd siocsifmtu (record (named dev) { ifr_mtu = mtu }) s1
        (λ ifr s2. (some 0, close_fd fd s2)))

  unfoldable pub tun_set_up : List ℕ → Sys → Result ℕ
  tun_set_up dev s = control_socket s (λ fd s1. ioctl fd siocgifflags (named dev) s1 (λ ifr s2.
      ioctl fd siocsifflags
        (record ifr { ifr_flags = bit_or ifr.ifr_flags (bit_or os.iff_up os.iff_running) }) s2
        (λ ifr' s3. (some 0, close_fd fd s3))))

  -- `echo_init` returns where `tun_alloc` fails; `main` does not look at the other results.
  abbrev pub configured : List ℕ → Result (ℕ × List ℕ) → Result ℕ
  configured ip (none, s) = (none, s)
  configured ip (some (fd, dev), s) =
      (some fd, (tun_set_up dev (tun_set_mtu dev 1280 (tun_set_ip dev ip s).1).1).1)

  unfoldable pub start_up : List ℕ → List ℕ → ℕ → Sys → Result ℕ
  start_up dev ip flags s = configured ip (tun_alloc dev flags s)
