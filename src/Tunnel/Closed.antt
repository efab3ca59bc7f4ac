-- ===== src/Tunnel/Closed.antt =====
-- Which descriptors src/tun_tap.c leaves open.
use echo_protocol.Base.{ℕ, ◌==◌, ◌≡◌, refl, ap, ◌∙◌, arith, true, List, ◌∷◌, Option, none, some}
use echo_protocol.Tunnel.{
  Ifreq, Request, tunsetiff, ioctl_call, open_call, socket_call, named, c_string, Os, Sys, Result,
  called, without, close_fd, with_fd, after_request, control_socket, ioctl, tun_alloc, tun_set_ip,
  tun_set_mtu, tun_set_up, configured, start_up,
}

pub without_first : (fd : ℕ) (fds : List ℕ) → without fd (fd ∷ fds) ≡ fds
without_first fd fds = let same : (fd == fd) ≡ true = ground arith in rw same refl

-- After the call the descriptors are these.
pub record Leaves {A : Type 0} (fds : List ℕ) (r : Result A) : Type 0 where
  pub same : r.1.open_fds ≡ fds

close-Leaves :
    {A : Type 0} (o : Option A) (fd : ℕ) (s : Sys) (fds : List ℕ)
    → s.open_fds ≡ fd ∷ fds
    → Leaves fds (o, close_fd fd s)
close-Leaves o fd s fds h = record { same = ap (without fd) h ∙ without_first fd fds }

request-Leaves :
    {A : Type 0} (fd : ℕ) (o : Option Ifreq) (s : Sys) (go : Ifreq → Sys → Result A) (fds : List ℕ)
    → s.open_fds ≡ fd ∷ fds
    → ((ifr' : Ifreq) → Leaves fds (go ifr' s))
    → Leaves fds (after_request fd o s go)
request-Leaves fd none s go fds h next = close-Leaves none fd s fds h
request-Leaves fd (some ifr) s go fds h next = next ifr

fd-Leaves :
    (o : Option ℕ) (s : Sys) (go : ℕ → Sys → Result ℕ)
    → ((fd : ℕ) (s' : Sys) → s'.open_fds ≡ fd ∷ s.open_fds → Leaves s.open_fds (go fd s'))
    → Leaves s.open_fds (with_fd o s go)
fd-Leaves none s go next = record { same = refl }
fd-Leaves (some fd) s go next = next fd (record s { open_fds = fd ∷ s.open_fds }) refl

-- The descriptors after the start: those before it, and the one that it returns.
abbrev pub IsOpen : {A : Type 0} → (A → ℕ) → List ℕ → Result A → Type 0
IsOpen fd_of fds (none, s) = s.open_fds ≡ fds
IsOpen fd_of fds (some a, s) = s.open_fds ≡ fd_of a ∷ fds

module _ (os : Os) where
  ioctl-Leaves :
      {A : Type 0} (fd : ℕ) (request : Request) (ifr : Ifreq) (s : Sys)
      (go : Ifreq → Sys → Result A) (fds : List ℕ)
      → s.open_fds ≡ fd ∷ fds
      → ((ifr' : Ifreq) → Leaves fds (go ifr' (called (ioctl_call fd request ifr) s)))
      → Leaves fds (ioctl os fd request ifr s go)
  ioctl-Leaves fd request ifr s go fds h next =
      request-Leaves fd (os.ioctl (ioctl_call fd request ifr ∷ s.calls))
        (called (ioctl_call fd request ifr) s) go fds h next

  socket-Leaves :
      (s : Sys) (go : ℕ → Sys → Result ℕ)
      → ((fd : ℕ) (s' : Sys) → s'.open_fds ≡ fd ∷ s.open_fds → Leaves s.open_fds (go fd s'))
      → Leaves s.open_fds (control_socket os s go)
  socket-Leaves s go next = fd-Leaves (os.socket s.calls) (called socket_call s) go next

  pub set_ip-Leaves : (dev ip : List ℕ) (s : Sys) → Leaves s.open_fds (tun_set_ip os dev ip s)
  unfolding tun_set_ip
  set_ip-Leaves dev ip s = socket-Leaves s _ (λ fd s1 h.
      ioctl-Leaves fd _ _ s1 _ s.open_fds h (λ ifr.
        ioctl-Leaves fd _ _ (called _ s1) _ s.open_fds h
          (λ ifr'. close-Leaves (some 0) fd (called _ (called _ s1)) s.open_fds h)))

  pub set_mtu-Leaves :
      (dev : List ℕ) (mtu : ℕ) (s : Sys) → Leaves s.open_fds (tun_set_mtu os dev mtu s)
  unfolding tun_set_mtu
  set_mtu-Leaves dev mtu s = socket-Leaves s _ (λ fd s1 h.
      ioctl-Leaves fd _ _ s1 _ s.open_fds h
        (λ ifr. close-Leaves (some 0) fd (called _ s1) s.open_fds h))

  pub set_up-Leaves : (dev : List ℕ) (s : Sys) → Leaves s.open_fds (tun_set_up os dev s)
  unfolding tun_set_up
  set_up-Leaves dev s = socket-Leaves s _ (λ fd s1 h. ioctl-Leaves fd _ _ s1 _ s.open_fds h (λ ifr.
      ioctl-Leaves fd _ _ (called _ s1) _ s.open_fds h
        (λ ifr'. close-Leaves (some 0) fd (called _ (called _ s1)) s.open_fds h)))

  attached-IsOpen :
      (dev : List ℕ) (fd : ℕ) (o : Option Ifreq) (s : Sys) (fds : List ℕ)
      → s.open_fds ≡ fd ∷ fds
      → IsOpen
          (λ (p : ℕ × List ℕ). p.0)
          fds
          (after_request fd o s (λ ifr s2. (some (fd, c_string ifr.ifr_name), s2)))
  attached-IsOpen dev fd none s fds h = (close-Leaves {A = ℕ} none fd s fds h).same
  attached-IsOpen dev fd (some ifr) s fds h = h

  opened-IsOpen :
      (dev : List ℕ) (flags : ℕ) (o : Option ℕ) (s : Sys)
      → IsOpen
          (λ (p : ℕ × List ℕ). p.0)
          s.open_fds
          (with_fd o s (λ fd s1.
            ioctl os fd tunsetiff
              (record (named dev) { ifr_flags = flags })
              s1
              (λ ifr s2. (some (fd, c_string ifr.ifr_name), s2))))
  opened-IsOpen dev flags none s = refl
  opened-IsOpen dev flags (some fd) s = attached-IsOpen dev fd _ _ s.open_fds refl

  pub tun_alloc-IsOpen :
      (dev : List ℕ) (flags : ℕ) (s : Sys)
      → IsOpen (λ (p : ℕ × List ℕ). p.0) s.open_fds (tun_alloc os dev flags s)
  unfolding tun_alloc
  tun_alloc-IsOpen dev flags s = opened-IsOpen dev flags (os.open_dev s.calls) (called open_call s)

  configured-IsOpen :
      (ip : List ℕ) (r : Result (ℕ × List ℕ)) (fds : List ℕ)
      → IsOpen (λ (p : ℕ × List ℕ). p.0) fds r
      → IsOpen (λ (fd : ℕ). fd) fds (configured os ip r)
  configured-IsOpen ip (none, s) fds h = h
  configured-IsOpen ip (some (fd, dev), s) fds h =
      let s1 = (tun_set_ip os dev ip s).1 in
      let s2 = (tun_set_mtu os dev 1280 s1).1 in
      (set_up-Leaves dev s2).same
      ∙ (set_mtu-Leaves dev 1280 s1).same
      ∙ (set_ip-Leaves dev ip s).same
      ∙ h

  -- Whichever of the system calls fail: where the start fails, the descriptors that are open are those
  -- before it, and where it does not, they are those and the one of the tunnel that it returns.
  pub start_up-IsOpen :
      (dev ip : List ℕ) (flags : ℕ) (s : Sys)
      → IsOpen (λ (fd : ℕ). fd) s.open_fds (start_up os dev ip flags s)
  unfolding start_up
  start_up-IsOpen dev ip flags s =
      configured-IsOpen ip (tun_alloc os dev flags s) s.open_fds (tun_alloc-IsOpen dev flags s)
