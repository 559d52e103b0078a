-- ===== src/Config/Advertising.antt =====
-- Which address is advertised.
use Prim.Native.String.{◌++◌}
use text.Mathlib.TextLemmas.{append-eq-nil_iff, append-ne-nil_of_right_ne-nil}
use istio_oidc.Common.{
  String, false, List, [], ◌∷◌, Option, none, some, ok, wrap, ◌>>=◌, or_err, if◌then◌else◌, ◌==◌,
  ◌≡◌, ◌⊎◌, refl, arith, inl, inr, Bool-cases, >>=-eq-ok, wrap-eq-ok, or_err-eq-ok, sym,
}
use istio_oidc.Config.{
  System, InterfaceAddr, ip_net, other_addr, first_address, system_address, address_of,
  advertise_address,
}
use istio_oidc.Common.{Elem}
use istio_oidc.Config.Pieces.{eq-false, ok-inj}

module _ (sys : System) where
  address_text-ne : (s port : String) → ((s ++ (":" ++ port)) == "") ≡ false
  address_text-ne s port =
      eq-false (s ++ (":" ++ port)) ""
        (append-ne-nil_of_right_ne-nil s (λ e. cc ((append-eq-nil_iff {p = ":"} {q = port}).0 e).0))

  first_address-ne :
      (port : String) (addrs : List (InterfaceAddr sys.Ip)) (a : String)
      → first_address sys port addrs ≡ ok a
      → (a == "") ≡ false
  unfolding first_address
  first_address-ne port [] a h = cc
  first_address-ne port (other_addr ∷ addrs) a h = cc
  first_address-ne port (ip_net ip ∷ addrs) a h =
      ground (arith, first_address-ne port addrs a, address_text-ne (sys.ip_text ip) port)

  system_address-ne :
      (port : String) (o : Option (List (InterfaceAddr sys.Ip))) (a : String)
      → (or_err "no addresses" o >>= first_address sys port) ≡ ok a
      → (a == "") ≡ false
  system_address-ne port none a h = cc
  system_address-ne port (some addrs) a h = first_address-ne port addrs a h

  address_of-ne :
      (o : Option sys.Ip) (port a : String) → address_of sys o port ≡ ok a → (a == "") ≡ false
  unfolding address_of system_address
  address_of-ne none port a h = system_address-ne port sys.interface_addrs a h
  address_of-ne (some ip) port a h =
      ground
        (arith, system_address-ne port sys.interface_addrs a, address_text-ne (sys.ip_text ip) port)

  advertise_address-ne : (bind a : String) → advertise_address sys bind ≡ ok a → (a == "") ≡ false
  unfolding advertise_address
  advertise_address-ne bind a h =
      let ((host, port), e, g) =
        >>=-eq-ok (or_err "failed parsing bind address" (sys.split_host_port bind)) _ h in
      address_of-ne (sys.parse_ip host) port a g

  pub chosen-ne :
      (bind given a : String)
      → (if given == ""
          then wrap "could not determine address to advertise" (advertise_address sys bind)
          else ok given)
        ≡ ok a
      → (a == "") ≡ false
  chosen-ne bind given a h = elim (Bool-cases (given == "")) [
    | inl e ↦ advertise_address-ne bind a (
        wrap-eq-ok "could not determine address to advertise" (advertise_address sys bind)
          (rw e at h))
    | inr e ↦ ground arith
  ]

  -- An address that may be advertised for a peer that binds to `host`: the host's own address, or one
  -- of the system's that is no loopback address, where the host has none or is unspecified.
  abbrev pub IsOffered : String → sys.Ip → Type 0
  IsOffered host ip =
      ((sys.parse_ip host ≡ some ip) × (sys.is_unspecified ip ≡ false))
      ⊎ ((addrs : List (InterfaceAddr sys.Ip)) × (sys.interface_addrs ≡ some addrs)
          × Elem (ip_net ip) addrs
          × (sys.is_loopback ip ≡ false))

  first_address-Elem :
      (port a : String) (addrs : List (InterfaceAddr sys.Ip))
      → first_address sys port addrs ≡ ok a
      → (ip : sys.Ip) × (a ≡ sys.ip_text ip ++ (":" ++ port))
        × Elem (ip_net ip) addrs
        × (sys.is_loopback ip ≡ false)
  unfolding first_address
  first_address-Elem port a [] h = absurd (cc)
  first_address-Elem port a (other_addr ∷ addrs) h = absurd (cc)
  first_address-Elem port a (ip_net ip ∷ addrs) h = elim (Bool-cases (sys.is_loopback ip)) [
    | inl e ↦
        let (ip', q, m, out) = first_address-Elem port a addrs (rw e at h) in (ip', q, inr m, out)
    | inr e ↦ (ip, sym (ok-inj (rw e at h)), inl refl, e)
  ]

  system_address-IsOffered :
      (host port a : String) (o : Option (List (InterfaceAddr sys.Ip)))
      → sys.interface_addrs ≡ o
      → (or_err "no addresses" o >>= first_address sys port) ≡ ok a
      → (ip : sys.Ip) × (a ≡ sys.ip_text ip ++ (":" ++ port)) × IsOffered host ip
  system_address-IsOffered host port a none e h = absurd (cc)
  system_address-IsOffered host port a (some addrs) e h =
      let (ip, q, m, out) = first_address-Elem port a addrs h in (ip, q, inr (addrs, e, m, out))

  address_of-IsOffered :
      (host port a : String) (o : Option sys.Ip)
      → sys.parse_ip host ≡ o
      → address_of sys o port ≡ ok a
      → (ip : sys.Ip) × (a ≡ sys.ip_text ip ++ (":" ++ port)) × IsOffered host ip
  unfolding address_of system_address
  address_of-IsOffered host port a none e h =
      system_address-IsOffered host port a sys.interface_addrs refl h
  address_of-IsOffered host port a (some ip) e h = elim (Bool-cases (sys.is_unspecified ip)) [
    | inl u ↦ system_address-IsOffered host port a sys.interface_addrs refl (rw u at h)
    | inr u ↦ (ip, sym (ok-inj (rw u at h)), inl (e, u))
  ]

  -- The address that is advertised has the port that the server binds to, and the address of the host
  -- it binds to, unless that is unspecified; else it is one of the system's that is no loopback
  -- address.
  pub advertise_address-IsOffered :
      (bind a : String)
      → advertise_address sys bind ≡ ok a
      → (host : String) × (port : String) × (ip : sys.Ip) × (sys.split_host_port bind
          ≡ some (host, port))
        × (a ≡ sys.ip_text ip ++ (":" ++ port))
        × IsOffered host ip
  unfolding advertise_address
  advertise_address-IsOffered bind a h =
      let ((host, port), e, f) =
        >>=-eq-ok (or_err "failed parsing bind address" (sys.split_host_port bind)) _ h in
      let (ip, q, offered) = address_of-IsOffered host port a (sys.parse_ip host) refl f in
      (
        host,
        port,
        ip,
        or_err-eq-ok "failed parsing bind address" (sys.split_host_port bind) e,
        q,
        offered,
      )
