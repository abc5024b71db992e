-- ===== src/Config/Total.antt =====
-- None of the readers of single values in config.c reads through a null pointer.
use special_potato.Prelude.{ℕ, zero, suc, ◌+◌, Bool, true, false, Bytes, arith}
use special_potato.Containers.{WgPeer, WgDevice}
use special_potato.Outcome.{error, System, Ensures->>=, Ensures-Option, NoFault}
use special_potato.Config.Number.{
  parse_fwmark, parse_persistent_keepalive, parse_uint16, parse_bool, parse_awg_string,
}
use special_potato.Config.KeyValue.{parse_keyfile}
use special_potato.Config.Address.{
  next_timeout, resolve, resolve_with, Retries, finite, infinite, parse_dns_retries, split_endpoint,
  accept, parse_port, parse_endpoint,
}

pub parse_awg_string-NoFault : (value : Bytes) → NoFault (parse_awg_string value)
unfolding parse_awg_string
parse_awg_string-NoFault value = ground arith

module _ (sys : System) where
  pub parse_fwmark-NoFault : (value : Bytes) (d : WgDevice) → NoFault (parse_fwmark sys value d)
  unfolding parse_fwmark
  parse_fwmark-NoFault value d = ground arith

  pub parse_persistent_keepalive-NoFault :
      (value : Bytes) (p : WgPeer) → NoFault (parse_persistent_keepalive sys value p)
  unfolding parse_persistent_keepalive
  parse_persistent_keepalive-NoFault value p = ground arith

  pub parse_uint16-NoFault : (value : Bytes) → NoFault (parse_uint16 sys value)
  unfolding parse_uint16
  parse_uint16-NoFault value = ground arith

  pub parse_bool-NoFault : (value : Bytes) → NoFault (parse_bool sys value)
  unfolding parse_bool
  parse_bool-NoFault value = ground arith

  pub parse_keyfile-NoFault : (key path : Bytes) → NoFault (parse_keyfile sys key path)
  unfolding parse_keyfile
  parse_keyfile-NoFault key path = ground arith

  resolve-NoFault :
      (bounded : Bool) (host service : Bytes) (rounds i timeout : ℕ)
      → NoFault ((resolve sys bounded host service rounds i timeout).address)
  unfolding resolve
  resolve-NoFault bounded host service zero i timeout = tt
  resolve-NoFault bounded host service (suc rounds) i timeout =
      let rest = resolve-NoFault bounded host service rounds (i + 1) (next_timeout timeout) in
      ground arith

  resolve_with-NoFault :
      (r : Retries) (host service : Bytes) → NoFault ((resolve_with sys r host service).address)
  unfolding resolve_with
  resolve_with-NoFault (finite n) host service = resolve-NoFault true host service (suc n) 0 _
  resolve_with-NoFault infinite host service = resolve-NoFault false host service (sys.patience) 0 _

  parse_dns_retries-NoFault : NoFault (parse_dns_retries sys)
  unfolding parse_dns_retries
  parse_dns_retries-NoFault = ground arith

  pub parse_endpoint-NoFault : (value : Bytes) → NoFault (parse_endpoint sys value)
  unfolding parse_endpoint
  parse_endpoint-NoFault value =
      Ensures->>= (λ r. Unit) (λ a. Unit) (parse_dns_retries sys) _ parse_dns_retries-NoFault
        (λ r u.
          Ensures-Option (λ a. Unit) (split_endpoint value) error _ tt
            (λ (host, service) e.
              Ensures->>= (λ a. Unit) (λ a. Unit) _ (accept sys)
                (resolve_with-NoFault r host service) (λ a u'. ground arith)))

  pub parse_port-NoFault : (value : Bytes) (d : WgDevice) → NoFault (parse_port sys value d)
  unfolding parse_port
  parse_port-NoFault value d = ground arith
