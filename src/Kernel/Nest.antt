-- ===== src/Kernel/Nest.antt =====
-- The part of `kernel_set_device` that fills one message with peers, up to the buffer size.
use special_potato.Prelude.{
  ℕ, Bool, true, false, List, [], ◌∷◌, ◌++◌, Option, none, some, if◌then◌else◌,
}
use special_potato.Containers.{WgAllowedip, WgPeer}
use special_potato.Kernel.{Netlink, PeerType, IpType, Attr, PeerNest, nest_start_check, put_checks}
use special_potato.Kernel.Attrs.{left_of, is_null, lead_attrs, awg_attrs, flags_attrs, ip_attrs}

-- Where the next message goes on: at the allowed addresses that are left of the first peer, or at its
-- start where `allowedip` is NULL.
pub record Cursor : Type 0 where
  pub allowedip : List WgAllowedip
  pub peer : WgPeer
  pub next : List WgPeer

-- A nest as it was written, the length of the message behind it, whether it has all that it should,
-- and `allowedip` at its end.
pub record Written : Type 0 where
  pub size : ℕ
  pub nest : PeerNest
  pub complete : Bool
  pub allowedip : List WgAllowedip

module _ (nl : Netlink) where
  -- The return value of the put of `WGPEER_A_AWG` is not looked at.
  abbrev pub put_awg : ℕ → List (Attr PeerType) → ℕ × List (Attr PeerType)
  put_awg size attrs = elim (put_checks nl size attrs) [
    | none ↦ (size, [])
    | some size' ↦ (size', attrs)
  ]

  -- The nest of a peer up to its allowed addresses; `none` is `toobig_peers`, behind which the nest is
  -- cancelled.
  unfoldable pub put_peer : ℕ → Bool → WgPeer → Option (ℕ × List (Attr PeerType))
  put_peer size fresh p = elim (nest_start_check nl size) [
    | none ↦ none
    | some size1 ↦ elim (put_checks nl size1 (lead_attrs fresh p)) [
      | none ↦ none
      | some size2 ↦
          let awg = put_awg size2 (awg_attrs p) in
          elim (put_checks nl awg.0 (flags_attrs fresh p)) [
            | none ↦ none
            | some size3 ↦ some (size3, lead_attrs fresh p ++ awg.1 ++ flags_attrs fresh p)
          ]
    ]
  ]

  abbrev pub put_ip : ℕ → WgAllowedip → Option ℕ
  put_ip size a = elim (nest_start_check nl size) [
    | none ↦ none
    | some size' ↦ put_checks nl size' (ip_attrs a)
  ]

  -- The length of the message, the nests, and the addresses that are left behind a jump to
  -- `toobig_allowedips`, where the nest of the first of them is cancelled.
  unfoldable pub put_ips : ℕ → List WgAllowedip → ℕ × (List (List (Attr IpType)) × List WgAllowedip)
  put_ips size [] = (size, ([], []))
  put_ips size (a ∷ ips) = elim (put_ip size a) [
    | none ↦ (size, ([], a ∷ ips))
    | some size' ↦
        let (size'', (nests, left)) = put_ips size' ips in (size'', (ip_attrs a ∷ nests, left))
  ]

  -- The rest of a peer's nest. Where it is not complete, the loop is left for `toobig_allowedips`.
  unfoldable pub put_allowedips : ℕ → List (Attr PeerType) → List WgAllowedip → WgPeer → Written
  put_allowedips size attrs allowedip p =
      if is_null p.allowedips
      then record {
        size = size;
        nest = record { attrs = attrs; allowedips = none };
        complete = true;
        allowedip = allowedip;
      }
      else elim (nest_start_check nl size) [
        | none ↦ record {
          size = size;
          nest = record { attrs = attrs; allowedips = none };
          complete = false;
          allowedip = left_of allowedip p;
        }
        | some size' ↦
            let (size'', (nests, left)) = put_ips size' (left_of allowedip p) in
            record {
              size = size'';
              nest = record { attrs = attrs; allowedips = some nests };
              complete = is_null left;
              allowedip = left;
            }
      ]

  -- The loop over the peers of one message, and where it stopped.
  unfoldable pub put_peers : ℕ → List WgAllowedip → List WgPeer → List PeerNest × Option Cursor
  put_peers size allowedip [] = ([], none)
  put_peers size allowedip (p ∷ peers) = elim (put_peer size (is_null allowedip) p) [
    | none ↦ ([], some (record { allowedip = allowedip; peer = p; next = peers }))
    | some (size', attrs) ↦
        let w = put_allowedips size' attrs allowedip p in
        let others = put_peers w.size w.allowedip peers in
        if w.complete
        then (w.nest ∷ others.0, others.1)
        else (w.nest ∷ [], some (record { allowedip = w.allowedip; peer = p; next = peers }))
  ]
