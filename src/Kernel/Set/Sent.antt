-- ===== src/Kernel/Set/Sent.antt =====
-- What `kernel_set_device` sends, where the kernel takes each message.
use special_potato.Prelude.{
  false, ℕ, zero, suc, ◌+◌, ◌*◌, ◌≤◌, ◌<◌, List, [], ◌∷◌, ◌++◌, Option, none, some, ◌≡◌, refl,
  arith, inl, inr, All,
}
use mathlib.Core.List.{append-nil}
use special_potato.Outcome.{ok}
use special_potato.Uapi.{pos}
use special_potato.Containers.{WgAllowedip, WgPeer, WgDevice}
use special_potato.Kernel.{word_len, Netlink, DeviceType, Attr, PeerNest, Message, attrs_room}
use special_potato.Kernel.Attrs.{left_of}
use special_potato.Kernel.Nest.{Cursor, put_peers}
use special_potato.Kernel.Set.{
  Reply, answered, device_attrs, put_message, first_message, name_attr, nest_room, overruns,
  send_from, kernel_set_device,
}
use special_potato.Kernel.Set.Leads.{Leads, Leads-append, SoundStop, put_peers-Leads}
use special_potato.Kernel.Set.Room.{IsMonotone, FitsPeer}
use special_potato.Kernel.Set.Progress.{work, stop_work, Leads-work, put_peers-work}

abbrev pub all_nests : List Message → List PeerNest
all_nests [] = []
all_nests (m ∷ messages) = elim (m.peers) [ none ↦ [] | some ns ↦ ns ] ++ all_nests messages

-- The first message has these attributes in front of the peers, the others have those.
abbrev pub HasAttrs : List (Attr DeviceType) → List (Attr DeviceType) → List Message → Type 0
HasAttrs first others [] = ⊥
HasAttrs first others (m ∷ messages) = (m.attrs ≡ first) × All (λ o. o.attrs ≡ others) messages

abbrev AreShort : List WgAllowedip → Type 0
AreShort ips = All (λ a. word_len a.ip ≤ 16) ips

abbrev FitsStop : Option Cursor → Type 0
FitsStop none = Unit
FitsStop (some c) = AreShort c.allowedip × (FitsPeer c.peer × All FitsPeer c.next)

drop-AreShort : (chunk left : List WgAllowedip) → AreShort (chunk ++ left) → AreShort left
drop-AreShort [] left h = h
drop-AreShort (a ∷ chunk) left h = drop-AreShort chunk left h.1

left_of-AreShort :
    (ips : List WgAllowedip) (p : WgPeer) → AreShort ips → FitsPeer p → AreShort (left_of ips p)
left_of-AreShort [] p h fits = fits.1.1
left_of-AreShort (a ∷ ips) p h fits = h

Leads-FitsStop :
    (ips : List WgAllowedip) (peers : List WgPeer) (ns : List PeerNest) (stop : Option Cursor)
    → AreShort ips
    → All FitsPeer peers
    → Leads ips peers ns stop
    → FitsStop stop
Leads-FitsStop ips peers [] none short fits h = tt
Leads-FitsStop ips peers [] (some c) short fits h = (rw (h.0) at short, rw (h.1) at fits)
Leads-FitsStop ips [] (n ∷ ns) stop short fits h = elim h [ ]
Leads-FitsStop ips (p ∷ peers) (n ∷ ns) stop short fits
      (a, (chunk, (left, (cut, (same, inl (e, rest)))))) =
    Leads-FitsStop [] peers ns stop tt fits.1 rest
Leads-FitsStop ips (p ∷ peers) (n ∷ ns) stop short fits
      (a, (chunk, (left, (cut, (same, inr (e, rest)))))) =
    Leads-FitsStop left (p ∷ peers) ns stop
      (drop-AreShort chunk left (rw cut at (left_of-AreShort ips p short fits.0))) fits rest

-- What is still to be sent behind a message.
abbrev LeadsOn : Option Cursor → List PeerNest → Type 0
LeadsOn none ns = ns ≡ []
LeadsOn (some c) ns = Leads c.allowedip (c.peer ∷ c.next) ns none

Leads-LeadsOn :
    (ips : List WgAllowedip) (peers : List WgPeer) (ns ms : List PeerNest) (stop : Option Cursor)
    → Leads ips peers ns stop
    → LeadsOn stop ms
    → Leads ips peers (ns ++ ms) none
Leads-LeadsOn ips peers ns ms (some c) h k = Leads-append ips peers ns ms c none h k
Leads-LeadsOn ips peers ns ms none h k = rw (k, append-nil ns) h

-- A message whose unchecked part has room in the buffer.
within_buffer :
    (nl : Netlink) (m : Message)
    → nl.header_size + attrs_room nl m.attrs + nest_room nl m.peers ≤ nl.buffer_size
    → overruns nl m ≡ false
within_buffer nl m h = ground (arith, h)

module _ (nl : Netlink) (mono : IsMonotone nl) (exchange : ℕ → Message → Reply)
    (taken : (n : ℕ) (m : Message) → exchange n m ≡ answered) (d : WgDevice)
    (roomy : nl.header_size + attrs_room nl (name_attr nl d) + nl.attr_size 0 + 12 * nl.attr_size 32
      ≤ nl.buffer_size) where
  abbrev mono4 : nl.attr_size 0 ≤ nl.attr_size 4
  mono4 = mono 0 4 (omega arith)

  send_from-LeadsOn :
      (fuel n : ℕ) (message : Message) (stop : Option Cursor)
      → overruns nl message ≡ false
      → SoundStop stop
      → FitsStop stop
      → stop_work stop < fuel
      → (others : List Message) × ((send_from nl exchange fuel n d (message, stop)
            ≡ ok (message ∷ others, pos 0))
          × (All (λ o. o.attrs ≡ name_attr nl d) others × LeadsOn stop (all_nests others)))
  unfolding send_from put_message
  send_from-LeadsOn zero n message stop inside sound fits less = elim less [ ]
  send_from-LeadsOn (suc fuel) n message none inside sound fits less =
      ([], (rw (inside, taken n message, send_from) refl, (tt, refl)))
  send_from-LeadsOn (suc fuel) n message (some c) inside sound fits less =
      let size = nl.header_size + attrs_room nl (name_attr nl d) + nl.attr_size 0 in
      let peers = c.peer ∷ c.next in
      let (nests, stop) = put_peers nl size c.allowedip peers in
      let (leads, sound') = put_peers-Leads nl mono4 size c.allowedip peers sound in
      let falls =
        put_peers-work nl mono size c.allowedip c.peer c.next sound fits.1.0 fits.0 roomy in
      let fits' = Leads-FitsStop c.allowedip peers nests stop fits.0 fits.1 leads in
      let next : Message = record { attrs = name_attr nl d; peers = some nests } in
      let (others, (sent, (attrs, rest))) =
        send_from-LeadsOn fuel (suc n) next stop (within_buffer nl next (omega (arith, roomy)))
          sound' fits' (omega (arith, falls, less)) in
      (
        next ∷ others,
        (
          rw (inside, taken n message, send_from, sent) refl,
          ((refl, attrs), Leads-LeadsOn c.allowedip peers nests (all_nests others) stop leads rest),
        ),
      )

  -- The same from the first message on.
  first_message-Leads :
      (fuel : ℕ) (attrs : List (Attr DeviceType)) (peers : List WgPeer)
      → nl.header_size + attrs_room nl attrs + nl.attr_size 0 ≤ nl.buffer_size
      → All FitsPeer peers
      → work [] peers < fuel
      → (messages : List Message) × ((send_from nl exchange fuel 0 d (first_message nl attrs peers)
            ≡ ok (messages, pos 0))
          × (HasAttrs attrs (name_attr nl d) messages × Leads [] peers (all_nests messages) none))
  unfolding first_message put_message
  first_message-Leads fuel attrs [] room fits enough =
      let message : Message = record { attrs = attrs; peers = none } in
      let (others, (sent, (same, rest))) =
        send_from-LeadsOn fuel 0 message none (within_buffer nl message (omega (arith, room))) tt tt
          enough in
      (message ∷ others, (sent, ((refl, same), rw rest refl)))
  first_message-Leads fuel attrs (p ∷ peers) room fits enough =
      let size = nl.header_size + attrs_room nl attrs + nl.attr_size 0 in
      let (nests, stop) = put_peers nl size [] (p ∷ peers) in
      let (leads, sound) = put_peers-Leads nl mono4 size [] (p ∷ peers) (λ e. refl) in
      let falls = Leads-work [] (p ∷ peers) nests stop leads in
      let fits' = Leads-FitsStop [] (p ∷ peers) nests stop tt fits leads in
      let message : Message = record { attrs = attrs; peers = some nests } in
      let (others, (sent, (same, rest))) =
        send_from-LeadsOn fuel 0 message stop (within_buffer nl message (omega (arith, room))) sound
          fits' (omega (arith, falls, enough)) in
      (
        message ∷ others,
        (
          sent,
          ((refl, same), Leads-LeadsOn [] (p ∷ peers) nests (all_nests others) stop leads rest),
        ),
      )

-- Where an attribute of more bytes takes no less room, the keys and addresses of the peers have their
-- lengths, a message with the name has room for twelve attributes of 32 bytes, no string that is to be
-- written is NULL, the attributes of the device, which are written without a check, have room in the
-- first message, and the kernel takes each message, `kernel_set_device` ends without an error, and
-- within the buffer where it makes no checks, after a number of messages that the peers and their
-- addresses bound. The first message alone has the attributes of the device, and the nests of all
-- messages, one after the other, deliver the peers: each peer has a first nest with all its attributes,
-- behind it nests with its key, its mark for advanced security and its flags only, and the allowed
-- addresses in them are those of the peer, each one once and in their order.
pub kernel_set_device-Leads :
    (nl : Netlink) (mono : IsMonotone nl) (exchange : ℕ → Message → Reply) (d : WgDevice)
    (version fuel : ℕ) (attrs : List (Attr DeviceType))
    → ((n : ℕ) (m : Message) → exchange n m ≡ answered)
    → nl.header_size + attrs_room nl (name_attr nl d) + nl.attr_size 0 + 12 * nl.attr_size 32
      ≤ nl.buffer_size
    → device_attrs nl version d ≡ ok attrs
    → nl.header_size + attrs_room nl (name_attr nl d ++ attrs) + nl.attr_size 0 ≤ nl.buffer_size
    → All FitsPeer d.peers
    → work [] d.peers < fuel
    → (messages : List Message) × ((kernel_set_device nl exchange fuel (inr version) d
          ≡ ok (messages, pos 0))
        × (HasAttrs (name_attr nl d ++ attrs) (name_attr nl d) messages
            × Leads [] d.peers (all_nests messages) none))
unfolding kernel_set_device first_message put_message
kernel_set_device-Leads nl mono exchange d version fuel attrs taken roomy built room fits enough =
    rw built (
      first_message-Leads nl mono exchange taken d roomy fuel (name_attr nl d ++ attrs) d.peers room
        fits enough)
