-- ===== src/Config/Setter.antt =====
-- config.c: the assignment of each value together with its flag, as `process_line` and
-- `config_read_cmd` make them.
use special_potato.Prelude.{ℕ, Bool, true, Bytes, Option}
use special_potato.Containers.{WgPeer, WgDevice}

abbrev pub private_key : Bytes → WgDevice → WgDevice
private_key key d = record d {
  private_key = key;
  flags = record (d.flags) { has_private_key = true };
}

abbrev pub jc : ℕ → WgDevice → WgDevice
jc n d = record d { junk_packet_count = n; flags = record (d.flags) { has_jc = true } }

abbrev pub jmin : ℕ → WgDevice → WgDevice
jmin n d = record d { junk_packet_min_size = n; flags = record (d.flags) { has_jmin = true } }

abbrev pub jmax : ℕ → WgDevice → WgDevice
jmax n d = record d { junk_packet_max_size = n; flags = record (d.flags) { has_jmax = true } }

abbrev pub s1 : ℕ → WgDevice → WgDevice
s1 n d = record d { init_packet_junk_size = n; flags = record (d.flags) { has_s1 = true } }

abbrev pub s2 : ℕ → WgDevice → WgDevice
s2 n d = record d { response_packet_junk_size = n; flags = record (d.flags) { has_s2 = true } }

abbrev pub s3 : ℕ → WgDevice → WgDevice
s3 n d = record d { cookie_reply_packet_junk_size = n; flags = record (d.flags) { has_s3 = true } }

abbrev pub s4 : ℕ → WgDevice → WgDevice
s4 n d = record d { transport_packet_junk_size = n; flags = record (d.flags) { has_s4 = true } }

abbrev pub h1 : Option Bytes → WgDevice → WgDevice
h1 t d = record d { init_packet_magic_header = t; flags = record (d.flags) { has_h1 = true } }

abbrev pub h2 : Option Bytes → WgDevice → WgDevice
h2 t d = record d { response_packet_magic_header = t; flags = record (d.flags) { has_h2 = true } }

abbrev pub h3 : Option Bytes → WgDevice → WgDevice
h3 t d = record d { underload_packet_magic_header = t; flags = record (d.flags) { has_h3 = true } }

abbrev pub h4 : Option Bytes → WgDevice → WgDevice
h4 t d = record d { transport_packet_magic_header = t; flags = record (d.flags) { has_h4 = true } }

abbrev pub i1 : Option Bytes → WgDevice → WgDevice
i1 t d = record d { i1 = t; flags = record (d.flags) { has_i1 = true } }

abbrev pub i2 : Option Bytes → WgDevice → WgDevice
i2 t d = record d { i2 = t; flags = record (d.flags) { has_i2 = true } }

abbrev pub i3 : Option Bytes → WgDevice → WgDevice
i3 t d = record d { i3 = t; flags = record (d.flags) { has_i3 = true } }

abbrev pub i4 : Option Bytes → WgDevice → WgDevice
i4 t d = record d { i4 = t; flags = record (d.flags) { has_i4 = true } }

abbrev pub i5 : Option Bytes → WgDevice → WgDevice
i5 t d = record d { i5 = t; flags = record (d.flags) { has_i5 = true } }

abbrev pub public_key : Bytes → WgPeer → WgPeer
public_key key p = record p { public_key = key; flags = record (p.flags) { has_public_key = true } }

abbrev pub preshared_key : Bytes → WgPeer → WgPeer
preshared_key key p = record p {
  preshared_key = key;
  flags = record (p.flags) { has_preshared_key = true };
}

abbrev pub awg : Bool → WgPeer → WgPeer
awg b p = record p { awg = b; flags = record (p.flags) { has_awg = true } }
