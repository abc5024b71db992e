-- ===== src/Tests/Answers.antt =====
-- The theorems on the readers of `kernel_get_device` at an answer.
use special_potato.Prelude.{ℕ, true, List, [], ◌∷◌, map, none, some, ◌≡◌, ◌↔◌, refl, Bytes, Option}
use special_potato.Outcome.{ok}
use special_potato.Containers.{WgAllowedip, af_unspec, af_inet, no_address, new_device}
use special_potato.Kernel.Answer.{
  PeerAttr, plain, allowedips, Reads, public_key_kind, family_kind, ipaddr_kind, cidr_mask_kind,
}
use special_potato.Kernel.Get.{parse_peers}
use special_potato.Kernel.Get.Accepted.{HasKeyFirst, parse_peers_iff}
use special_potato.Kernel.Fetch.{coalesce_peers}
use special_potato.Kernel.Fetch.Coalesce.{Parts, whole, all_parts, coalesce_peers-whole}
use special_potato.Tests.{key, named_peer}
use special_potato.Containers.{zero_key}

abbrev one_byte : Bytes → Option ℕ
one_byte (b ∷ []) = some b
one_byte (b ∷ c ∷ []) = some b
one_byte s = none

abbrev little : Reads
little = record {
  number = λ width payload. one_byte payload;
  string = λ s. some s;
  nul_string = λ s. some s;
  is_flag = λ s. true;
  family_of = λ s. af_unspec;
  sockaddr_size = 16;
  sockaddr_len = λ f. 16;
  sockaddr_of = λ s. no_address;
  timespec_len = 16;
  timespec_of = λ s. record { tv_sec = 0; tv_nsec = 0 };
}

-- A peer with an address of IPv4 whose prefix is 33.
abbrev nest : List PeerAttr
nest =
    plain public_key_kind key
    ∷ allowedips (
        (record { kind = family_kind; payload = 2 ∷ 0 ∷ [] }
          ∷ record { kind = ipaddr_kind; payload = 10 ∷ 0 ∷ 0 ∷ 0 ∷ [] }
          ∷ record { kind = cidr_mask_kind; payload = 33 ∷ [] }
          ∷ [])
        ∷ [])
    ∷ []

parse_peers_iff_example : ((parse_peers little nest new_device).0 ≡ true) ↔ HasKeyFirst little nest
parse_peers_iff_example = parse_peers_iff little nest new_device

abbrev net : WgAllowedip
net = record { family = af_inet; ip = 0x0a000000 ∷ []; cidr = 8 }

abbrev cuts : List Parts
cuts =
    record {
      first = record named_peer { allowedips = net ∷ net ∷ [] };
      others = record named_peer { allowedips = net ∷ [] } ∷ [];
    }
    ∷ record { first = record named_peer { public_key = zero_key }; others = [] }
    ∷ []

coalesce_peers-whole_example : coalesce_peers (all_parts cuts) ≡ ok (map whole cuts)
coalesce_peers-whole_example =
    coalesce_peers-whole cuts (((refl, refl), tt), (tt, tt)) (λ e. cc, tt)
