-- ===== src/Lib.antt =====
-- The command line tools of amneziawg: tunnel/tools/amneziawg-tools/src.
--
-- The tools read a configuration, from a file or from the arguments of `set`, into a device with its
-- peers (containers.h), and hand that to the kernel or to a userspace implementation. What is modelled
-- is the part that reads: the characters and keys at the bottom, the readers of single values above
-- them, and whole lines and arguments at the top.
--
--   Ctype       ctype.h: `char_is_space`, `char_is_digit`, `char_is_alpha`.
--   Encoding    encoding.c: `key_to_base64`, `key_from_base64`, `key_to_hex`, `key_from_hex`,
--               `key_is_zero`.
--   Containers  containers.h: `wgdevice`, `wgpeer`, `wgallowedip` and their flags as records; the
--               linked lists are lists, a NULL string is `none`, `calloc` gives the zero records.
--   Outcome     how a call ends, and the system that the calls use: name resolution, numeric
--               addresses, one environment variable and the files are parameters.
--   Libc        what the code uses of string.h, and `strtoul` and `printf` of numbers.
--   Config      config.c. Number, KeyValue, Netmask, Address and Allowed are the readers of values;
--               Section is `process_line`, Line is `config_read_line` with `config_read_init` and
--               `config_read_finish`, Command is `config_read_cmd`. The pointers `last_peer` and
--               `last_allowedip` are modelled by whether they are NULL: they point to the ends of
--               their lists, and a write through NULL is the outcome `fault`.
--   Setconf     setconf.c: `sync_conf` and `setconf_main`, up to the device for `ipc_set_device`.
--   Showconf    showconf.c: the text that `showconf_main` prints.
--   Show        show.c: `peer_cmp`, `pretty_time`, `ago` and `every`; Dump is `dump_print`, with `ip`
--               and `endpoint`, Ugly is `ugly_print`.
--   Terminal    terminal.c: `color_mode` and `filter_ansi`.
--   Highlighter tunnel/tools/amneziawg-tools/contrib/highlighter/highlighter.c, the syntax check of
--               configuration texts. Classes, Host and Value are the `is_valid_` functions, Spans the
--               array of spans with `highlight_value`, Scan the automaton of `highlight_config`. A span
--               under test is the list of its bytes, with the character behind it where the code may
--               look at that.
--   Uapi        ipc-uapi.h, the protocol with a userspace implementation: Set is
--               `userspace_set_device`, Get is `userspace_get_device`. `goto err` and `break` are the
--               values of `Step`; the socket is a function from a request to the lines of its reply.
--   Kernel      ipc-linux.h, requests to the kernel: Attrs and Nest fill a message with peers, Set is
--               `kernel_set_device`; Answer has the attributes of an answer, Get their readers, Fetch
--               `coalesce_peers` and `kernel_get_device`. A write past the end of the
--               buffer is the outcome `fault`. Of libmnl stands here the room that an
--               attribute takes, and what it makes of a payload; what the kernel answers is a parameter.
--   Ipc         ipc.c: the list of the interfaces in its buffer, and the choice of the implementation.
--   KeyCommand  genkey.c and pubkey.c, with `curve25519_clamp_secret` of curve25519.h; what they print
--               is their result. The random bytes and `curve25519_generate_public` are parameters.
--   Tests       the theorems at concrete inputs.
--
-- A byte is a number below 256 and a string the list of its bytes before the final zero; where the
-- code promotes a `char` to `int`, the sign of `char` is a parameter. Words keep their wrap-around, and
-- times are not negative; their difference in `peer_cmp` is that of a `time_t` of 64 or 32 bits, which
-- is a parameter.
-- The wait for a name is bounded by the number of retries, or, where the environment asks for no
-- bound, watched for a number of attempts that is a parameter; the loop over arguments has one unit
-- of fuel for each argument, and takes at least one in each round. The loop over netlink messages
-- has fuel for two messages for each peer and one for each allowed address, which is enough. Memory
-- is not exhausted: the error paths of `calloc` and `strdup` are left out, as are the texts of
-- messages.
--
-- Not modelled: `pretty_print`, `sort_peers` and `show_main` of show.c, `get_random_bytes` of genkey.c,
-- the backends of other systems, libmnl (netlink.h), the arithmetic of Curve25519, and the Android
-- application.
pub mod Prelude
pub mod Ctype
pub mod Encoding
pub mod Containers
pub mod Outcome
pub mod Libc
pub mod Config
pub mod Highlighter
pub mod Uapi
pub mod KeyCommand
pub mod Kernel
pub mod Ipc
pub mod Setconf
pub mod Showconf
pub mod Terminal
pub mod Show
pub mod Tests
