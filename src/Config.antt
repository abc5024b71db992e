-- ===== src/Config.antt =====
-- tunnel/tools/amneziawg-tools/src/config.c: the reader of configuration files and of the `set`
-- command line. The children follow the file from the readers of single values up to whole input.
pub mod Number
pub mod KeyValue
pub mod Netmask
pub mod Address
pub mod Allowed
pub mod Setter
pub mod Section
pub mod Line
pub mod Command
pub mod Total
