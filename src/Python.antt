-- ===== src/Python.antt =====
-- What hpfeeds/protocol.py takes from Python and its library: values, exceptions, `struct`, codecs.
pub mod Result
pub mod Exec
pub mod Struct
pub mod Values
