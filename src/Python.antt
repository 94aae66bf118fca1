-- ===== src/Python.antt =====
-- What the program takes from Python: JSON values, floats, errors and `ipaddress`.
pub mod Float
pub mod Result
pub mod Value
pub mod Ipaddress
