-- ===== src/Python.antt =====
-- The parts of Python that the services rest on: exceptions, the values that `json.loads` returns
-- with their operations, and the text operations of the program.
pub mod Errors
pub mod Json
pub mod Text
pub mod Subscript
pub mod Schema
pub mod Key
