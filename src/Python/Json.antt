-- ===== src/Python/Json.antt =====
-- The values that `json.loads` returns, and Python's operations on them: subscripts, `==`,
-- truth, `int + value`, iteration. Numbers are whole (the sample data has no fractions); a dict
-- keeps its entries in the order of insertion.
mod Values
unfoldable pub use Values.*
