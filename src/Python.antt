-- ===== src/Python.antt =====
-- What the source uses of Python's texts and numbers: `str.split`, `str.join`, `str.partition`,
-- `str.strip` and `int`. A text is the list of its code points.
pub mod Separators
pub mod Numerals
