-- ===== src/Python.antt =====
-- What the program uses of Python's built-in types and of asyncio's streams, over code points,
-- bytes and unbounded integers.
pub mod Text
pub mod Utf8
pub mod Number
