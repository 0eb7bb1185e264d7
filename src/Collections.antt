-- ===== src/Collections.antt =====
-- collections.c: the vector and the dictionary of the server.
pub mod Vector
pub mod Dictionary
