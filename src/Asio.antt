-- ===== src/Asio.antt =====
-- net/asio.hpp: TCP over asio. The library is not here: what an asynchronous operation comes to is
-- an input, and that a strand runs what was posted to it one at a time and in order is how the steps
-- of `Asio.Conn` are made.
pub mod Conn
