-- ===== src/Tcp.antt =====
-- net/tcp.hpp: TCP over epoll. What the kernel answers is an input: an answer is a value of the
-- types here, and the numbers are those of Linux.
pub mod Client
pub mod Conn
pub mod Context
pub mod Server
use inc.Prelude.{ℕ, List, Bool, ◌||◌, not, ◌==◌, bit_and, bit_or}

abbrev pub eintr : ℕ
eintr = 4

abbrev pub eagain : ℕ
eagain = 11

abbrev pub ewouldblock : ℕ
ewouldblock = 11

abbrev pub einprogress : ℕ
einprogress = 115

abbrev pub epollin : ℕ
epollin = 0x001

abbrev pub epollout : ℕ
epollout = 0x004

abbrev pub epollerr : ℕ
epollerr = 0x008

abbrev pub epollhup : ℕ
epollhup = 0x010

-- `detail::WouldBlock`.
abbrev pub would_block : ℕ → Bool
would_block error = (error == eagain) || (error == ewouldblock)

-- `ev & flags`, as a condition.
abbrev pub has : ℕ → ℕ → Bool
has ev flags = not (bit_and ev flags == 0)

-- What `recv` returns: the bytes, none of them at the end of the stream, or -1 with `errno`.
pub data Received : Type 0 where
  got : List ℕ → Received
  recv_failed : ℕ → Received

-- What `send` returns: how many bytes it took, or -1 with `errno`.
pub data Sent : Type 0 where
  took : ℕ → Sent
  send_failed : ℕ → Sent
