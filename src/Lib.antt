-- ===== src/Lib.antt =====
-- The media and buffer code of inc, a C++ library of headers, modelled and verified.
--
-- The parts and how they interact
--   byte.hpp        Byte      `libyte::Slice`, a cursor over memory with big- and little-endian
--                             writers (`put_be_u32` is PutBeU32) and readers (`get_be_u32` is BeU32);
--                             `Byte.Vars`, the GETVAR macros but GETVAR_BE32,
--                             which does not compile
--   buffer.hpp      Buffer    `libyte::Buffer`, the growing byte buffer (`write`, `read`, `remove`,
--                             `realloc`, `try_write`, ...)
--   stream/sps.hpp  Nalu      namespace `nalu`: `split` cuts a frame at its start codes, `sort`
--                             picks the parameter sets out of the units
--                   Sps       the bit reader (`u`, `ue`, `se`), `de_emulation_prevention`, and the
--                             decoders `Avc.decode_sps` and `Hevc.decode_sps`
--   stream/mp4box.hpp Mp4box  the boxes (`stts_marshal`, `trak_bytes`, ...), the configuration
--                             records (`avcc_marshal`, `hvcc_marshal`) and class `Trak`
--   stream/mp4.hpp  Mp4       `libfile::Mp4`: `write_frame` and `close`; `Output` is the file that it
--                             writes to and the frame that it takes
--   stream/fmp4.hpp Fmp4      `libfile::FMp4`, the same in fragments: moof and mdat for each frame
--   stream/rtp.hpp  Rtp       `librtp::Packet`: `unmarshal`, and `decode`, which joins fragments
--   stream/flv.hpp  Flv       `libflv::Packet`: the four `Marshal` functions and `pack`
--   stream/rtsp.hpp Rtsp      `librtsp`: `parse` and the credentials of class `url`; `Rtsp.Sdp`, the
--                             description of a session; `Rtsp.Client`, the requests and what an
--                             answer leads to; `Rtsp.Play`, the callback of `Client::Play`
--   net/tcp.hpp     Tcp       `libtcp`: `Tcp.Conn`, `Tcp.Client`, `Tcp.Server` and `Tcp.Context`, the
--                             classes of these names (`handle_event` is HandleEvent,
--                             `try_connect_next` is TryConnectNext, ...)
--   net/asio.hpp    Asio      `Asio.Conn`, class `Conn` of the `libtcp` that stands on asio: what its
--                             handlers do on the strand (`read_done`, `write_done`, `run_task`)
--   stream/frame.hpp Frames   `read264frame` and `libframe::File`
--   string.hpp      Text      `libstring::Split`
-- `nalu::Split` gives the units that `Sort` chooses from; `Trak::MakeVideo` sorts, decodes the
-- first set and writes the configuration; the two writers of files cut a frame by `Split`,
-- describe the first key frame by `MakeVideo` and list every frame in a `Trak`; the RTP decoder
-- writes into a `Buffer`, from which frames are cut. The RTSP client gives the packets between
-- its answers to that decoder. A TCP connection keeps what it reads and what it has still to send
-- in two Buffers; the server makes connections, the client makes and replaces one, and the
-- context calls them for their events.
-- Prelude holds what the parts share: Boolean tests, lists over the native numbers, the laws of
-- the bit operations, machine words and integers. In each part the module itself declares state
-- and operations, the modules below it are named for what they prove, and Tests runs examples.
--
-- How C++ is read
--   A pointer is the list of the bytes from there to the end of its block, or an index into the
--   block. Undefined behaviour (an access out of a block, a failed assertion, a division by zero)
--   is `none`, or `fault` where there are other outcomes; two computations with an `int` in the
--   parameter sets are the exception, and are named where they are. Unsigned words keep their
--   wrap-around (`Prelude.Word`); `char` is signed and is kept as its byte with the extension
--   written where it is cast. Objects are passed and returned.
--   Loops are structural recursion on the rounds that are left, as the code's own bound gives
--   them. Two functions take fuel: `Nalu.split` for the depth of its recursion, a level for each
--   unit and one for the last (the writers give one for each byte, which `Nalu.Ends` shows to be
--   enough), and `Text.split` for its rounds, each of which passes a separator of one byte or
--   more.
--
--   The answers of the kernel are inputs: a list of them, in the order of the calls, or a
--   function of the index of the address that is tried. What a class did is kept in a log, the
--   last first, which the theorems read. `Tcp.Conn.Moves` and `Tcp.Client.Steps` are the steps of
--   a connection and a client; a theorem about `Reach` holds after any sequence of them.
--   `Asio.Conn.Invariant.Step` is that of a connection over asio: a read or a write that was
--   begun ends in a step of its own, with whatever result, and what is posted to the strand runs
--   in the order of the posts. The callbacks of the application are parameters. Two kinds of loop
--   take fuel there: `DispatchMessages`, for which one round more than there are bytes to come is
--   enough when the handler takes no more than it is given, and the loop over the addresses, a
--   round for each and one more.
--
-- The specifications that the code is held to are stated apart from it: the Exp-Golomb code, the
-- syntax of the H.264 parameter set (`Sps.Avc.Fields`, `Sps.Avc.Encode`), the emulation
-- prevention (`Sps.Protect.protect`), the layout of the avcC record, the bytes of numbers in both
-- orders, the fragments of RFC 6184, and the stream of bytes that a buffer stands for.
--
-- Not modelled: the classes Server, Client and Context of net/asio.hpp, and the rest of
-- string.hpp. They are code of the repository like the rest and no theorem is about them. Of
-- net/tcp.hpp, the names of sockets, the options of setsockopt and the thread of the loop; two
-- threads in one object at a time are not considered. Of stream/rtsp.hpp, the socket. The
-- bindings of ffmpeg, faac, librtmp, kcp and the copies of other projects (minimp4, sigslot,
-- socket, ftp, the crypto directory, g711, channel, pool) are other projects' code, of which md5
-- and base64 are parameters of the RTSP client, and time, timer, file, proc, log, lock, singleton
-- and factory are thin wrappers of the system. H.265 parameter sets are decoded in the model, but
-- no encoding of them is stated.
pub mod Prelude
pub mod Byte
pub mod Buffer
pub mod Nalu
pub mod Sps
pub mod Mp4box
pub mod Rtp
pub mod Flv
pub mod Rtsp
pub mod Output
pub mod Mp4
pub mod Fmp4
pub mod Frames
pub mod Tcp
pub mod Asio
pub mod Text
