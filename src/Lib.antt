-- ===== src/Lib.antt =====
-- echo-protocol carries IP packets over sound. A packet is read from a tunnel device, its header is
-- compressed, it is protected by a Reed-Solomon code, scrambled, and put bit by bit into a ring that
-- the audio callback reads; the receiver searches the demodulated bits for the sync word, descrambles
-- what follows and undoes the other steps. This library models the parts that decide whether a
-- packet arrives as it was sent.
--
-- Base (and Base/): lists, tests, counting loops, words and bit operations over the native numbers.
--   A `uint8_t` or `uint32_t` is a number, with its wrap-around written out (`u8`, `u32`).
-- Ring: the bit ring of src/rb_bits.c and include/rb_bits.h. `put_bits`, `get_bits`, `rb_init` and
--   `rb_reset` are functions on the record `Buffer`; the array is a function from the masked index.
--   Ring/Inv has the invariant, Ring/Refine the queue that the ring implements, Ring/Fifo the sequences
--   of calls, Ring/Race a reader between two stores of `put_bits`.
-- Scrambler: src/scrambler.c. Scrambler/Stream runs it over the bits of a frame.
-- Sync: `check_sync_word` of src/demod_afsk.c, with the correlator's two variables as a record.
--   Sync/Popcount has the count of ones, Sync/Detect what is reported.
-- Fec: src/fec.c. Fec/Gf has the tables of GF(2^8), Fec/Rs the Reed-Solomon code with its whole decoder,
--   Fec/Length the sizes, Fec/Interleave the matrix interleaver, Fec/Frame `fec_encode` and
--   `fec_decode`, Fec/Crc the CRC-32. A C array is a list, read as 0 past its end; a function that fills
--   an array returns it, and the return of -1 is `none`. Whether `malloc` gives memory is an argument.
-- Rohc: src/rohc.c. Rohc has the state, the checksums and `rohc_sync_context`, Rohc/Compress and
--   Rohc/Decompress the two directions for IPv4 and IPv6, Rohc/Fields, Rohc/Rebuild and Rohc/Lockstep
--   the two ends together, Rohc/Prefix and Rohc/Shape a packet in a longer array. The
--   memory past the context, which an IPv4 header with long options makes
--   the code read, is an argument.
-- Header: the 16-bit frame header of src/echo_protocol.c, packed as `tun_to_rb` does, taken apart as
--   `handle_data_state` does, with `is_valid_header` and `is_valid_fec_len`; Header/Valid has what they
--   let through.
-- Receiver: `process_rx_bit`, `handle_data_state` and `rx_reset` of src/echo_protocol.c as functions on a
--   record of what the receiver reads and writes, with the time as an argument; Receiver/Inv has the
--   invariant, Receiver/Frame and its children a whole frame, bit by bit.
-- Preamble: `push_preamble` and `push_sync_word` of src/mod_fsk.c over the ring.
-- Transmit: `tun_to_rb` of src/echo_protocol.c. What `tun_read` gave and the LZ4 library are arguments.
--   Transmit/Choice has the bytes that are chosen, Transmit/Coded their code, Transmit/Framed the frame,
--   Transmit/Progress and Transmit/Sent its bits in the ring, Transmit/Resync the packets sent as they
--   are.
-- Delivery: `rb_to_tun` of src/echo_protocol.c. The packets written to the tunnel are a list, and the
--   memory that the code reads without having written it is an argument. Delivery/Read has the loops
--   over the ring, Delivery/Arrive and Delivery/Restore the way of a whole
--   frame, Delivery/Settled how every run ends.
-- Modem: the signals, for any type in the place of `float` (Base/Floats): the oscillators of src/mod_fsk.c
--   and src/mod_afsk.c, the Goertzel filter of src/demod_afsk.c, and `audio_to_rb` of
--   src/echo_protocol.c. Modem/Symbols has its runs over many samples.
-- Callback: `paCallback` of src/audio_io.c. Callback/Played has what it plays and hears, Callback/Air the
--   way of the bits through the signals, Callback/Toy an arithmetic that shows that its hypothesis can
--   hold. Receiver/Search has the search of the sync word after the ones of an idle sender.
-- Main: the loop of src/main.c, with what `poll` and `tun_read` give as an argument. Main/Room has the
--   back-pressure.
-- Link: Transmit, Receiver and Delivery together, over a channel that carries the bits of the ring.
--   Link/Led has a frame behind its preamble and sync word, Link/Air joins the loops and the callbacks
--   of two stations, over a channel that carries samples; Link/Compressed has the packets whose header is
--   compressed, over the bits of the ring.
-- Agc: the gain control of src/agc.c and include/agc.h, over Base/Floats; the clock and the environment are
--   arguments. A `time_t` or a count is a number; `calib_secs_elapsed` is the 32 bits of an `int`.
--   Agc/Calibrate has `agc_calibrate`, Agc/Steady `agc_steady` and `agc_tune`, Agc/Kept, Agc/Track,
--   Agc/Lock and Agc/Tune when the gains are locked, Agc/Runs any number of calls. It shares nothing
--   with the other parts but the statistics, which it reads.
-- Setup: `echo_init` and `echo_close` of src/echo_protocol.c, over `EchoProtocol` as it is laid out; the
--   other parts have a record of what they use of it, which `receiver_of`, `sender_of`, `station_of` and
--   `audio_of` give, with the static variables of the files as an argument. Setup/Ready has the station just after `echo_init`.
-- WarmUp: the eight packets of src/main.c before the loop; WarmUp/Sent has what they put into the ring,
--   WarmUp/Heard what the other station makes of them.
-- AudioIo: the streams of src/audio_io.c over an arbitrary PortAudio; AudioIo/Closed has what is left open.
-- Startup: `main` of src/main.c around its loop, from `log_init` on, with the paths on which it fails; what
--   is written to the log on the way is an argument. Startup/Closed has what is open at the end.
-- Log: src/log.c and include/log.h, with the files that are open and the lines that are printed as part of
--   the state; `fopen`, the formatted text and the time stamp are arguments. Log/Files has the files,
--   Log/Messages the lines.
-- Tunnel: `tun_alloc`, `tun_set_ip`, `tun_set_mtu` and `tun_set_up` of src/tun_tap.c, and their calls in
--   src/main.c at the start, over an arbitrary system; Tunnel/Closed has the open descriptors.
--
-- Loops are `for_up` and `for_down` of Base/Loops, by recursion on the number of rounds, so that every
-- function ends and no fuel is needed.
--
-- Not modelled: the command line and the signals of the process, the waits, the messages for the user, and
-- LZ4 and PortAudio, which the sources only call. `tun_read` and `tun_write` are a system call each. A
-- station's audio thread and its loop take turns: what they do to a ring at the same time is only in
-- Ring/Race.
pub mod Base
pub mod Ring
pub mod Scrambler
pub mod Sync
pub mod Fec
pub mod Rohc
pub mod Header
pub mod Receiver
pub mod Preamble
pub mod Transmit
pub mod Delivery
pub mod Link
pub mod Agc
pub mod Log
pub mod Tunnel
pub mod Modem
pub mod Callback
pub mod Main
pub mod Setup
pub mod WarmUp
pub mod AudioIo
pub mod Startup
